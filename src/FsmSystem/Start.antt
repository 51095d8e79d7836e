-- ===== src/FsmSystem/Start.antt =====
-- `FSMSystem::Start`: the loop that takes messages from the mailboxes and gives each to its automaton.
use publisher_subscriber_ser.Base.{
  ℕ, zero, suc, ◌+◌, true, false, not, ◌==◌, ltb, Run, ok, out_of_fuel, ◌>>=◌, ◌>>◌, in_bounds,
  Build,
}
use publisher_subscriber_ser.Memory.{Ptr, null, update, load_uint32}
use publisher_subscriber_ser.Buffers.{ret_buffer}
use publisher_subscriber_ser.PostOffice.{get_sync}
use publisher_subscriber_ser.FsmSystem.{
  FsmSystem, Automata, max_num_of_automates_types, msg_to_automate, msg_object_id_to, invalid_32,
  get_free, slots_of,
}

-- `DiscardMsg`.
unfoldable pub discard_msg : Build → Ptr → FsmSystem → Run FsmSystem
discard_msg b msg s = do
  r ← ret_buffer b s.office.mem s.office.pool msg
  ok (record s { office = record s.office { mem = r.0; pool = r.1 } })

-- The automaton in a slot; an index behind the array is read out of bounds.
unfoldable pub object_at : (automate_type object : ℕ) → FsmSystem → Run Ptr
object_at automate_type object s = do
  slots ← slots_of (s.automates automate_type)
  in_bounds (ltb object (s.number_of_objects automate_type))
  in_bounds (not (slots object == null))
  ok (slots object)

-- A message for no automaton in particular goes to a free one.
unfoldable pub to_free : Automata → (msg : Ptr) (automate_type : ℕ) → FsmSystem → Run FsmSystem
to_free code msg automate_type s = do
  r ← get_free s.next (s.free_automates automate_type)
  let s' = record s { next = r.1.0; free_automates = update s.free_automates automate_type r.1.1 }
  elim (r.0 == null) [
    | false ↦ code.process r.0 msg s'
    | true ↦ do first ← object_at automate_type 0 s'; code.no_free_object_procedure first msg s'
  ]

unfoldable pub to_object :
    Build → Automata → (msg : Ptr) (automate_type object : ℕ) → FsmSystem → Run FsmSystem
to_object b code msg automate_type object s =
    elim (ltb (s.number_of_objects automate_type) object) [
      | true ↦ discard_msg b msg s
      | false ↦ do automaton ← object_at automate_type object s; code.process automaton msg s
    ]

-- What the loop does with a message.
unfoldable pub dispatch : Build → Automata → (msg : Ptr) → FsmSystem → Run FsmSystem
dispatch b code msg s =
    let automate_type = s.office.mem.bytes msg msg_to_automate in
    let object = load_uint32 s.office.mem msg msg_object_id_to in
    elim (ltb s.number_of_automates automate_type) [
      | true ↦ discard_msg b msg s
      | false ↦ do
        in_bounds (ltb automate_type max_num_of_automates_types)
        elim (s.number_of_objects automate_type == 0) [
          | true ↦ discard_msg b msg s
          | false ↦ elim (object == invalid_32) [
            | true ↦ to_free code msg automate_type s
            | false ↦ to_object b code msg automate_type object s
          ]
        ]
    ]

-- One turn of the inner loop: `signalled` is the mailbox that the wait reports.
unfoldable pub turn : (fuel : ℕ) → Build → Automata → (signalled : ℕ) → FsmSystem → Run FsmSystem
turn fuel b code signalled s = do
  r ← get_sync fuel b signalled s.office
  let s' = record s { office = r.1 }
  elim (r.0.1 == null) [ true ↦ ok s' | false ↦ dispatch b code r.0.1 s' ]

unfoldable pub turns :
    (rounds fuel : ℕ) → Build → Automata → (signals : ℕ → ℕ) (i : ℕ) → FsmSystem → Run FsmSystem
turns zero fuel b code signals i s = ok s
turns (suc rounds) fuel b code signals i s = do
  s' ← turn fuel b code (signals i) s
  turns rounds fuel b code signals (i + 1) s'

-- The outer loop, while the system works; `signals k i` is reported in the turn `i` of its round `k`.
unfoldable pub run_rounds :
    (rounds fuel : ℕ) → Build → Automata → (signals : ℕ → ℕ → ℕ) (k : ℕ) → FsmSystem → Run FsmSystem
run_rounds zero fuel b code signals k s = out_of_fuel
run_rounds (suc rounds) fuel b code signals k s = elim (s.system_working) [
  | false ↦ ok s
  | true ↦ do
    s' ← turns s.number_of_mbx fuel b code (signals k) 0 s
    run_rounds rounds fuel b code signals (k + 1) s'
]

unfoldable pub start :
    (rounds fuel : ℕ) → Build → Automata → (signals : ℕ → ℕ → ℕ) → FsmSystem → Run FsmSystem
start rounds fuel b code signals s =
    run_rounds rounds fuel b code signals 0 (record s { system_working = true })
