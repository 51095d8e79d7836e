-- ===== src/FsmSystem.antt =====
-- FSMList and FSMSystem of `Kernel/fsmSystem.cpp` and `Kernel/fsmSystem.h`: the automata of each type, in an
-- array of slots, the lists of free automata, and the loop that gives each message to its automaton.
-- What an automaton itself does (`Initialize`, `Process`, `NoFreeObjectProcedure`) is a parameter,
-- and so are the waits of the operating system.
pub mod Lists
pub mod Fills
pub mod Removes
pub mod Start
pub mod Routes
pub mod Turns
pub mod Kernel
use publisher_subscriber_ser.Base.{
  ℕ, zero, suc, ◌+◌, ◌-◌, ◌%◌, ◌^◌, Bool, true, false, not, ◌||◌, ◌==◌, ltb, leb, if◌then◌else◌,
  Option, none, some, Run, ok, thrown, fault, out_of_fuel, ◌>>=◌, ◌>>◌, throw_if, assert_in,
  in_bounds, Build,
}
use publisher_subscriber_ser.Memory.{Ptr, null, Mem, update, load_uint32}
use publisher_subscriber_ser.Line.{Line, Links, no_line, push_back, pop_front}
use publisher_subscriber_ser.Buffers.{ret_buffer}
use publisher_subscriber_ser.PostOffice.{Office, get_sync}

pub record FsmList : Type 0 where
  pub line : Line
  pub free_fsm_count : ℕ

abbrev pub no_automata : FsmList
no_automata = record { line = no_line; free_fsm_count = 0 }

-- `GetFromHead`, which also clears the link of what it returns.
unfoldable pub get_from_head : Links → FsmList → Ptr × (Links × FsmList)
get_from_head n q =
    let r = pop_front n q.line in
    (r.0, (if r.0 == null then n else update n r.0 null, record q { line = r.1 }))

unfoldable pub add_free : Links → FsmList → Ptr → Run (Links × FsmList)
add_free n q info = do
  throw_if (info == null) 0x21010503
  let r = push_back n q.line info
  ok (r.0, record { line = r.1; free_fsm_count = (q.free_fsm_count + 1) % 2 ^ 32 })

unfoldable pub get_free : Links → FsmList → Run (Ptr × (Links × FsmList))
unfolding get_from_head
get_free n q = do
  let r = get_from_head n q
  throw_if (r.0 == null || q.free_fsm_count == 0) 0x21030504
  ok (r.0, (r.1.0, record r.1.1 { free_fsm_count = q.free_fsm_count - 1 }))

-- `IsEmpty`.
unfoldable pub none_free : FsmList → Bool
none_free q = if q.free_fsm_count == 0 then true else false

-- The array of the automata of one type: none yet, given back to the heap, or its slots.
pub data Slots : Type 0 where
  absent deleted : Slots
  present : (ℕ → Ptr) → Slots

pub record FsmSystem : Type 0 where
  pub office : Office
  pub automates : ℕ → Slots
  pub number_of_objects : ℕ → ℕ
  pub use_free_automate_list : ℕ → Bool
  pub free_automates : ℕ → FsmList
  pub next : Links
  pub object_id : Ptr → ℕ
  pub group : Ptr → ℕ
  pub number_of_automates : ℕ
  pub number_of_mbx : ℕ
  pub server_id : ℕ
  pub free_kernel_memory : Bool
  pub system_working : Bool

abbrev pub max_num_of_automates_types : ℕ
max_num_of_automates_types = 40

abbrev pub msg_to_automate : ℕ
msg_to_automate = 2

abbrev pub msg_object_id_to : ℕ
msg_object_id_to = 10

abbrev pub invalid_32 : ℕ
invalid_32 = 0xffffffff

-- What the automata do.
pub record Automata : Type 0 where
  pub initialize : Ptr → FsmSystem → Run FsmSystem
  pub process : (object msg : Ptr) → FsmSystem → Run FsmSystem
  pub no_free_object_procedure : (object msg : Ptr) → FsmSystem → Run FsmSystem

-- The loop of the constructor over the types from `i` on.
unfoldable pub clear_types : (rounds i : ℕ) → FsmSystem → FsmSystem
clear_types zero i s = s
clear_types (suc rounds) i s = clear_types rounds (i + 1) (record s {
  automates = update s.automates i absent;
  number_of_objects = update s.number_of_objects i 0;
  use_free_automate_list = update s.use_free_automate_list i false;
})

-- The constructor; `s` is what the memory holds before it.
unfoldable pub create : (num_of_automates number_of_mbx : ℕ) → FsmSystem → Run FsmSystem
create num_of_automates number_of_mbx s = do
  throw_if (num_of_automates == 0) 0x01010200
  throw_if (ltb max_num_of_automates_types num_of_automates) 0x01010200
  throw_if (number_of_mbx == 0) 0x01010200
  let s = record s { number_of_automates = num_of_automates; number_of_mbx = number_of_mbx }
  ok (record (clear_types num_of_automates 0 s) {
    free_kernel_memory = false;
    system_working = false;
  })

-- An automaton goes to the free ones of its type, if the type keeps them.
unfoldable pub free_fsm : (object : Ptr) (automate_type : ℕ) → FsmSystem → Run FsmSystem
free_fsm object automate_type s = elim (s.use_free_automate_list automate_type) [
  | false ↦ ok s
  | true ↦ do
    r ← add_free s.next (s.free_automates automate_type) object
    ok (record s { next = r.0; free_automates = update s.free_automates automate_type r.1 })
]

-- `automates[type][i] = object` with the object's number and group, and its `Initialize`.
unfoldable pub put_object :
    Automata → (object : Ptr) (automate_type i : ℕ) → (ℕ → Ptr) → FsmSystem → Run FsmSystem
put_object code object automate_type i slots s = do
  in_bounds (not (object == null))
  code.initialize object (record s {
    automates = update s.automates automate_type (present (update slots i object));
    object_id = update s.object_id object i;
    group = update s.group object s.server_id;
  })

-- The loop for the first slot that is free.
unfoldable pub put_in_free :
    (rounds i : ℕ)
    → Automata
    → (object : Ptr) (automate_type : ℕ) → (ℕ → Ptr)
    → FsmSystem
    → Run FsmSystem
put_in_free zero i code object automate_type slots s = thrown 0x01010200
put_in_free (suc rounds) i code object automate_type slots s =
    let rest = put_in_free rounds (i + 1) code object automate_type slots s in
    if slots i == null
    then (do s' ← put_object code object automate_type i slots s; free_fsm object automate_type s')
    else rest

abbrev pub is_absent : Slots → Bool
is_absent absent = true
is_absent deleted = false
is_absent (present slots) = false

-- An access of the array, which must be there.
unfoldable pub slots_of : Slots → Run (ℕ → Ptr)
slots_of absent = fault
slots_of deleted = fault
slots_of (present slots) = ok slots

-- `Add` of one automaton more.
unfoldable pub add_object :
    Build → Automata → (object : Ptr) (automate_type : ℕ) → FsmSystem → Run FsmSystem
add_object b code object automate_type s = do
  assert_in b (not (leb s.number_of_automates automate_type))
  in_bounds (ltb automate_type max_num_of_automates_types)
  assert_in b (not (is_absent (s.automates automate_type)))
  assert_in b (not (s.number_of_objects automate_type == 0))
  throw_if (s.number_of_objects automate_type == 0) 0x01010200
  slots ← slots_of (s.automates automate_type)
  put_in_free (s.number_of_objects automate_type) 0 code object automate_type slots s

-- `slots[i] = 0` from `i` on.
unfoldable pub clear_slots : (rounds i : ℕ) → (ℕ → Ptr) → ℕ → Ptr
clear_slots zero i slots = slots
clear_slots (suc rounds) i slots = clear_slots rounds (i + 1) (update slots i null)

-- `Add` of the first automaton of a type; `heap` is what the new array holds.
unfoldable pub add_type :
    Build
    → Automata
    → (heap : ℕ → Ptr) (object : Ptr) (automate_type num_of_objects : ℕ) (use_free_list : Bool)
    → FsmSystem
    → Run FsmSystem
add_type b code heap object automate_type num_of_objects use_free_list s = do
  assert_in b (not (num_of_objects == 0))
  assert_in b (not (leb s.number_of_automates automate_type))
  in_bounds (ltb automate_type max_num_of_automates_types)
  assert_in b (is_absent (s.automates automate_type))
  assert_in b (s.number_of_objects automate_type == 0)
  in_bounds (not (num_of_objects == 0))
  s ←
      put_object code object automate_type 0 heap
        (record s { number_of_objects = update s.number_of_objects automate_type num_of_objects })
  s ← free_fsm object automate_type (record s {
    use_free_automate_list = update s.use_free_automate_list automate_type use_free_list;
  })
  slots ← slots_of (s.automates automate_type)
  ok (record s {
    automates =
        update s.automates automate_type
          (present (clear_slots (s.number_of_objects automate_type - 1) 1 slots));
  })

-- `Remove` of all automata of a type. The pointer to the array stays.
unfoldable pub remove_type : Build → (automate_type : ℕ) → FsmSystem → Run FsmSystem
remove_type b automate_type s = do
  assert_in b (leb automate_type s.number_of_automates)
  in_bounds (ltb automate_type max_num_of_automates_types)
  elim (is_absent (s.automates automate_type)) [
    | true ↦ ok s
    | false ↦ do
      assert_in b (not (s.number_of_objects automate_type == 0))
      slots ← slots_of (s.automates automate_type)
      ok (record s {
        automates = update s.automates automate_type deleted;
        number_of_objects = update s.number_of_objects automate_type 0;
      })
  ]

-- `Remove` of one automaton.
unfoldable pub remove_object :
    Build → (automate_type object : ℕ) → FsmSystem → Run (Ptr × FsmSystem)
remove_object b automate_type object s = do
  assert_in b (leb s.number_of_automates automate_type)
  in_bounds (ltb automate_type max_num_of_automates_types)
  assert_in b (not (is_absent (s.automates automate_type)))
  assert_in b (not (s.number_of_objects automate_type == 0))
  slots ← slots_of (s.automates automate_type)
  in_bounds (ltb object (s.number_of_objects automate_type))
  ok (
    slots object,
    record s { automates = update s.automates automate_type (present (update slots object null)) },
  )
