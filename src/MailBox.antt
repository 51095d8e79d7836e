-- ===== src/MailBox.antt =====
-- TMailBox of `Kernel/mailbox.cpp` (the WIN32 build): the messages for an automaton, oldest first.
-- `locks` is how deep the calling thread holds the critical section. Buffers go back to the pool
-- `TBuffers`, which all mailboxes share, so that the pool is part of the state here.
pub mod Laws
pub mod Pool
pub mod Clean
use publisher_subscriber_ser.Base.{
  ℕ, zero, suc, ◌+◌, ◌-◌, ◌%◌, ◌^◌, ◌==◌, if◌then◌else◌, true, false, Option, none, some, Run, ok,
  thrown, out_of_fuel, ◌>>=◌, ◌>>◌, throw_if, Build,
}
use publisher_subscriber_ser.Memory.{Ptr, null, Mem, load_uint16}
use publisher_subscriber_ser.Line.{Line, no_line, push_back, pop_front}
use publisher_subscriber_ser.Buffers.{TBuffers, ret_buffer}

pub record TMailBox : Type 0 where
  pub line : Line
  pub count : ℕ
  pub locks : ℕ

-- What a call works on: the buffers, the pool and the mailbox.
pub record World : Type 0 where
  pub mem : Mem
  pub pool : TBuffers
  pub box : TMailBox

abbrev pub discarded : ℕ
discarded = 0x7FFF

abbrev pub msg_code : ℕ
msg_code = 4

-- The constructor; `none` is a null pointer to the pool.
unfoldable pub create : Option TBuffers → Run TMailBox
create none = thrown 0x01010200
create (some buffers) = ok (record { line = no_line; count = 0; locks = 0 })

unfoldable pub mbx_lock : TMailBox → TMailBox
mbx_lock q = record q { locks = q.locks + 1 }

unfoldable pub mbx_unlock : TMailBox → TMailBox
mbx_unlock q = record q { locks = q.locks - 1 }

unfoldable pub get_from_head : Mem → TMailBox → Ptr × TMailBox
unfolding mbx_lock mbx_unlock pop_front
get_from_head m q =
    let q' = mbx_lock q in
    let (info, line') = pop_front m.next q'.line in
    if q'.line.head == null
    then (null, mbx_unlock q')
    else (info, mbx_unlock (record q' { line = line'; count = (q'.count + 2 ^ 32 - 1) % 2 ^ 32 }))

unfoldable pub put_on_tail : Mem → TMailBox → Ptr → Mem × TMailBox
unfolding mbx_lock mbx_unlock push_back
put_on_tail m q info =
    let q' = mbx_lock q in
    let (next', line') = push_back m.next q'.line info in
    (
      record m { next = next' },
      mbx_unlock (record q' { line = line'; count = (q'.count + 1) % 2 ^ 32 }),
    )

unfoldable pub add : Mem → TMailBox → Ptr → Run (Mem × TMailBox)
add m q info = do throw_if (info == null) 0x01010202; ok (put_on_tail m q info)

-- `Get`: discarded messages go back to the pool, with `fuel` rounds left.
unfoldable pub get : (fuel : ℕ) → Build → World → Run (Ptr × World)
get zero b w = out_of_fuel
get (suc fuel) b w =
    let r = get_from_head w.mem w.box in
    let w' = record w { box = r.1 } in
    if r.0 == null
    then ok (null, w')
    else if load_uint16 w.mem r.0 msg_code == discarded
    then (do p ← ret_buffer b w.mem w.pool r.0; get fuel b (record w' { mem = p.0; pool = p.1 }))
    else ok (r.0, w')

unfoldable pub query_head : TMailBox → Ptr × TMailBox
unfolding mbx_lock mbx_unlock
query_head q = let q' = mbx_lock q in (q'.line.head, mbx_unlock q')

unfoldable pub get_count : TMailBox → ℕ × TMailBox
unfolding mbx_lock mbx_unlock
get_count q = let q' = mbx_lock q in (q'.count, mbx_unlock q')

-- `Purge`, with `fuel` rounds left here and `inner` for each `Get`.
unfoldable pub purge : (fuel inner : ℕ) → Build → World → Run World
purge zero inner b w = out_of_fuel
purge (suc fuel) inner b w = elim (w.box.line.head == null) [
  | true ↦ ok w
  | false ↦ do
    r ← get inner b w
    w' ← elim (r.0 == null) [
      | true ↦ ok r.1
      | false ↦ do p ← ret_buffer b r.1.mem r.1.pool r.0; ok (record r.1 { mem = p.0; pool = p.1 })
    ]
    purge fuel inner b w'
]
