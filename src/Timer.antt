-- ===== src/Timer.antt =====
-- CTimer of `Kernel/timer.cpp` (the WIN32 build): the running timers in a delta list, each with the
-- ticks that it has more than the one before it. `head` is the dummy message that starts the list and
-- is never taken from it; `locks` is how deep the calling thread holds the critical section. The
-- operating system's periodic timer is outside: `timer_int_handler` is what it calls.
pub mod Delta
pub mod Chain
pub mod Seek
pub mod Steps
pub mod Adds
pub mod Elapse
pub mod Sent
pub mod Ticks
pub mod Handler
pub mod Served
pub mod Ready
pub mod Starts
pub mod OnTime
use publisher_subscriber_ser.Base.{
  ℕ, zero, suc, ◌+◌, ◌-◌, ◌*◌, ◌/◌, ◌%◌, ◌^◌, Bool, true, false, not, ◌&&◌, ◌==◌, ltb, leb,
  if◌then◌else◌, Option, none, some, Run, ok, thrown, fault, out_of_fuel, ◌>>=◌, ◌>>◌, throw_if,
  in_bounds, Build,
}
use publisher_subscriber_ser.Memory.{
  Ptr, null, Bytes, Mem, update, store_byte, store_uint16, store_uint32, load_uint16, load_uint32,
}
use publisher_subscriber_ser.Buffers.{TBuffers, get_buffer, ret_buffer}
use publisher_subscriber_ser.MailBox.{discarded, msg_code}
use publisher_subscriber_ser.PostOffice
use publisher_subscriber_ser.PostOffice.{TPostOffice, Office}

pub record CTimer : Type 0 where
  pub office : Office
  pub head : Ptr
  pub locks : ℕ
  pub timer_resolution : ℕ

abbrev pub timer_count : ℕ
timer_count = 6

abbrev pub timer_mbx_id : ℕ
timer_mbx_id = 1

abbrev pub msg_from_automate : ℕ
msg_from_automate = 0

abbrev pub timer_code : ℕ
timer_code = 0

abbrev pub msg_length : ℕ
msg_length = 19

abbrev pub msg_header_length : ℕ
msg_header_length = 21

-- The ticks in a timer's buffer.
abbrev pub count : Mem → Ptr → ℕ
count m p = load_uint32 m p timer_count

abbrev pub set_count : Mem → Ptr → ℕ → Mem
set_count m p v = store_uint32 m p timer_count v

abbrev pub link : Mem → Ptr → Ptr → Mem
link m p q = record m { next = update m.next p q }

-- The constructor, where the operating system gives a timer; `none` is a null pointer.
unfoldable pub create :
    (head : Ptr) (timer_res : ℕ) → Mem → Option TBuffers → Option TPostOffice → Run CTimer
create head timer_res m none post = thrown 0x01010400
create head timer_res m (some pool) none = thrown 0x01010401
create head timer_res m (some pool) (some post) = ok (record {
  office = record { mem = set_count (link m head null) head 0; pool = pool; post = post };
  head = head;
  locks = 0;
  timer_resolution = timer_res;
})

unfoldable pub disable_timer : CTimer → CTimer
disable_timer t = record t { locks = t.locks + 1 }

unfoldable pub enable_timer : CTimer → CTimer
enable_timer t = record t { locks = t.locks - 1 }

-- Where a timer goes: the memory, in which its ticks have become fewer, and `current` and `prev`.
pub record Place : Type 0 where
  pub mem : Mem
  pub current : Ptr
  pub prev : Ptr

-- The loop that looks for the place.
unfoldable pub seek : (fuel : ℕ) (timer current prev : Ptr) → Mem → Run Place
seek zero timer current prev m = out_of_fuel
seek (suc fuel) timer current prev m =
    elim (leb (count m current) (count m timer) && not (m.next current == null)) [
      | true ↦
          seek fuel timer (m.next current) current
            (set_count m timer (count m timer - count m current))
      | false ↦ ok (record { mem = m; current = current; prev = prev })
    ]

-- The timer is put before `current`, or behind it at the end of the list.
unfoldable pub insert : (timer : Ptr) → Place → Run Mem
insert timer p =
    let m = p.mem in
    if ltb (count m timer) (count m p.current)
    then (do
      in_bounds (not (p.prev == null))
      ok (
          link (link (set_count m p.current (count m p.current - count m timer)) timer p.current)
            p.prev timer))
    else ok (
        link (link (set_count m timer (count m timer - count m p.current)) timer null) p.current
          timer)

unfoldable pub add : (fuel : ℕ) (timer : Ptr) → CTimer → Run CTimer
add fuel timer t = do
  let t' = disable_timer t
  p ← seek fuel timer t'.head null t'.office.mem
  m ← insert timer p
  ok (enable_timer (record t' { office = record t'.office { mem = m } }))

-- `Purge`: all timers go back to the pool.
unfoldable pub purge_from : (fuel : ℕ) → Build → CTimer → Run CTimer
purge_from zero b t = out_of_fuel
purge_from (suc fuel) b t =
    let m = t.office.mem in
    let tmp = m.next t.head in
    elim (tmp == null) [
      | true ↦ ok t
      | false ↦ do
        r ← ret_buffer b (link m t.head (m.next tmp)) t.office.pool tmp
        purge_from fuel b (record t { office = record t.office { mem = r.0; pool = r.1 } })
    ]

unfoldable pub purge : (fuel : ℕ) → Build → CTimer → Run CTimer
purge fuel b t = do t' ← purge_from fuel b (disable_timer t); ok (enable_timer t')

-- The number of ticks for a count in units of `timer_res`.
abbrev pub ticks : CTimer → (count timer_res : ℕ) → ℕ
ticks t count timer_res = (count * (timer_res / t.timer_resolution)) % 2 ^ 32

unfoldable pub start_timer :
    (fuel : ℕ) (timer_message : Ptr) (mail_box_id count timer_res : ℕ) → CTimer → Run CTimer
start_timer fuel timer_message mail_box_id count timer_res t = do
  throw_if (count == 0) 0x21000403
  let m = set_count t.office.mem timer_message (ticks t count timer_res)
  let m = store_byte m timer_message msg_from_automate timer_code
  let m = store_byte m timer_message timer_mbx_id mail_box_id
  add fuel timer_message (record t { office = record t.office { mem = m } })

unfoldable pub stop_timer : (timer_message : Ptr) → CTimer → CTimer
stop_timer timer_message t = if timer_message == null then t else record t {
  office = record t.office { mem = store_uint16 t.office.mem timer_message msg_code discarded };
}

-- `memcpy` of the first `n` bytes of a buffer to another.
unfoldable pub copy_buffer : Mem → (dst src : Ptr) (n : ℕ) → Mem
unfolding update
copy_buffer m dst src n = record m {
  bytes = update m.bytes dst (λ k. if ltb k n then m.bytes src k else m.bytes dst k);
}

unfoldable pub restart_timer :
    (fuel : ℕ) → Build → (timer_message : Ptr) (count timer_res : ℕ) → CTimer → Run (Ptr × CTimer)
restart_timer fuel b timer_message count timer_res t = do
  throw_if (count == 0) 0x21000406
  throw_if (timer_message == null) 0x21000407
  throw_if (load_uint16 t.office.mem timer_message msg_code == discarded) 0x21090408
  let size = msg_header_length + load_uint16 t.office.mem timer_message msg_length
  r ← get_buffer b t.office.mem t.office.pool size
  let m = set_count (copy_buffer t.office.mem r.0 timer_message size) r.0 (ticks t count timer_res)
  t' ← add fuel r.0 (record t { office = record t.office { mem = m; pool = r.1 } })
  ok (r.0, stop_timer timer_message t')

unfoldable pub timer_running : (timer_message : Ptr) → CTimer → Run Bool
timer_running timer_message t = do
  throw_if (timer_message == null) 0x21000409
  ok (not (load_uint16 t.office.mem timer_message msg_code == discarded))

unfoldable pub is_empty : CTimer → Bool × CTimer
unfolding disable_timer enable_timer
is_empty t = let t' = disable_timer t in (t'.office.mem.next t'.head == null, enable_timer t')

-- The loop of the handler: the timers at the front with no ticks left go to their mailboxes.
unfoldable pub expire : (fuel : ℕ) → CTimer → Run CTimer
expire zero t = out_of_fuel
expire (suc fuel) t =
    let m = t.office.mem in
    let tmp = m.next t.head in
    elim (tmp == null) [
      | true ↦ fault
      | false ↦ elim (count m tmp == 0) [
        | false ↦ ok t
        | true ↦ do
          let office = record t.office { mem = link m t.head (m.next tmp) }
          office ← PostOffice.add (m.bytes tmp timer_mbx_id) tmp office
          let t' = record t { office = office }
          elim (office.mem.next t.head == null) [ true ↦ ok t' | false ↦ expire fuel t' ]
      ]
    ]

-- `TimerIntHandler`: one tick.
unfoldable pub timer_int_handler : (fuel : ℕ) → CTimer → Run CTimer
timer_int_handler fuel t =
    let t' = disable_timer t in
    let m = t'.office.mem in
    let tmp = m.next t'.head in
    elim (tmp == null) [
      | true ↦ ok (enable_timer t')
      | false ↦ do
        let m' = set_count m tmp ((count m tmp + 2 ^ 32 - 1) % 2 ^ 32)
        t'' ← expire fuel (record t' { office = record t'.office { mem = m' } })
        ok (enable_timer t'')
    ]
