-- ===== src/FsmTimers.antt =====
-- The timers of FiniteStateMachine (`Kernel/fsm.cpp`, `TimerBlock` of `Kernel/fsm.h`): each automaton keeps its
-- own by their numbers, over `KernelAPI`. The log is left out.
pub mod Running
pub mod Reset
use publisher_subscriber_ser.Base.{
  ℕ, zero, suc, ◌+◌, Bool, true, false, not, ◌==◌, ltb, leb, if◌then◌else◌, Run, ok, ◌>>=◌, ◌>>◌,
  throw_if, assert_in, in_bounds, Build,
}
use publisher_subscriber_ser.Memory.{Ptr, null, update}
use publisher_subscriber_ser.Timer
use publisher_subscriber_ser.Timer.{timer_running}
use publisher_subscriber_ser.KernelApi
use publisher_subscriber_ser.KernelApi.{KernelApi}

pub record TimerBlock : Type 0 where
  pub count : ℕ
  pub signal_id : ℕ
  pub valid : Bool
  pub timer_buffer : Ptr

pub record FiniteStateMachine : Type 0 where
  pub api : KernelApi
  pub num_of_timers : ℕ
  pub timer_store : ℕ → TimerBlock
  pub state : ℕ

abbrev pub put_timer : FiniteStateMachine → ℕ → TimerBlock → FiniteStateMachine
put_timer f tmr_id t = record f { timer_store = update f.timer_store tmr_id t }

-- The check of a timer's number: `tmrId > NumOfTimers` lets the number of timers itself through,
-- which is an access behind the array.
unfoldable pub block_at : Build → (tmr_id : ℕ) → FiniteStateMachine → Run TimerBlock
block_at b tmr_id f = do
  assert_in b (not (ltb f.num_of_timers tmr_id))
  in_bounds (ltb tmr_id f.num_of_timers)
  assert_in b (f.timer_store tmr_id).valid
  ok (f.timer_store tmr_id)

unfoldable pub init_timer_block :
    (tmr_id count signal_id : ℕ) → FiniteStateMachine → Run FiniteStateMachine
init_timer_block tmr_id count signal_id f = do
  throw_if (ltb f.num_of_timers tmr_id) 0x01010200
  in_bounds (ltb tmr_id f.num_of_timers)
  ok (
      put_timer f tmr_id
        (record { count = count; signal_id = signal_id; valid = true; timer_buffer = null }))

unfoldable pub start_timer :
    (fuel : ℕ) → Build → (tmr_id : ℕ) → FiniteStateMachine → Run FiniteStateMachine
start_timer fuel b tmr_id f = do
  t ← block_at b tmr_id f
  assert_in b (t.timer_buffer == null)
  r ← KernelApi.start_timer fuel b t.signal_id t.count f.api
  ok (put_timer (record f { api = r.1 }) tmr_id (record t { timer_buffer = r.0 }))

-- The timer's buffer is discarded and forgotten.
abbrev pub stopped : (tmr_id : ℕ) → FiniteStateMachine → FiniteStateMachine
stopped tmr_id f =
    let t = f.timer_store tmr_id in
    put_timer
      (record f { api = record f.api { timer = Timer.stop_timer t.timer_buffer f.api.timer } })
      tmr_id (record t { timer_buffer = null })

unfoldable pub stop_timer : Build → (tmr_id : ℕ) → FiniteStateMachine → Run FiniteStateMachine
stop_timer b tmr_id f = do
  t ← block_at b tmr_id f
  if t.timer_buffer == null then ok f else ok (stopped tmr_id f)

unfoldable pub reset_timer : (tmr_id : ℕ) → FiniteStateMachine → Run FiniteStateMachine
reset_timer tmr_id f = do
  in_bounds (ltb tmr_id f.num_of_timers)
  ok (put_timer f tmr_id (record (f.timer_store tmr_id) { timer_buffer = null }))

unfoldable pub is_timer_running : Build → (tmr_id : ℕ) → FiniteStateMachine → Run Bool
is_timer_running b tmr_id f = do
  t ← block_at b tmr_id f
  if t.timer_buffer == null then ok false else timer_running t.timer_buffer f.api.timer

unfoldable pub set_timer_count :
    Build → (tmr_id count : ℕ) → FiniteStateMachine → Run FiniteStateMachine
set_timer_count b tmr_id count f = do
  t ← block_at b tmr_id f
  ok (put_timer f tmr_id (record t { count = count }))

-- The loop of `Reset` from the timer `i` on.
unfoldable pub reset_from : (rounds i : ℕ) → Build → FiniteStateMachine → Run FiniteStateMachine
reset_from zero i b f = ok f
reset_from (suc rounds) i b f = do
  running ← is_timer_running b i f
  f' ← if running then stop_timer b i f else ok f
  reset_from rounds (i + 1) b f'

unfoldable pub reset : (initial_state : ℕ) → Build → FiniteStateMachine → Run FiniteStateMachine
reset initial_state b f = reset_from f.num_of_timers 0 b (record f { state = initial_state })

-- The destructor's loop: the timers that are set up and have a buffer are stopped.
unfoldable pub destroy_from : (rounds i : ℕ) → FiniteStateMachine → FiniteStateMachine
destroy_from zero i f = f
destroy_from (suc rounds) i f = destroy_from rounds (i + 1) (
    if not (f.timer_store i).valid
    then f
    else if (f.timer_store i).timer_buffer == null
    then f
    else stopped i f)

unfoldable pub destroy : FiniteStateMachine → FiniteStateMachine
destroy f = destroy_from f.num_of_timers 0 f
