-- ===== src/FsmTimers/Running.antt =====
-- When a timer of an automaton runs, and what stopping it leaves.
use publisher_subscriber_ser.Base.{
  ℕ, ◌<◌, ◌≡◌, ◌≢◌, ◌⊎◌, inl, inr, refl, arith, true, false, ok, ◌>>=◌, Build, debug, release, ◌==◌,
  ne→==, eq→==, Bool-cases, lt→ltb, le→ltb,
}
use publisher_subscriber_ser.Memory.{Ptr, null, load_uint16}
use publisher_subscriber_ser.MailBox.{discarded, msg_code}
use publisher_subscriber_ser.Timer.{timer_running}
use publisher_subscriber_ser.FsmTimers.{
  FiniteStateMachine, block_at, stopped, stop_timer, is_timer_running,
}

-- The message code of a timer's buffer.
abbrev pub code_of : FiniteStateMachine → Ptr → ℕ
code_of f p = load_uint16 f.api.timer.office.mem p msg_code

-- The timer has no buffer, or one that is discarded.
abbrev pub Silent : FiniteStateMachine → ℕ → Type 0
Silent f i =
    ((f.timer_store i).timer_buffer ≡ null) ⊎ (code_of f (f.timer_store i).timer_buffer ≡ discarded)

-- The timers of the automaton are set up.
abbrev pub AllValid : FiniteStateMachine → Type 0
AllValid f = (i : ℕ) → i < f.num_of_timers → (f.timer_store i).valid ≡ true

block_at-there :
    (b : Build) (i : ℕ) (f : FiniteStateMachine)
    → i < f.num_of_timers
    → (f.timer_store i).valid ≡ true
    → block_at b i f ≡ ok (f.timer_store i)
unfolding block_at
block_at-there debug i f less valid =
    rw
      (
        block_at,
        le→ltb f.num_of_timers i (omega (arith, less)),
        lt→ltb i f.num_of_timers less,
        ◌>>=◌,
        valid,
      )
      refl
block_at-there release i f less valid = rw (block_at, lt→ltb i f.num_of_timers less) refl

-- A silent timer does not run, and any other does.
pub is_timer_running-silent :
    (b : Build) (i : ℕ) (f : FiniteStateMachine)
    → i < f.num_of_timers
    → (f.timer_store i).valid ≡ true
    → Silent f i
    → is_timer_running b i f ≡ ok false
unfolding is_timer_running timer_running
is_timer_running-silent b i f less valid (inl none) =
    rw
      (
        is_timer_running,
        block_at-there b i f less valid,
        ◌>>=◌,
        eq→== (f.timer_store i).timer_buffer null none,
      )
      refl
is_timer_running-silent b i f less valid (inr over) =
    elim (Bool-cases ((f.timer_store i).timer_buffer == null)) [
      | inl e ↦ rw (is_timer_running, block_at-there b i f less valid, ◌>>=◌, e) refl
      | inr e ↦
          rw
            (
              is_timer_running,
              block_at-there b i f less valid,
              ◌>>=◌,
              e,
              timer_running,
              ◌>>=◌,
              eq→== (code_of f (f.timer_store i).timer_buffer) discarded over,
            )
            refl
    ]

pub is_timer_running-running :
    (b : Build) (i : ℕ) (f : FiniteStateMachine)
    → i < f.num_of_timers
    → (f.timer_store i).valid ≡ true
    → (f.timer_store i).timer_buffer ≢ null
    → code_of f (f.timer_store i).timer_buffer ≢ discarded
    → is_timer_running b i f ≡ ok true
unfolding is_timer_running timer_running
is_timer_running-running b i f less valid there ne =
    rw
      (
        is_timer_running,
        block_at-there b i f less valid,
        ◌>>=◌,
        ne→== (f.timer_store i).timer_buffer null there,
        timer_running,
        ◌>>=◌,
        ne→== (code_of f (f.timer_store i).timer_buffer) discarded ne,
      )
      refl

pub stop_timer-stopped :
    (b : Build) (i : ℕ) (f : FiniteStateMachine)
    → i < f.num_of_timers
    → (f.timer_store i).valid ≡ true
    → (f.timer_store i).timer_buffer ≢ null
    → stop_timer b i f ≡ ok (stopped i f)
unfolding stop_timer
stop_timer-stopped b i f less valid there =
    rw
      (
        stop_timer,
        block_at-there b i f less valid,
        ◌>>=◌,
        ne→== (f.timer_store i).timer_buffer null there,
      )
      refl
