-- ===== src/FsmTimers/Reset.antt =====
-- After `Reset` no timer of the automaton runs.
use publisher_subscriber_ser.Base.{
  ℕ, zero, suc, ◌+◌, ◌<◌, ◌≡◌, ◌≢◌, inl, inr, refl, sym, ◌∙◌, arith, false, Run, ok, ◌>>=◌, Build,
  ◌==◌, ==→eq, ==→ne, Bool-cases,
}
use mathlib.Core.Path.{subst}
use publisher_subscriber_ser.Memory.{Ptr, null, update, store_uint16, load_uint16}
use publisher_subscriber_ser.Memory.Bytes.{get_uint16-set_uint16}
use publisher_subscriber_ser.MailBox.{discarded, msg_code}
use publisher_subscriber_ser.Timer
use publisher_subscriber_ser.Timer.{CTimer, timer_running}
use publisher_subscriber_ser.FsmTimers.{
  FiniteStateMachine, stopped, is_timer_running, reset_from, reset,
}
use publisher_subscriber_ser.FsmTimers.Running.{
  code_of, Silent, AllValid, is_timer_running-silent, is_timer_running-running, stop_timer-stopped,
}

-- What is discarded stays discarded when a timer is stopped.
stop_timer-discarded :
    (p q : Ptr) (t : CTimer)
    → load_uint16 t.office.mem q msg_code ≡ discarded
    → load_uint16 (Timer.stop_timer p t).office.mem q msg_code ≡ discarded
unfolding Timer.stop_timer store_uint16 update
stop_timer-discarded p q t over = elim (Bool-cases (p == null)) [
  | inl e ↦ rw e over
  | inr e ↦ elim (Bool-cases (q == p)) [
    | inl f ↦ rw (e, f) (get_uint16-set_uint16 (t.office.mem.bytes p) 4 discarded)
    | inr f ↦ rw (e, f) over
  ]
]

-- The program ends, no timer of the automaton runs, and its timers stay set up.
pub record Resets (run : Run FiniteStateMachine) (b : Build) (f : FiniteStateMachine) (state : ℕ)
    : Type 0 where
  pub machine : FiniteStateMachine
  pub returns : run ≡ ok machine
  pub timers : machine.num_of_timers ≡ f.num_of_timers
  pub state_set : machine.state ≡ state
  pub valid : AllValid machine
  pub quiet : (i : ℕ) → i < f.num_of_timers → is_timer_running b i machine ≡ ok false

stopped-Silent :
    (i : ℕ) (f : FiniteStateMachine) (j : ℕ) → (j ≢ i → Silent f j) → Silent (stopped i f) j
unfolding update
stopped-Silent i f j h = elim (Bool-cases (j == i)) [
  | inl e ↦ rw e (inl refl)
  | inr e ↦ rw e (elim (h (==→ne j i e)) [
    | inl none ↦ inl none
    | inr over ↦ inr (
        stop_timer-discarded (f.timer_store i).timer_buffer (f.timer_store j).timer_buffer
          f.api.timer over)
  ])
]

stopped-AllValid : (i : ℕ) (f : FiniteStateMachine) → AllValid f → AllValid (stopped i f)
unfolding update
stopped-AllValid i f valid j less = elim (Bool-cases (j == i)) [
  | inl e ↦ let same = ==→eq j i e in let old = valid j less in ground arith
  | inr e ↦ rw e (valid j less)
]

round-silent :
    (rounds i : ℕ) (b : Build) (f : FiniteStateMachine)
    → i < f.num_of_timers
    → AllValid f
    → Silent f i
    → reset_from (suc rounds) i b f ≡ reset_from rounds (i + 1) b f
unfolding reset_from
round-silent rounds i b f less valid silent =
    rw (reset_from, is_timer_running-silent b i f less (valid i less) silent, ◌>>=◌) refl

round-running :
    (rounds i : ℕ) (b : Build) (f : FiniteStateMachine)
    → i < f.num_of_timers
    → AllValid f
    → (f.timer_store i).timer_buffer ≢ null
    → code_of f (f.timer_store i).timer_buffer ≢ discarded
    → reset_from (suc rounds) i b f ≡ reset_from rounds (i + 1) b (stopped i f)
unfolding reset_from
round-running rounds i b f less valid there ne =
    rw
      (
        reset_from,
        is_timer_running-running b i f less (valid i less) there ne,
        ◌>>=◌,
        stop_timer-stopped b i f less (valid i less) there,
        ◌>>=◌,
      )
      refl

returns-Resets :
    {run run' : Run FiniteStateMachine} {b : Build} {f : FiniteStateMachine} {state : ℕ}
    → run' ≡ run
    → Resets run b f state
    → Resets run' b f state
returns-Resets {b} {f} {state} e h = subst (λ r. Resets r b f state) (sym e) h

stopped-Resets :
    (i : ℕ) (f : FiniteStateMachine) {run run' : Run FiniteStateMachine} {b : Build} {state : ℕ}
    → run' ≡ run
    → Resets run b (stopped i f) state
    → Resets run' b f state
stopped-Resets i f e h = record {
  machine = h.machine;
  returns = e ∙ h.returns;
  timers = h.timers;
  state_set = h.state_set;
  valid = h.valid;
  quiet = h.quiet;
}

before :
    (f : FiniteStateMachine) (i j : ℕ)
    → ((j : ℕ) → j < i → Silent f j)
    → Silent f i
    → j < i + 1
    → Silent f j
before f i j silent here below = elim (Bool-cases (j == i)) [
  | inl e ↦ subst (Silent f) (sym (==→eq j i e)) here
  | inr e ↦ silent j (omega (arith, below, ==→ne j i e))
]

reset_from-Resets :
    (rounds i : ℕ) (b : Build) (f : FiniteStateMachine)
    → i + rounds ≡ f.num_of_timers
    → AllValid f
    → ((j : ℕ) → j < i → Silent f j)
    → Resets (reset_from rounds i b f) b f f.state
unfolding reset_from
reset_from-Resets zero i b f all valid silent = record {
  machine = f;
  returns = refl;
  timers = refl;
  state_set = refl;
  valid = valid;
  quiet = λ j less.
      is_timer_running-silent b j f less (valid j less) (silent j (omega (arith, all, less)));
}
reset_from-Resets (suc rounds) i b f all valid silent =
    let less : i < f.num_of_timers = omega (arith, all) in
    let quiet_round : Silent f i → Resets (reset_from (suc rounds) i b f) b f f.state = λ here.
      returns-Resets (round-silent rounds i b f less valid here) (
        reset_from-Resets rounds (i + 1) b f (omega (arith, all)) valid
          (λ j below. before f i j silent here below)) in
    elim (Bool-cases ((f.timer_store i).timer_buffer == null)) [
      | inl e ↦ quiet_round (inl (==→eq (f.timer_store i).timer_buffer null e))
      | inr e ↦ elim (Bool-cases (code_of f (f.timer_store i).timer_buffer == discarded)) [
        | inl d ↦ quiet_round (inr (==→eq (code_of f (f.timer_store i).timer_buffer) discarded d))
        | inr d ↦
            stopped-Resets i f
              (round-running rounds i b f less valid (==→ne (f.timer_store i).timer_buffer null e)
                (==→ne (code_of f (f.timer_store i).timer_buffer) discarded d))
              (reset_from-Resets rounds (i + 1) b (stopped i f) (omega (arith, all))
                (stopped-AllValid i f valid)
                (λ j below. stopped-Silent i f j (λ ne. silent j (omega (arith, below, ne)))))
      ]
    ]

-- `Reset` with timers that are all set up: it ends in the initial state, with no timer running and
-- all still set up.
pub reset_lem :
    (initial_state : ℕ) (b : Build) (f : FiniteStateMachine)
    → AllValid f
    → Resets (reset initial_state b f) b f initial_state
unfolding reset
reset_lem initial_state b f valid =
    let h =
      reset_from-Resets f.num_of_timers 0 b (record f { state = initial_state }) (omega arith) valid
        (λ j less. absurd (omega (arith, less))) in
    record {
      machine = h.machine;
      returns = h.returns;
      timers = h.timers;
      state_set = h.state_set;
      valid = h.valid;
      quiet = h.quiet;
    }
