-- ===== src/Fsm.antt =====
-- The table of event procedures of FiniteStateMachine (`Kernel/fsm.cpp`, `Kernel/fsm.h`), over the
-- procedures `P` of a machine. `States` and each state's `PBranch` are arrays of the sizes given to
-- the constructor, and an access beyond them is a `fault`.
pub mod Table
use publisher_subscriber_ser.Base.{
  ℕ, Bool, true, false, not, Option, none, some, List, [], ◌∷◌, ◌++◌, ◌==◌, ◌||◌, ltb,
  if◌then◌else◌, length, Run, ok, ◌>>=◌, ◌>>◌, throw_if, in_bounds, Build, assert_in,
}
use publisher_subscriber_ser.Memory.{update}

pub record SBranch (P : Type 0) : Type 0 where
  pub event_code : ℕ
  pub proc : P

-- `none` is a null procedure pointer.
pub record SState (P : Type 0) : Type 0 where
  pub state_valid : Bool
  pub branches : List (SBranch P)
  pub unexpected : Option P

pub record FsmTable (P : Type 0) : Type 0 where
  pub num_of_states : ℕ
  pub max_num_of_proc_per_state : ℕ
  pub states : ℕ → SState P

module _ {P : Type 0} where
  -- The constructor of the machine, with its check of the sizes and a fresh SState for each state.
  unfoldable pub create : (num_of_states max_num_of_proc_per_state : ℕ) → Run (FsmTable P)
  create num_of_states max_num_of_proc_per_state = do
    throw_if (num_of_states == 0) 0x01010200
    throw_if (max_num_of_proc_per_state == 0) 0x01010200
    ok (record {
      num_of_states = num_of_states;
      max_num_of_proc_per_state = max_num_of_proc_per_state;
      states = λ _. record { state_valid = false; branches = []; unexpected = none };
    })

  unfoldable pub find : ℕ → List (SBranch P) → Option P
  find event [] = none
  find event (b ∷ bs) = if b.event_code == event then some b.proc else find event bs

  -- Whether some branch has the event code.
  unfoldable pub used : ℕ → List (SBranch P) → Bool
  used event [] = false
  used event (b ∷ bs) = (b.event_code == event) || used event bs

  -- After the first procedure the state is valid, and unexpected events do nothing.
  unfoldable pub validate : P → SState P → SState P
  validate do_nothing s =
      if s.state_valid then s else record s { state_valid = true; unexpected = some do_nothing }

  unfoldable pub init_event_proc :
      (do_nothing : P) (t : FsmTable P) (state event : ℕ) (proc : P) → Run (FsmTable P)
  unfolding update validate used
  init_event_proc do_nothing t state event proc = do
    in_bounds (ltb state t.num_of_states)
    let s = validate do_nothing (t.states state)
    throw_if (used event s.branches) 0x01010200
    in_bounds (ltb (length s.branches) t.max_num_of_proc_per_state)
    let s' = record s { branches = s.branches ++ record { event_code = event; proc = proc } ∷ [] }
    throw_if (ltb t.max_num_of_proc_per_state (length s'.branches)) 0x01010200
    ok (record t { states = update t.states state s' })

  unfoldable pub init_unexpected_event_proc :
      (t : FsmTable P) (state : ℕ) (proc : P) → Run (FsmTable P)
  unfolding update
  init_unexpected_event_proc t state proc = do
    in_bounds (ltb state t.num_of_states)
    throw_if (not (t.states state).state_valid) 0x01010200
    ok (record t {
      states = update t.states state (record (t.states state) { unexpected = some proc });
    })

  unfoldable pub get_procedure : Build → FsmTable P → (state event : ℕ) → Run (Option P)
  unfolding find
  get_procedure b t state event = do
    in_bounds (ltb state t.num_of_states)
    let s = t.states state
    assert_in b s.state_valid
    ok (elim (find event s.branches) [ some p ↦ some p | none ↦ s.unexpected ])
