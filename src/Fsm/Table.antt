-- ===== src/Fsm/Table.antt =====
-- An event procedure that has been bound is the one dispatched to, and no other binding changes.
use publisher_subscriber_ser.Base.{
  ℕ, ◌<◌, ◌≡◌, ◌≢◌, ◌⊎◌, true, false, Option, some, List, [], ◌∷◌, ◌++◌, arith, length, ok, Build,
  length-append,
}
use publisher_subscriber_ser.Memory.{update}
use publisher_subscriber_ser.Fsm.{
  SBranch, SState, FsmTable, find, used, validate, init_event_proc, get_procedure,
}

module _ {P : Type 0} where
  find-append_self :
      (event : ℕ) (p : P) (bs : List (SBranch P))
      → used event bs ≡ false
      → find event (bs ++ record { event_code = event; proc = p } ∷ []) ≡ some p
  unfolding find used
  find-append_self event p [] h = ground arith
  find-append_self event p (b ∷ bs) h = ground (arith, find-append_self event p bs)

  find-append_ne :
      (event other : ℕ) (p : P) (bs : List (SBranch P))
      → event ≢ other
      → find other (bs ++ record { event_code = event; proc = p } ∷ []) ≡ find other bs
  unfolding find
  find-append_ne event other p [] h = ground arith
  find-append_ne event other p (b ∷ bs) h = ground (arith, find-append_ne event other p bs h)

  -- What the bindings of a table say of a state and an event, `none` for none.
  unfoldable pub bound : FsmTable P → ℕ → ℕ → Option P
  unfolding find
  bound t state event = find event (t.states state).branches

  branches-validate : (d : P) (s : SState P) → (validate d s).branches ≡ s.branches
  unfolding validate
  branches-validate d s = ground arith

  valid-validate : (d : P) (s : SState P) → (validate d s).state_valid ≡ true
  unfolding validate
  valid-validate d s = ground arith

  -- `InitEventProc` of an event not yet bound in a state with room: it succeeds, the event is
  -- dispatched to the new procedure, and every other event of every state is bound as before.
  pub init_event_proc_lem :
      (b : Build) (do_nothing : P) (t : FsmTable P) (state event : ℕ) (proc : P)
      → state < t.num_of_states
      → used event (t.states state).branches ≡ false
      → length (t.states state).branches < t.max_num_of_proc_per_state
      → (t' : FsmTable P) × (init_event_proc do_nothing t state event proc ≡ ok t')
        × (get_procedure b t' state event ≡ ok (some proc))
        × ((s e : ℕ) → (s ≢ state) ⊎ (e ≢ event) → bound t' s e ≡ bound t s e)
  unfolding init_event_proc get_procedure bound
  init_event_proc_lem b do_nothing t state event proc inside new room =
      let s = validate do_nothing (t.states state) in
      let same : s.branches ≡ (t.states state).branches =
        branches-validate do_nothing (t.states state) in
      let new' : used event s.branches ≡ false = rw same new in
      let s' : SState P = record s {
        branches = s.branches ++ record { event_code = event; proc = proc } ∷ [];
      } in
      let longer = length-append s.branches (record { event_code = event; proc = proc } ∷ []) in
      let valid = valid-validate do_nothing (t.states state) in
      let self = find-append_self event proc s.branches new' in
      (
        record t { states = update t.states state s' },
        ground arith,
        ground arith,
        λ q e other. ground (arith, find-append_ne event e proc s.branches),
      )
