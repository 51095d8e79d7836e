-- ===== src/FsmSystem/Removes.antt =====
-- What `Remove` does, in a build that checks assertions and in one that does not.
use publisher_subscriber_ser.Base.{
  ℕ, ◌-◌, ◌≡◌, ap, sym, ◌∙◌, ◌==◌, ltb, not, in_bounds, ◌>>=◌, ◌>>◌, Bool-cases, inl, inr, ◌≢◌,
  refl, ok, aborted, fault, Bool, arith, Build, debug, release, ne→==, eq→==, lt→leb, le→leb,
  lt→ltb,
}
use publisher_subscriber_ser.Memory.{Ptr, null, update}
use publisher_subscriber_ser.FsmSystem.{
  FsmSystem, Automata, Slots, absent, present, deleted, remove_type, add_type, slots_of, put_object,
  free_fsm, clear_slots,
}
use publisher_subscriber_ser.FsmSystem.Fills.{IsFilled}

-- The system when the automata of a type are removed.
abbrev removed : FsmSystem → (automate_type : ℕ) → FsmSystem
removed s automate_type = record s {
  automates = update s.automates automate_type deleted;
  number_of_objects = update s.number_of_objects automate_type 0;
}

remove_type-removed :
    (b : Build) (automate_type : ℕ) (slots : ℕ → Ptr) (k n : ℕ) (s : FsmSystem)
    → IsFilled s automate_type slots k n
    → remove_type b automate_type s ≡ ok (removed s automate_type)
unfolding remove_type slots_of
remove_type-removed debug automate_type slots k n s is =
    rw
      (
        remove_type,
        le→leb automate_type s.number_of_automates (omega (arith, is.type_inside)),
        lt→ltb automate_type 40 (omega (arith, is.type_inside, is.types)),
        is.there,
        is.objects,
        ne→== n 0 (omega (arith, is.some)),
        is.there,
      )
      refl
remove_type-removed release automate_type slots k n s is =
    rw
      (
        remove_type,
        lt→ltb automate_type 40 (omega (arith, is.type_inside, is.types)),
        is.there,
        is.there,
      )
      refl

-- The system as if the type had never been used.
abbrev pub unused : FsmSystem → (automate_type : ℕ) → FsmSystem
unused s automate_type = record s {
  automates = update s.automates automate_type absent;
  number_of_objects = update s.number_of_objects automate_type 0;
}

update-update :
    {A : Type 0} (f : ℕ → A) (p : ℕ) (v w : A) → update (update f p v) p w ≡ update f p w
unfolding update
update-update f p v w i a = at a i
  where
    at : (a : ℕ) → update (update f p v) p w a ≡ update f p w a
    at a = elim (Bool-cases (a == p)) [ inl e ↦ rw e refl | inr e ↦ rw e refl ]

put_object-update :
    (code : Automata) (object : Ptr) (automate_type i : ℕ) (slots : ℕ → Ptr) (s : FsmSystem)
    (v : Slots)
    → put_object code object automate_type i slots
        (record s { automates = update s.automates automate_type v })
      ≡ put_object code object automate_type i slots s
unfolding put_object
put_object-update code object automate_type i slots s v =
    ap
      (λ automates.
        in_bounds (not (object == null))
        >> code.initialize object (record s {
          automates = automates;
          object_id = update s.object_id object i;
          group = update s.group object s.server_id;
        }))
      (update-update s.automates automate_type v (present (update slots i object)))

-- Without assertions, what the array held before does not matter to `Add`.
add_type-again :
    (code : Automata) (heap : ℕ → Ptr) (object : Ptr) (automate_type m : ℕ) (use_free_list : Bool)
    (s : FsmSystem)
    → add_type release code heap object automate_type m use_free_list (removed s automate_type)
      ≡ add_type release code heap object automate_type m use_free_list (unused s automate_type)
unfolding add_type
add_type-again code heap object automate_type m use_free_list s =
    let base : FsmSystem = record s {
      number_of_objects = update (update s.number_of_objects automate_type 0) automate_type m;
    } in
    ap
      (λ placed. do
        in_bounds (ltb automate_type 40)
        in_bounds (not (m == 0))
        s ← placed
        s ← free_fsm object automate_type (record s {
          use_free_automate_list = update s.use_free_automate_list automate_type use_free_list;
        })
        slots ← slots_of (s.automates automate_type)
        ok (record s {
          automates =
              update s.automates automate_type
                (present (clear_slots (s.number_of_objects automate_type - 1) 1 slots));
        }))
      (put_object-update code object automate_type 0 heap base deleted
        ∙ sym (put_object-update code object automate_type 0 heap base absent))

-- The automata of a type are removed together, in every build. Where assertions are checked, the
-- type cannot be used again: to add to it aborts, and so does a second removal. Without them, it is
-- added like a type that was never used, and a second removal is a fault.
pub remove_type_lem :
    (code : Automata) (heap : ℕ → Ptr) (object : Ptr) (automate_type m : ℕ) (use_free_list : Bool)
    (slots : ℕ → Ptr) (k n : ℕ) (s : FsmSystem)
    → IsFilled s automate_type slots k n
    → m ≢ 0
    → ((b : Build) → remove_type b automate_type s ≡ ok (removed s automate_type))
      × (add_type debug code heap object automate_type m use_free_list (removed s automate_type)
          ≡ aborted)
      × (add_type release code heap object automate_type m use_free_list (removed s automate_type)
          ≡ add_type release code heap object automate_type m use_free_list
              (unused s automate_type))
      × (remove_type debug automate_type (removed s automate_type) ≡ aborted)
      × (remove_type release automate_type (removed s automate_type) ≡ fault)
unfolding remove_type add_type slots_of update
remove_type_lem code heap object automate_type m use_free_list slots k n s is ne =
    let below = le→leb automate_type s.number_of_automates (omega (arith, is.type_inside)) in
    let inside = lt→leb s.number_of_automates automate_type is.type_inside in
    let array = lt→ltb automate_type 40 (omega (arith, is.type_inside, is.types)) in
    let itself = eq→== automate_type automate_type refl in
    (
      λ b. remove_type-removed b automate_type slots k n s is,
      rw (add_type, ne→== m 0 ne, inside, array, itself) refl,
      add_type-again code heap object automate_type m use_free_list s,
      rw (remove_type, below, array, itself, itself) refl,
      rw (remove_type, array, itself, itself) refl,
    )
