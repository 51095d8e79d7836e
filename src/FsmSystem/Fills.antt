-- ===== src/FsmSystem/Fills.antt =====
-- The slots of a type are filled one after the other, and how they are taken back.
use publisher_subscriber_ser.Base.{
  ℕ, zero, suc, ◌+◌, ◌<◌, ◌≤◌, ◌≡◌, ◌≢◌, refl, ap, ◌∙◌, arith, thrown, ◌>>=◌, Build, debug, release,
  ne→==, eq→==, ◌==◌, lt→leb, lt→ltb, Bool-cases, inl, inr, ==→eq, ==→ne,
}
use publisher_subscriber_ser.Memory.{Ptr, null, update}
use publisher_subscriber_ser.FsmSystem.{
  FsmSystem, Automata, present, add_object, put_in_free, put_object, free_fsm, slots_of,
}

-- The type has `n` slots; the first `k` hold automata that know their number, the others are free.
pub record IsFilled (s : FsmSystem) (automate_type : ℕ) (slots : ℕ → Ptr) (k n : ℕ) : Type 0 where
  pub there : s.automates automate_type ≡ present slots
  pub objects : s.number_of_objects automate_type ≡ n
  pub type_inside : automate_type < s.number_of_automates
  pub types : s.number_of_automates ≤ 40
  pub some : 0 < n
  pub held : (i : ℕ) → i < k → slots i ≢ null
  pub numbered : (i : ℕ) → i < k → s.object_id (slots i) ≡ i
  pub free : (i : ℕ) → k ≤ i → i < n → slots i ≡ null

-- The system when an automaton stands in the slot `k`.
abbrev pub placed :
    FsmSystem → (automate_type : ℕ) → (ℕ → Ptr) → (k : ℕ) → (object : Ptr) → FsmSystem
placed s automate_type slots k object = record s {
  automates = update s.automates automate_type (present (update slots k object));
  object_id = update s.object_id object k;
  group = update s.group object s.server_id;
}

put_object-initialize :
    (code : Automata) (object : Ptr) (automate_type k : ℕ) (slots : ℕ → Ptr) (s : FsmSystem)
    → object ≢ null
    → put_object code object automate_type k slots s
      ≡ code.initialize object (placed s automate_type slots k object)
unfolding put_object
put_object-initialize code object automate_type k slots s ne =
    rw (put_object, ne→== object null ne, ◌>>=◌) refl

put_in_free-first :
    (rounds i k : ℕ) (code : Automata) (object : Ptr) (automate_type : ℕ) (slots : ℕ → Ptr)
    (s : FsmSystem)
    → ((j : ℕ) → i ≤ j → j < k → slots j ≢ null)
    → slots k ≡ null
    → i ≤ k
    → k < i + rounds
    → put_in_free rounds i code object automate_type slots s
      ≡ (put_object code object automate_type k slots s >>= free_fsm object automate_type)
unfolding put_in_free
put_in_free-first zero i k code object automate_type slots s held free le less =
    absurd (omega (arith, le, less))
put_in_free-first (suc rounds) i k code object automate_type slots s held free le less =
    elim (Bool-cases (i == k)) [
      | inl e ↦
          let same : i ≡ k = ==→eq i k e in
          rw (put_in_free, eq→== (slots i) null (ap slots same ∙ free))
            (ap
              (λ j.
                put_object code object automate_type j slots s >>= free_fsm object automate_type)
              same)
      | inr e ↦
          let other : i < k = omega (arith, ==→ne i k e, le) in
          rw (put_in_free, ne→== (slots i) null (held i (omega arith) other))
            (put_in_free-first rounds (i + 1) k code object automate_type slots s
              (λ j p q. held j (omega (arith, p)) q) free (omega (arith, other))
              (omega (arith, less)))
    ]

put_in_free-full :
    (rounds i : ℕ) (code : Automata) (object : Ptr) (automate_type : ℕ) (slots : ℕ → Ptr)
    (s : FsmSystem)
    → ((j : ℕ) → i ≤ j → j < i + rounds → slots j ≢ null)
    → put_in_free rounds i code object automate_type slots s ≡ thrown 0x01010200
unfolding put_in_free
put_in_free-full zero i code object automate_type slots s held = refl
put_in_free-full (suc rounds) i code object automate_type slots s held =
    rw (put_in_free, ne→== (slots i) null (held i (omega arith) (omega arith)))
      (put_in_free-full rounds (i + 1) code object automate_type slots s
        (λ j p q. held j (omega (arith, p)) (omega (arith, q))))

placed-IsFilled :
    (object : Ptr) (automate_type : ℕ) (slots : ℕ → Ptr) (k n : ℕ) (s : FsmSystem)
    → IsFilled s automate_type slots k n
    → object ≢ null
    → ((i : ℕ) → i < k → slots i ≢ object)
    → IsFilled
        (placed s automate_type slots k object)
        automate_type
        (update slots k object)
        (k + 1)
        n
unfolding update
placed-IsFilled object automate_type slots k n s is ne other = record {
  there = ground arith;
  objects = is.objects;
  type_inside = is.type_inside;
  types = is.types;
  some = is.some;
  held = λ i less. elim (Bool-cases (i == k)) [
    | inl e ↦ rw e ne
    | inr e ↦ rw e (is.held i (omega (arith, less, ==→ne i k e)))
  ];
  numbered = λ i less. elim (Bool-cases (i == k)) [
    | inl e ↦ let same = ==→eq i k e in ground arith
    | inr e ↦
        let below : i < k = omega (arith, less, ==→ne i k e) in
        let apart = other i below in let old = is.numbered i below in ground arith
  ];
  free = λ i above less.
      let old = is.free i (omega (arith, above)) less in
      let apart : i ≢ k = omega (arith, above) in ground arith;
}

-- The checks of `Add` are met.
add_object-slots :
    (b : Build) (code : Automata) (object : Ptr) (automate_type : ℕ) (slots : ℕ → Ptr) (k n : ℕ)
    (s : FsmSystem)
    → IsFilled s automate_type slots k n
    → add_object b code object automate_type s ≡ put_in_free n 0 code object automate_type slots s
unfolding add_object slots_of
add_object-slots debug code object automate_type slots k n s is =
    let inside = lt→leb s.number_of_automates automate_type is.type_inside in
    let array = lt→ltb automate_type 40 (omega (arith, is.type_inside, is.types)) in
    let some_objects = ne→== n 0 (omega (arith, is.some)) in
    rw (add_object, inside, array, is.there, is.objects, some_objects) refl
add_object-slots release code object automate_type slots k n s is =
    let array = lt→ltb automate_type 40 (omega (arith, is.type_inside, is.types)) in
    let some_objects = ne→== n 0 (omega (arith, is.some)) in
    rw (add_object, array, is.objects, some_objects, is.there) refl

-- Where `k` of the `n` slots of a type are filled: the next automaton goes to the slot `k`, gets its
-- number and its group and is initialised, and joins the free ones if the type keeps them, so that
-- `k + 1` slots are filled; where all are filled the call is refused.
pub add_object_lem :
    (b : Build) (code : Automata) (object : Ptr) (automate_type : ℕ) (slots : ℕ → Ptr) (k n : ℕ)
    (s : FsmSystem)
    → IsFilled s automate_type slots k n
    → object ≢ null
    → ((i : ℕ) → i < k → slots i ≢ object)
    → (k < n
        → (add_object b code object automate_type s ≡ (
            code.initialize object (placed s automate_type slots k object)
            >>= free_fsm object automate_type))
          × IsFilled
              (placed s automate_type slots k object)
              automate_type
              (update slots k object)
              (k + 1)
              n)
      × (n ≤ k → add_object b code object automate_type s ≡ thrown 0x01010200)
add_object_lem b code object automate_type slots k n s is ne other = (
  λ less. (
    add_object-slots b code object automate_type slots k n s is
        ∙ put_in_free-first n 0 k code object automate_type slots s (λ j p q. is.held j q)
            (is.free k (omega arith) less) (omega arith) (omega (arith, less))
        ∙ ap (λ r. r >>= free_fsm object automate_type)
            (put_object-initialize code object automate_type k slots s ne),
    placed-IsFilled object automate_type slots k n s is ne other,
  ),
  λ full.
      add_object-slots b code object automate_type slots k n s is
      ∙ put_in_free-full n 0 code object automate_type slots s
          (λ j p q. is.held j (omega (arith, q, full))),
)
