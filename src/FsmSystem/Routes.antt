-- ===== src/FsmSystem/Routes.antt =====
-- Which automaton a message goes to.
use publisher_subscriber_ser.Base.{
  ℕ, ◌<◌, ◌≤◌, ◌≡◌, ◌≢◌, refl, ◌∙◌, List, [], ◌∷◌, ok, thrown, fault, arith, ◌>>=◌, Build, ne→==,
  eq→==, ◌==◌, true, false, lt→ltb, le→ltb,
}
use publisher_subscriber_ser.Memory.{Ptr, null, update, load_uint32}
use publisher_subscriber_ser.Line.{Links}
use publisher_subscriber_ser.FsmSystem.{
  FsmSystem, Automata, FsmList, msg_to_automate, msg_object_id_to, invalid_32, get_free, slots_of,
}
use publisher_subscriber_ser.FsmSystem.Start.{discard_msg, object_at, to_free, to_object, dispatch}
use publisher_subscriber_ser.FsmSystem.Lists.{IsFreeList, get_free_lem}
use publisher_subscriber_ser.FsmSystem.Fills.{IsFilled}

-- The type and the number of the automaton that a message is for.
abbrev pub to_type : FsmSystem → Ptr → ℕ
to_type s msg = s.office.mem.bytes msg msg_to_automate

abbrev pub to_number : FsmSystem → Ptr → ℕ
to_number s msg = load_uint32 s.office.mem msg msg_object_id_to

-- The system when the first free automaton of a type is taken.
abbrev with_free : FsmSystem → (automate_type : ℕ) → Links → FsmList → FsmSystem
with_free s automate_type n q = record s {
  next = n;
  free_automates = update s.free_automates automate_type q;
}

dispatch-type :
    (b : Build) (code : Automata) (msg : Ptr) (slots : ℕ → Ptr) (k n : ℕ) (s : FsmSystem)
    → IsFilled s (to_type s msg) slots k n
    → dispatch b code msg s ≡ (elim (to_number s msg == invalid_32) [
      | true ↦ to_free code msg (to_type s msg) s
      | false ↦ to_object b code msg (to_type s msg) (to_number s msg) s
    ])
unfolding dispatch
dispatch-type b code msg slots k n s is =
    rw
      (
        dispatch,
        le→ltb s.number_of_automates (to_type s msg) (omega (arith, is.type_inside)),
        lt→ltb (to_type s msg) 40 (omega (arith, is.type_inside, is.types)),
        ◌>>=◌,
        is.objects,
        ne→== n 0 (omega (arith, is.some)),
      )
      refl

dispatch-free :
    (b : Build) (code : Automata) (msg : Ptr) (slots : ℕ → Ptr) (k n : ℕ) (s : FsmSystem)
    → IsFilled s (to_type s msg) slots k n
    → to_number s msg ≡ invalid_32
    → dispatch b code msg s ≡ to_free code msg (to_type s msg) s
dispatch-free b code msg slots k n s is e =
    dispatch-type b code msg slots k n s is ∙ rw (eq→== (to_number s msg) invalid_32 e) refl

dispatch-object :
    (b : Build) (code : Automata) (msg : Ptr) (slots : ℕ → Ptr) (k n : ℕ) (s : FsmSystem)
    → IsFilled s (to_type s msg) slots k n
    → to_number s msg ≢ invalid_32
    → dispatch b code msg s ≡ to_object b code msg (to_type s msg) (to_number s msg) s
dispatch-object b code msg slots k n s is ne =
    dispatch-type b code msg slots k n s is ∙ rw (ne→== (to_number s msg) invalid_32 ne) refl

to_free-first :
    (code : Automata) (msg : Ptr) (automate_type : ℕ) (s : FsmSystem) (x : Ptr) (n : Links)
    (q : FsmList)
    → get_free s.next (s.free_automates automate_type) ≡ ok (x, (n, q))
    → x ≢ null
    → to_free code msg automate_type s ≡ code.process x msg (with_free s automate_type n q)
unfolding to_free
to_free-first code msg automate_type s x n q e ne = rw (to_free, e, ◌>>=◌, ne→== x null ne) refl

to_free-none :
    (code : Automata) (msg : Ptr) (automate_type : ℕ) (s : FsmSystem)
    → IsFreeList s.next (s.free_automates automate_type) []
    → to_free code msg automate_type s ≡ thrown 0x21030504
unfolding to_free
to_free-none code msg automate_type s is =
    rw (to_free, (get_free_lem s.next (s.free_automates automate_type)).0 is) refl

to_object-process :
    (b : Build) (code : Automata) (msg : Ptr) (automate_type i : ℕ) (slots : ℕ → Ptr) (k n : ℕ)
    (s : FsmSystem)
    → IsFilled s automate_type slots k n
    → i < n
    → slots i ≢ null
    → to_object b code msg automate_type i s ≡ code.process (slots i) msg s
unfolding to_object object_at slots_of
to_object-process b code msg automate_type i slots k n s is less ne =
    rw
      (
        to_object,
        is.objects,
        le→ltb n i (omega (arith, less)),
        object_at,
        is.there,
        is.objects,
        lt→ltb i n less,
        ne→== (slots i) null ne,
        ◌>>=◌,
      )
      refl

to_object-null :
    (b : Build) (code : Automata) (msg : Ptr) (automate_type i : ℕ) (slots : ℕ → Ptr) (k n : ℕ)
    (s : FsmSystem)
    → IsFilled s automate_type slots k n
    → i < n
    → slots i ≡ null
    → to_object b code msg automate_type i s ≡ fault
unfolding to_object object_at slots_of
to_object-null b code msg automate_type i slots k n s is less e =
    rw
      (
        to_object,
        is.objects,
        le→ltb n i (omega (arith, less)),
        object_at,
        is.there,
        is.objects,
        lt→ltb i n less,
        eq→== (slots i) null e,
      )
      refl

to_object-behind :
    (b : Build) (code : Automata) (msg : Ptr) (automate_type i : ℕ) (slots : ℕ → Ptr) (k n : ℕ)
    (s : FsmSystem)
    → IsFilled s automate_type slots k n
    → (i ≡ n → to_object b code msg automate_type i s ≡ fault)
      × (n < i → to_object b code msg automate_type i s ≡ discard_msg b msg s)
unfolding to_object object_at slots_of
to_object-behind b code msg automate_type i slots k n s is = (
  λ e.
      rw
        (
          to_object,
          is.objects,
          le→ltb n i (omega (arith, e)),
          object_at,
          is.there,
          is.objects,
          le→ltb i n (omega (arith, e)),
        )
        refl,
  λ less. rw (to_object, is.objects, lt→ltb n i less) refl,
)

-- A message for a type that is not used, because its number is too high or it has no automata,
-- goes back to the pool.
pub dispatch-unknown :
    (b : Build) (code : Automata) (msg : Ptr) (s : FsmSystem)
    → (s.number_of_automates < to_type s msg → dispatch b code msg s ≡ discard_msg b msg s)
      × (to_type s msg ≤ s.number_of_automates
          → to_type s msg < 40
          → s.number_of_objects (to_type s msg) ≡ 0
          → dispatch b code msg s ≡ discard_msg b msg s)
unfolding dispatch
dispatch-unknown b code msg s = (
  λ less. rw (dispatch, lt→ltb s.number_of_automates (to_type s msg) less) refl,
  λ le array e.
      rw
        (
          dispatch,
          le→ltb s.number_of_automates (to_type s msg) le,
          lt→ltb (to_type s msg) 40 array,
          ◌>>=◌,
          eq→== (s.number_of_objects (to_type s msg)) 0 e,
        )
        refl,
)

-- A message for a type with `n` slots, `k` of them filled. Without a number it goes to the automaton
-- that has been free longest, which leaves the free ones; where none is free the call throws and
-- `NoFreeObjectProcedure` is not called. With the number of a filled slot it goes to the automaton
-- there; with the number of an empty one, or with `n` itself, the call is a fault; with a number
-- above, the message goes back to the pool.
pub dispatch_lem :
    (b : Build) (code : Automata) (msg : Ptr) (slots : ℕ → Ptr) (k n : ℕ) (s : FsmSystem)
    → IsFilled s (to_type s msg) slots k n
    → ((x : Ptr) (xs : List Ptr)
        → to_number s msg ≡ invalid_32
        → IsFreeList s.next (s.free_automates (to_type s msg)) (x ∷ xs)
        → (links : Links) × (q : FsmList) × IsFreeList links q xs
          × (dispatch b code msg s ≡ code.process x msg (with_free s (to_type s msg) links q)))
      × (to_number s msg ≡ invalid_32
          → IsFreeList s.next (s.free_automates (to_type s msg)) []
          → dispatch b code msg s ≡ thrown 0x21030504)
      × (to_number s msg ≢ invalid_32
          → to_number s msg < k
          → to_number s msg < n
          → dispatch b code msg s ≡ code.process (slots (to_number s msg)) msg s)
      × (to_number s msg ≢ invalid_32
          → k ≤ to_number s msg
          → to_number s msg < n
          → dispatch b code msg s ≡ fault)
      × (to_number s msg ≢ invalid_32 → to_number s msg ≡ n → dispatch b code msg s ≡ fault)
      × (to_number s msg ≢ invalid_32
          → n < to_number s msg
          → dispatch b code msg s ≡ discard_msg b msg s)
dispatch_lem b code msg slots k n s is =
    let t = to_type s msg in
    let i = to_number s msg in
    (
      λ x xs e free.
          let r = (get_free_lem s.next (s.free_automates t)).1 x xs free in
          (
            r.0,
            r.1,
            r.3,
            dispatch-free b code msg slots k n s is e
                ∙ to_free-first code msg t s x r.0 r.1 r.2 free.holds.chain.1,
          ),
      λ e free. dispatch-free b code msg slots k n s is e ∙ to_free-none code msg t s free,
      λ ne held less.
          dispatch-object b code msg slots k n s is ne
          ∙ to_object-process b code msg t i slots k n s is less (is.held i held),
      λ ne above less.
          dispatch-object b code msg slots k n s is ne
          ∙ to_object-null b code msg t i slots k n s is less (is.free i above less),
      λ ne e.
          dispatch-object b code msg slots k n s is ne
          ∙ (to_object-behind b code msg t i slots k n s is).0 e,
      λ ne less.
          dispatch-object b code msg slots k n s is ne
          ∙ (to_object-behind b code msg t i slots k n s is).1 less,
    )
