-- ===== src/FsmSystem/Lists.antt =====
-- The list of free automata is first-in first-out and counts what it holds.
use publisher_subscriber_ser.Base.{
  ◌+◌, ◌-◌, ◌%◌, ◌^◌, ◌<◌, ◌≡◌, ◌≢◌, refl, List, [], ◌∷◌, ◌++◌, arith, length, length-append, ok,
  thrown, ne→==, eq→==,
}
use publisher_subscriber_ser.Memory.{Ptr, null, update}
use publisher_subscriber_ser.Line.{Links, Out, IsLine, push_back, pop_front}
use publisher_subscriber_ser.Line.Laws.{frame, push_back-IsLine, pop_front-cons, pop_front-nil}
use publisher_subscriber_ser.FsmSystem.{FsmList, get_from_head, add_free, get_free}

-- The list holds exactly the automata `xs`, and counts them.
pub record IsFreeList (n : Links) (q : FsmList) (xs : List Ptr) : Type 0 where
  pub holds : IsLine n q.line xs
  pub counted : q.free_fsm_count ≡ length xs

-- An automaton that becomes free goes behind the others, where the count stays below 2^32; a null
-- pointer is refused.
pub add_free_lem :
    (n : Links) (q : FsmList) (xs : List Ptr) (info : Ptr)
    → IsFreeList n q xs
    → Out info xs
    → length xs + 1 < 2 ^ 32
    → (info ≡ null → add_free n q info ≡ thrown 0x21010503)
      × (info ≢ null
          → (n' : Links) × (q' : FsmList) × (add_free n q info ≡ ok (n', q'))
            × IsFreeList n' q' (xs ++ info ∷ []))
unfolding add_free
add_free_lem n q xs info is out few = (
  λ e. rw (eq→== info null e) refl,
  λ ne. (
    (push_back n q.line info).0,
    record { line = (push_back n q.line info).1; free_fsm_count = (q.free_fsm_count + 1) % 2 ^ 32 },
    rw (ne→== info null ne) refl,
    record {
      holds = push_back-IsLine n q.line xs info is.holds ne out;
      counted = omega (arith, is.counted, few, length-append xs (info ∷ []));
    },
  ),
)

first-out :
    (n : Links) (q : FsmList) (x : Ptr) (xs : List Ptr)
    → IsFreeList n q (x ∷ xs)
    → get_free n q
      ≡ ok (
        x,
        (
          update n x null,
          record q { line = (pop_front n q.line).1; free_fsm_count = q.free_fsm_count - 1 },
        ),
      )
unfolding get_free get_from_head
first-out n q x xs is =
    let head = (pop_front-cons n q.line x xs is.holds).0 in
    let live : x ≢ null = λ e. is.holds.chain.1 e in
    let some_left : q.free_fsm_count ≢ 0 = omega (arith, is.counted) in
    rw (get_free, get_from_head, head, ne→== x null live, ne→== q.free_fsm_count 0 some_left) refl

-- The automaton that has been free longest is taken; where none is free the call is refused.
pub get_free_lem :
    (n : Links) (q : FsmList)
    → (IsFreeList n q [] → get_free n q ≡ thrown 0x21030504)
      × ((x : Ptr) (xs : List Ptr)
          → IsFreeList n q (x ∷ xs)
          → (n' : Links) × (q' : FsmList) × (get_free n q ≡ ok (x, (n', q'))) × IsFreeList n' q' xs)
unfolding get_free get_from_head
get_free_lem n q = (
  λ is. rw (get_free, get_from_head, pop_front-nil n q.line is.holds) refl,
  λ x xs is. (
    update n x null,
    record q { line = (pop_front n q.line).1; free_fsm_count = q.free_fsm_count - 1 },
    first-out n q x xs is,
    record {
      holds = record {
        chain =
            let rest = (pop_front-cons n q.line x xs is.holds).1 in
            frame n (pop_front n q.line).1.head x null xs rest.chain is.holds.chain.2;
        tail = (pop_front-cons n q.line x xs is.holds).1.tail;
      };
      counted = omega (arith, is.counted);
    },
  ),
)
