-- ===== src/MailBox/Laws.antt =====
-- A mailbox is first-in first-out, counts its messages, and releases its lock on every branch.
use publisher_subscriber_ser.Base.{
  ℕ, suc, ◌%◌, ◌^◌, ◌<◌, ◌≡◌, ◌≢◌, refl, List, [], ◌∷◌, ◌++◌, arith, length, length-append, ok,
  thrown, ◌>>=◌, Build, ne→==, eq→==,
}
use publisher_subscriber_ser.Memory.{Ptr, null, Mem, load_uint16}
use publisher_subscriber_ser.Line.{Out, IsLine}
use publisher_subscriber_ser.Line.Laws.{push_back-IsLine, pop_front-cons, pop_front-nil}
use publisher_subscriber_ser.Buffers.{ret_buffer}
use publisher_subscriber_ser.MailBox.{
  TMailBox, World, discarded, msg_code, get_from_head, put_on_tail, add, get, query_head, get_count,
}

-- The mailbox holds exactly the messages `xs`, oldest first, and counts them.
pub record IsMailBox (m : Mem) (q : TMailBox) (xs : List Ptr) : Type 0 where
  pub holds : IsLine m.next q.line xs
  pub counted : q.count ≡ length xs % 2 ^ 32

-- A message that is sent goes behind the others; a null pointer is refused; the lock is
-- released, and no byte of a message changes.
pub add_lem :
    (m : Mem) (q : TMailBox) (xs : List Ptr) (p : Ptr)
    → IsMailBox m q xs
    → Out p xs
    → (p ≡ null → add m q p ≡ thrown 0x01010202)
      × (p ≢ null
          → (m' : Mem) × (q' : TMailBox) × (add m q p ≡ ok (m', q'))
            × IsMailBox m' q' (xs ++ p ∷ [])
            × (q'.locks ≡ q.locks)
            × (m'.bytes ≡ m.bytes))
unfolding add put_on_tail
add_lem m q xs p is out = (
  λ e. rw (eq→== p null e) refl,
  λ ne. (
    (put_on_tail m q p).0,
    (put_on_tail m q p).1,
    rw (ne→== p null ne) refl,
    record {
      holds = push_back-IsLine m.next q.line xs p is.holds ne out;
      counted = omega (arith, is.counted, length-append xs (p ∷ []));
    },
    omega arith,
    refl,
  ),
)

get_from_head-cons :
    (m : Mem) (q : TMailBox) (x : Ptr) (xs : List Ptr)
    → IsMailBox m q (x ∷ xs)
    → ((get_from_head m q).0 ≡ x)
      × IsMailBox m (get_from_head m q).1 xs
      × ((get_from_head m q).1.locks ≡ q.locks)
unfolding get_from_head
get_from_head-cons m q x xs is =
    let popped = pop_front-cons m.next q.line x xs is.holds in ground arith

get_from_head-nil : (m : Mem) (q : TMailBox) → IsMailBox m q [] → get_from_head m q ≡ (null, q)
unfolding get_from_head
get_from_head-nil m q is = let popped = pop_front-nil m.next q.line is.holds in ground arith

-- `Get` returns the oldest message if it is not discarded, and null from an empty mailbox, which it
-- leaves as it is; a discarded message goes back to the pool, and the next one is looked at. The lock
-- is released on each of these ways.
pub get_lem :
    (fuel : ℕ) (b : Build) (w : World) (x : Ptr) (xs : List Ptr)
    → (IsMailBox w.mem w.box [] → get (suc fuel) b w ≡ ok (null, w))
      × (IsMailBox w.mem w.box (x ∷ xs)
          → (q' : TMailBox) × IsMailBox w.mem q' xs
            × (q'.locks ≡ w.box.locks)
            × (load_uint16 w.mem x msg_code ≢ discarded
                → get (suc fuel) b w ≡ ok (x, record w { box = q' }))
            × (load_uint16 w.mem x msg_code ≡ discarded
                → get (suc fuel) b w ≡ (do
                  p ← ret_buffer b w.mem w.pool x
                  get fuel b (record { mem = p.0; pool = p.1; box = q' }))))
unfolding get
get_lem fuel b w x xs = (
  λ is. rw (get_from_head-nil w.mem w.box is) refl,
  λ is.
      let taken = get_from_head-cons w.mem w.box x xs is in
      let live = ne→== x null is.holds.chain.1 in
      (
        (get_from_head w.mem w.box).1,
        taken.1,
        taken.2,
        λ fresh. rw (taken.0, live, ne→== (load_uint16 w.mem x msg_code) discarded fresh) refl,
        λ stale. rw (taken.0, live, eq→== (load_uint16 w.mem x msg_code) discarded stale) refl,
      ),
)

-- `QueryHead` and `GetCount` return the oldest message and the number of messages (below 2^32 of
-- them), and change nothing.
pub query_head_lem :
    (m : Mem) (q : TMailBox) (x : Ptr) (xs : List Ptr)
    → IsMailBox m q (x ∷ xs)
    → length (x ∷ xs) < 2 ^ 32
    → (query_head q ≡ (x, q)) × (get_count q ≡ (length (x ∷ xs), q))
unfolding query_head get_count
query_head_lem m q x xs is small = ground arith
