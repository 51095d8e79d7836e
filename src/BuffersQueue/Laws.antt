-- ===== src/BuffersQueue/Laws.antt =====
-- The queue of free buffers is first-in first-out, counts its buffers, and releases its lock
-- except when it is found empty.
use publisher_subscriber_ser.Base.{
  ◌+◌, ◌%◌, ◌^◌, ◌<◌, ◌≡◌, ◌≢◌, refl, List, [], ◌∷◌, ◌++◌, All, arith, length, length-append, ok,
  aborted, Build, debug, release, ne→==, true,
}
use publisher_subscriber_ser.Memory.{Ptr, null, Mem}
use publisher_subscriber_ser.Line.{Out, Seg, IsLine}
use publisher_subscriber_ser.Line.Laws.{
  push_back-IsLine, push_back-frame, pop_front-cons, pop_front-nil,
}
use publisher_subscriber_ser.BuffersQueue.{
  TBufferQue, get_from_head, put_on_tail, add, get, is_empty,
}

-- The queue holds exactly the free buffers `xs`, first to last, and counts them.
pub record IsQueue (m : Mem) (q : TBufferQue) (xs : List Ptr) : Type 0 where
  pub holds : IsLine m.next q.line xs
  pub counted : q.free_buffer_count ≡ length xs % 2 ^ 32

-- Returning a buffer that is not in the queue puts it last, and the lock is released.
pub add_lem :
    (b : Build) (m : Mem) (q : TBufferQue) (xs : List Ptr) (p : Ptr)
    → IsQueue m q xs
    → p ≢ null
    → Out p xs
    → (add b m q p ≡ ok (put_on_tail m q p))
      × IsQueue (put_on_tail m q p).0 (put_on_tail m q p).1 (xs ++ p ∷ [])
      × ((put_on_tail m q p).1.locks ≡ q.locks)
unfolding add put_on_tail
add_lem debug m q xs p is ne out = (
  rw (ne→== p null ne),
  record {
    holds = push_back-IsLine m.next q.line xs p is.holds ne out;
    counted = omega (arith, is.counted, length-append xs (p ∷ []));
  },
  omega arith,
)
add_lem release m q xs p is ne out = (
  refl,
  record {
    holds = push_back-IsLine m.next q.line xs p is.holds ne out;
    counted = omega (arith, is.counted, length-append xs (p ∷ []));
  },
  omega arith,
)

-- Adding to one queue leaves a segment elsewhere alone.
pub put_on_tail-frame :
    (m : Mem) (q : TBufferQue) (xs : List Ptr) (p : Ptr) (a : Ptr) (zs : List Ptr)
    → IsQueue m q xs
    → Seg m.next a zs
    → Out p zs
    → All (λ x. Out x zs) xs
    → Seg (put_on_tail m q p).0.next a zs
unfolding put_on_tail
put_on_tail-frame m q xs p a zs is s o apart =
    push_back-frame m.next q.line xs p a zs is.holds s o apart

-- Taking from a queue that holds a buffer returns the first, and the lock is released.
pub get-cons :
    (b : Build) (m : Mem) (q : TBufferQue) (x : Ptr) (xs : List Ptr)
    → IsQueue m q (x ∷ xs)
    → (get b m q ≡ ok (x, (get_from_head m q).1))
      × IsQueue m (get_from_head m q).1 xs
      × ((get_from_head m q).1.locks ≡ q.locks)
unfolding get get_from_head
get-cons b m q x xs is = let popped = pop_front-cons m.next q.line x xs is.holds in ground arith

-- On an empty queue the lock stays taken: a debug build aborts, and a release build returns NULL
-- with the lock one deeper.
pub get-nil :
    (b : Build) (m : Mem) (q : TBufferQue)
    → IsQueue m q []
    → (get debug m q ≡ aborted) × (get release m q ≡ ok (null, record q { locks = q.locks + 1 }))
unfolding get get_from_head
get-nil b m q is = let popped = pop_front-nil m.next q.line is.holds in ground arith

-- `IsEmpty` tells whether the queue holds no buffer (up to 2^32 of them) and changes nothing.
pub is_empty_lem :
    (m : Mem) (q : TBufferQue) (xs : List Ptr)
    → IsQueue m q xs
    → length xs < 2 ^ 32
    → ((is_empty q).0 ≡ true → xs ≡ []) × (xs ≡ [] → (is_empty q).0 ≡ true) × ((is_empty q).1 ≡ q)
unfolding is_empty
is_empty_lem m q [] is small = ground arith
is_empty_lem m q (x ∷ xs) is small = ground arith

-- A returned buffer changes links only.
pub put_on_tail-mem :
    (m : Mem) (q : TBufferQue) (p : Ptr)
    → ((put_on_tail m q p).0.bytes ≡ m.bytes) × ((put_on_tail m q p).0.code ≡ m.code)
unfolding put_on_tail
put_on_tail-mem m q p = (refl, refl)
