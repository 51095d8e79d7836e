-- ===== src/MailBox/Pool.antt =====
-- The pool beside a mailbox: each class of buffers holds its free ones, and no buffer is free twice.
use publisher_subscriber_ser.Base.{
  ℕ, ◌<◌, ◌≤◌, ◌≡◌, ◌≢◌, refl, sym, List, [], ◌∷◌, ◌++◌, All, arith, some, ok, ◌>>=◌, Build,
  release, ◌==◌, Bool-cases, inl, inr, ==→eq, ==→ne, ne→==, lt→leb, lt→ltb,
}
use mathlib.Core.Path.{subst}
use publisher_subscriber_ser.Memory.{Ptr, null, Mem, update}
use publisher_subscriber_ser.Line.{Out, Seg}
use publisher_subscriber_ser.BuffersQueue.{TBufferQue, put_on_tail}
use publisher_subscriber_ser.BuffersQueue.Laws.{
  IsQueue, add_lem, put_on_tail-frame, put_on_tail-mem,
}
use publisher_subscriber_ser.Buffers.{TBuffers, put_queue, queue_at, ret_buffer}
use publisher_subscriber_ser.PostOffice.Holds.{OutOfBoxes, posted_to, posted_to-apart}

pub record ClassHolds (m : Mem) (s : TBuffers) (c : ℕ) (xs : List Ptr) : Type 0 where
  pub queue : TBufferQue
  pub there : s.queues c ≡ some queue
  pub buffers : IsQueue m queue xs

-- Each class holds the free buffers that `free` gives for it.
pub record PoolHolds (m : Mem) (s : TBuffers) (free : ℕ → List Ptr) : Type 0 where
  pub held : (c : ℕ) → c < s.class_buffer_num → ClassHolds m s c (free c)
  pub apart :
      (c d : ℕ)
      → c < s.class_buffer_num
      → d < s.class_buffer_num
      → c ≢ d
      → All (λ x. Out x (free d)) (free c)
  pub classes : s.class_buffer_num ≤ 32

-- The memory and the pool when a buffer has come back.
abbrev pub returned : Mem → TBuffers → TBufferQue → Ptr → Mem × TBuffers
returned m s q x = ((put_on_tail m q x).0, put_queue s (m.code x) (put_on_tail m q x).1)

module _ (m : Mem) (s : TBuffers) (free : ℕ → List Ptr) (x : Ptr) (holds : PoolHolds m s free)
    (inside : m.code x < s.class_buffer_num) (q : TBufferQue) (at : s.queues (m.code x) ≡ some q)
    (is : IsQueue m q (free (m.code x))) (ne : x ≢ null)
    (out : OutOfBoxes s.class_buffer_num x free) where
  pub ret_buffer-returned : (b : Build) → ret_buffer b m s x ≡ ok (returned m s q x)
  unfolding ret_buffer queue_at
  ret_buffer-returned b =
      rw
        (
          ret_buffer,
          ne→== x null ne,
          lt→leb s.class_buffer_num (m.code x) inside,
          lt→ltb (m.code x) 32 (omega (arith, inside, holds.classes)),
          at,
          ◌>>=◌,
          (add_lem b m q (free (m.code x)) x is ne (out (m.code x) inside)).0,
        )
        refl

  -- What is in no class keeps its links.
  pub returned-Seg :
      (a : Ptr) (zs : List Ptr)
      → Seg m.next a zs
      → Out x zs
      → All (λ y. Out y zs) (free (m.code x))
      → Seg (returned m s q x).0.next a zs
  returned-Seg a zs h o apart = put_on_tail-frame m q (free (m.code x)) x a zs is h o apart

  pub returned-mem : ((returned m s q x).0.bytes ≡ m.bytes) × ((returned m s q x).0.code ≡ m.code)
  returned-mem = put_on_tail-mem m q x

  own_class :
      ClassHolds (returned m s q x).0 (returned m s q x).1 (m.code x) (free (m.code x) ++ x ∷ [])
  unfolding update
  own_class = record {
    queue = (put_on_tail m q x).1;
    there = ground arith;
    buffers = (add_lem release m q (free (m.code x)) x is ne (out (m.code x) inside)).1;
  }

  other_class :
      (c : ℕ)
      → c < s.class_buffer_num
      → c ≢ m.code x
      → ClassHolds (returned m s q x).0 (returned m s q x).1 c (free c)
  unfolding update
  other_class c within other =
      let old = holds.held c within in
      record {
        queue = old.queue;
        there = let t = old.there in ground arith;
        buffers = record {
          holds = record {
            chain =
                returned-Seg old.queue.line.head (free c) old.buffers.holds.chain (out c within)
                  (holds.apart (m.code x) c inside within (λ e. other (sym e)));
            tail = old.buffers.holds.tail;
          };
          counted = old.buffers.counted;
        };
      }

  each_class :
      (c : ℕ)
      → c < s.class_buffer_num
      → ClassHolds (returned m s q x).0 (returned m s q x).1 c (posted_to free (m.code x) x c)
  each_class c within = elim (Bool-cases (c == m.code x)) [
    | inl e ↦ rw e (
        subst
          (λ d. ClassHolds (returned m s q x).0 (returned m s q x).1 d (free (m.code x) ++ x ∷ []))
          (sym (==→eq c (m.code x) e)) own_class)
    | inr e ↦ rw e (other_class c within (==→ne c (m.code x) e))
  ]

  pub returned-PoolHolds :
      PoolHolds (returned m s q x).0 (returned m s q x).1 (posted_to free (m.code x) x)
  returned-PoolHolds = record {
    held = each_class;
    apart = posted_to-apart s.class_buffer_num free (m.code x) x holds.apart inside out;
    classes = holds.classes;
  }
