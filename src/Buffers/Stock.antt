-- ===== src/Buffers/Stock.antt =====
-- One round of the loop that takes a buffer, and what the loop comes to.
use publisher_subscriber_ser.Base.{
  ℕ, suc, ◌+◌, ◌<◌, ◌≤◌, ◌≡◌, ◌⊎◌, inl, inr, refl, ap, sym, ◌∙◌, List, [], ◌∷◌, arith, some, Run,
  ok, aborted, ◌==◌, Build, debug, release, Bool-cases, ==→eq, ==→ne, ne→==,
}
use mathlib.Core.Path.{subst}
use publisher_subscriber_ser.Memory.{Ptr, null, Mem, update}
use publisher_subscriber_ser.BuffersQueue.{TBufferQue, get_from_head}
use publisher_subscriber_ser.BuffersQueue.Laws.{IsQueue, get-cons, get-nil}
use publisher_subscriber_ser.Buffers.{TBuffers, put_queue, take_buffer}
use publisher_subscriber_ser.Buffers.Lookup.{queue_at_lem}

-- From the class `n` on each has a queue, `queues j`, which holds the buffers `free j`.
pub record Stocked (m : Mem) (s : TBuffers) (n : ℕ) (queues : ℕ → TBufferQue) (free : ℕ → List Ptr)
    : Type 0 where
  pub there : (j : ℕ) → n ≤ j → j < s.class_buffer_num → s.queues j ≡ some (queues j)
  pub holds : (j : ℕ) → n ≤ j → j < s.class_buffer_num → IsQueue m (queues j) (free j)

-- The program ends with the buffer `x` of the class `k`, in front of `xs`; the classes from `n` up
-- to `k` stay locked once more, and no other changes.
pub record Taken (run : Run (Ptr × TBuffers)) (m : Mem) (s : TBuffers) (n k : ℕ)
    (queues : ℕ → TBufferQue) (x : Ptr) (xs : List Ptr) : Type 0 where
  pub pool : TBuffers
  pub queue : TBufferQue
  pub returns : run ≡ ok (x, pool)
  pub taken : pool.queues k ≡ some queue
  pub holds : IsQueue m queue xs
  pub locks : queue.locks ≡ (queues k).locks
  pub passed :
      (j : ℕ)
      → n ≤ j
      → j < k
      → pool.queues j ≡ some (record (queues j) { locks = (queues j).locks + 1 })
  pub kept : (j : ℕ) → (j < n) ⊎ (k < j) → pool.queues j ≡ s.queues j
  pub lengths : pool.buffers_length ≡ s.buffers_length
  pub number : pool.class_buffer_num ≡ s.class_buffer_num

take_first :
    (b : Build) (rounds n : ℕ) (m : Mem) (s : TBuffers) (q : TBufferQue) (x : Ptr) (xs : List Ptr)
    → n < 32
    → s.queues n ≡ some q
    → IsQueue m q (x ∷ xs)
    → take_buffer b (suc rounds) m s n ≡ ok (x, put_queue s n (get_from_head m q).1)
unfolding take_buffer
take_first b rounds n m s q x xs small at is =
    rw (queue_at_lem s n q small at, (get-cons b m q x xs is).0, ne→== x null is.holds.chain.1) refl

pub take_next :
    (rounds n : ℕ) (m : Mem) (s : TBuffers) (q : TBufferQue)
    → n < 32
    → s.queues n ≡ some q
    → IsQueue m q []
    → take_buffer release (suc rounds) m s n
      ≡ take_buffer release rounds m (put_queue s n (record q { locks = q.locks + 1 })) (n + 1)
unfolding take_buffer
take_next rounds n m s q small at is =
    rw (queue_at_lem s n q small at, (get-nil release m q is).1) refl

pub take-aborted :
    (rounds n : ℕ) (m : Mem) (s : TBuffers) (q : TBufferQue)
    → n < 32
    → s.queues n ≡ some q
    → IsQueue m q []
    → take_buffer debug (suc rounds) m s n ≡ aborted
unfolding take_buffer
take-aborted rounds n m s q small at is =
    rw (queue_at_lem s n q small at, (get-nil debug m q is).0) refl

pub take_here :
    (b : Build) (rounds n : ℕ) (m : Mem) (s : TBuffers) (queues : ℕ → TBufferQue)
    (free : ℕ → List Ptr) (x : Ptr) (xs : List Ptr)
    → Stocked m s n queues free
    → n < s.class_buffer_num
    → n < 32
    → free n ≡ x ∷ xs
    → Taken (take_buffer b (suc rounds) m s n) m s n n queues x xs
unfolding update
take_here b rounds n m s queues free x xs stock inside small e =
    let is = subst (IsQueue m (queues n)) e (stock.holds n (omega arith) inside) in
    let at = stock.there n (omega arith) inside in
    let rest = get-cons b m (queues n) x xs is in
    record {
      pool = put_queue s n (get_from_head m (queues n)).1;
      queue = (get_from_head m (queues n)).1;
      returns = take_first b rounds n m s (queues n) x xs small at is;
      taken = ground arith;
      holds = rest.1;
      locks = rest.2;
      passed = λ j p q. absurd (omega arith);
      kept = λ j h. ground arith;
      lengths = refl;
      number = refl;
    }

-- Behind a class that is passed the others are as before.
pub passed-Stocked :
    (m : Mem) (s : TBuffers) (n : ℕ) (queues : ℕ → TBufferQue) (free : ℕ → List Ptr)
    (q : TBufferQue)
    → Stocked m s n queues free
    → Stocked m (put_queue s n q) (n + 1) queues free
unfolding update
passed-Stocked m s n queues free q stock = record {
  there = λ j p inside. rw (ne→== j n (omega arith)) (stock.there j (omega arith) inside);
  holds = λ j p inside. stock.holds j (omega arith) inside;
}

pub take_later :
    (m : Mem) (s : TBuffers) (n k rounds : ℕ) (queues : ℕ → TBufferQue) (free : ℕ → List Ptr)
    (x : Ptr) (xs : List Ptr)
    → Stocked m s n queues free
    → n < s.class_buffer_num
    → n < 32
    → n < k
    → free n ≡ []
    → (let passed = put_queue s n (record (queues n) { locks = (queues n).locks + 1 }) in
        Taken (take_buffer release rounds m passed (n + 1)) m passed (n + 1) k queues x xs)
    → Taken (take_buffer release (suc rounds) m s n) m s n k queues x xs
unfolding update
take_later m s n k rounds queues free x xs stock inside small less none rest =
    let is = subst (IsQueue m (queues n)) none (stock.holds n (omega arith) inside) in
    let at = stock.there n (omega arith) inside in
    record {
      pool = rest.pool;
      queue = rest.queue;
      returns = take_next rounds n m s (queues n) small at is ∙ rest.returns;
      taken = rest.taken;
      holds = rest.holds;
      locks = rest.locks;
      passed = λ j p q. elim (Bool-cases (j == n)) [
        | inl e ↦
            let same = ==→eq j n e in
            rest.kept j (inl (omega arith))
            ∙ rw e (ap (λ i. some (record (queues i) { locks = (queues i).locks + 1 })) (sym same))
        | inr e ↦ let other = ==→ne j n e in rest.passed j (omega arith) q
      ];
      kept = λ j h. elim h [
        | inl p ↦ rest.kept j (inl (omega arith)) ∙ rw (ne→== j n (omega arith)) refl
        | inr p ↦ rest.kept j (inr p) ∙ rw (ne→== j n (omega arith)) refl
      ];
      lengths = rest.lengths;
      number = rest.number;
    }
