-- ===== src/Buffers/Constructor.antt =====
-- The pool that the constructor makes.
use publisher_subscriber_ser.Base.{
  ℕ, zero, suc, ◌+◌, ◌-◌, ◌*◌, ◌%◌, ◌^◌, ◌<◌, ◌≤◌, ◌≡◌, ◌≢◌, refl, ap, sym, ◌∙◌, List, [], ◌∷◌, All,
  arith, some, none, Run, ok, ◌==◌, Build, Bool-cases, inl, inr, ==→eq, ==→ne, ne→==, le→ltb,
}
use mathlib.Core.Path.{subst}
use publisher_subscriber_ser.Memory.{Ptr, null, Mem, update}
use publisher_subscriber_ser.Line.{Out}
use publisher_subscriber_ser.BuffersQueue
use publisher_subscriber_ser.BuffersQueue.{TBufferQue}
use publisher_subscriber_ser.BuffersQueue.Laws.{IsQueue}
use publisher_subscriber_ser.BuffersQueue.Create.{slots, Made, create_lem}
use publisher_subscriber_ser.Buffers.{Classes, TBuffers, sort_classes, create_queues, create}
use publisher_subscriber_ser.Buffers.Sort.{Sorted, sort_classes_lem}

-- The addresses of the buffers of the class `k`.
abbrev pub block : (bases : ℕ → Ptr) → Classes → ℕ → List Ptr
block bases a k = slots (a.counts k) (bases k) (a.lengths k)

-- What the constructor needs of its `n` classes and of the memory obtained: no class is empty or
-- too large for a 32-bit size, and no buffer is in two blocks.
pub record Blocks (bases : ℕ → Ptr) (n : ℕ) (a : Classes) : Type 0 where
  pub counted : (k : ℕ) → k < n → 0 < a.counts k
  pub sized : (k : ℕ) → k < n → 0 < a.lengths k
  pub small : (k : ℕ) → k < n → a.lengths k < 2 ^ 32
  pub fits : (k : ℕ) → k < n → (a.lengths k + 9) * a.counts k < 2 ^ 32
  pub live : (k : ℕ) → k < n → bases k ≢ null
  pub apart :
      (i j : ℕ) → i < n → j < n → i ≢ j → All (λ x. Out x (block bases a j)) (block bases a i)

-- The first `i` classes have their queues, each of the buffers of its block, which bear its code.
pub record Filled (m : Mem) (s : TBuffers) (i : ℕ) (bases : ℕ → Ptr) (a : Classes) : Type 0 where
  pub queues :
      (k : ℕ)
      → k < i
      → (q : TBufferQue) × (s.queues k ≡ some q) × IsQueue m q (block bases a k) × (q.locks ≡ 0)
  pub lengths : (k : ℕ) → k < i → s.buffers_length k ≡ a.lengths k
  pub codes : (k : ℕ) → k < i → All (λ p. m.code p ≡ k % 256) (block bases a k)

same-codes :
    (m m' : Mem) (c : ℕ) (xs ys : List Ptr)
    → ((p : Ptr) → Out p ys → m'.code p ≡ m.code p)
    → All (λ p. Out p ys) xs
    → All (λ p. m.code p ≡ c) xs
    → All (λ p. m'.code p ≡ c) xs
same-codes m m' c [] ys same out h = tt
same-codes m m' c (x ∷ xs) ys same out h =
    (same x out.0 ∙ h.0, same-codes m m' c xs ys same out.1 h.1)

-- One class more.
Filled-step :
    (b : Build) (i n : ℕ) (bases : ℕ → Ptr) (a : Classes) (m : Mem) (s : TBuffers)
    → Blocks bases n a
    → i < n
    → Filled m s i bases a
    → (h : Made
        (BuffersQueue.create b (bases i) (a.counts i) (a.lengths i) i m)
        m
        (bases i)
        (a.counts i)
        (a.lengths i)
        i)
    → Filled h.result.0
        (record s {
          queues = update s.queues i (some h.result.1);
          buffers_length = update s.buffers_length i (a.lengths i);
        })
        (i + 1)
        bases
        a
unfolding update
Filled-step b i n bases a m s blocks inside is h = record {
  queues = λ k less. elim (Bool-cases (k == i)) [
    | inl e ↦
        let same = ==→eq k i e in
        subst
          (λ j.
            (q : TBufferQue) × (update s.queues i (some h.result.1) j ≡ some q)
            × IsQueue h.result.0 q (block bases a j)
            × (q.locks ≡ 0))
          (sym same) (h.result.1, ground arith, h.queue, h.locks)
    | inr e ↦
        let other = ==→ne k i e in
        let (q, there, holds, free) = is.queues k (omega arith) in
        (
          q,
          rw e there,
          record {
            holds = record {
              chain =
                  h.frame q.line.head (block bases a k) holds.holds.chain
                    (blocks.apart i k inside (omega arith) (λ same. other (sym same)));
              tail = holds.holds.tail;
            };
            counted = holds.counted;
          },
          free,
        )
  ];
  lengths = λ k less. elim (Bool-cases (k == i)) [
    | inl e ↦ rw e (ap a.lengths (sym (==→eq k i e)))
    | inr e ↦ let other = ==→ne k i e in rw e (is.lengths k (omega arith))
  ];
  codes = λ k less. elim (Bool-cases (k == i)) [
    | inl e ↦
        subst (λ j. All (λ p. h.result.0.code p ≡ j % 256) (block bases a j)) (sym (==→eq k i e))
          h.coded
    | inr e ↦
        let other = ==→ne k i e in
        same-codes m h.result.0 (k % 256) (block bases a k) (block bases a i) h.same
          (blocks.apart k i (omega arith) inside other) (is.codes k (omega arith))
  ];
}

create_queues-Filled :
    (b : Build) (rounds i n : ℕ) (bases : ℕ → Ptr) (a : Classes) (m : Mem) (s : TBuffers)
    → i + rounds ≡ n
    → Blocks bases n a
    → Filled m s i bases a
    → (r : Mem × TBuffers) × (create_queues b bases rounds i a m s ≡ ok r)
      × Filled r.0 r.1 n bases a
      × (r.1.class_buffer_num ≡ s.class_buffer_num)
unfolding create_queues
create_queues-Filled b zero i n bases a m s e blocks is =
    ((m, s), refl, subst (λ j. Filled m s j bases a) (omega arith) is, refl)
create_queues-Filled b (suc rounds) i n bases a m s e blocks is =
    let inside : i < n = omega arith in
    let h =
      (create_lem b (bases i) (a.counts i) (a.lengths i) i m (blocks.counted i inside)
          (blocks.sized i inside) (blocks.small i inside) (blocks.live i inside)).0
        (blocks.fits i inside) in
    let (r, runs, filled, number) =
      create_queues-Filled b rounds (i + 1) n bases a h.result.0
        (record s {
          queues = update s.queues i (some h.result.1);
          buffers_length = update s.buffers_length i (a.lengths i);
        })
        (omega arith) blocks (Filled-step b i n bases a m s blocks inside is h) in
    (r, rw h.returns runs, filled, number)

-- The program makes the pool of the given classes, in the order of their lengths.
pub record Pooled (run : Run (Mem × TBuffers)) (bases : ℕ → Ptr) (n : ℕ) (given : Classes)
    : Type 0 where
  pub mem : Mem
  pub pool : TBuffers
  pub classes : Classes
  pub returns : run ≡ ok (mem, pool)
  pub sorted : Sorted n given classes
  pub filled : Filled mem pool n bases classes
  pub number : pool.class_buffer_num ≡ n

-- The constructor is given 1 to 32 classes, and memory for each (in the order of the lengths) in
-- which no buffer is in two blocks: it makes a queue for each class, in the order of their lengths,
-- with as many free buffers as were asked for that length, which bear the number of the class; the
-- queues are not locked.
pub create-Pooled :
    (b : Build) (bases : ℕ → Ptr) (n : ℕ) (counts lengths : ℕ → ℕ) (m : Mem)
    → 0 < n
    → n ≤ 32
    → Blocks bases n (sort_classes (n - 1) 0 (record { lengths = lengths; counts = counts }))
    → Pooled
        (create b bases n (some counts) (some lengths) m)
        bases
        n
        (record { lengths = lengths; counts = counts })
unfolding create
create-Pooled b bases n counts lengths m pos small blocks =
    let given : Classes = record { lengths = lengths; counts = counts } in
    let a = sort_classes (n - 1) 0 given in
    let (r, runs, filled, number) =
      create_queues-Filled b n 0 n bases a m
        (record { queues = λ _. none; buffers_length = λ _. 0; class_buffer_num = n }) (omega arith)
        blocks
        (record {
          queues = λ k h. absurd (omega arith);
          lengths = λ k h. absurd (omega arith);
          codes = λ k h. absurd (omega arith);
        }) in
    record {
      mem = r.0;
      pool = r.1;
      classes = a;
      returns = rw (ne→== n 0 (omega arith), ne→== n 0xff (omega arith), le→ltb 32 n small) runs;
      sorted = sort_classes_lem n given pos;
      filled = filled;
      number = number;
    }
