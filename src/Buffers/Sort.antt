-- ===== src/Buffers/Sort.antt =====
-- The constructor's sort puts the classes in the order of their lengths.
use publisher_subscriber_ser.Base.{
  ℕ, zero, suc, ◌+◌, ◌-◌, ◌<◌, ◌≤◌, ◌≡◌, refl, ap, ◌∙◌, arith, Bool-cases, ltb, ltb→lt, ltb→le, inl,
  inr, ◌==◌, ==→eq, ==→ne,
}
use publisher_subscriber_ser.Memory.{update}
use publisher_subscriber_ser.Buffers.Rearrange.{Rearranged, sort_classes-Rearranged}
use publisher_subscriber_ser.Buffers.{Classes, sort_pair, sort_from, sort_classes}

-- From `a` to `r` the entries before `i` stay, and a lower bound of those from `i` up to `n` stays one.
record Moves (i n : ℕ) (a r : Classes) : Type 0 where
  kept : (k : ℕ) → k < i → r.lengths k ≡ a.lengths k
  bounded :
      (low : ℕ)
      → ((k : ℕ) → i ≤ k → k < n → low ≤ a.lengths k)
      → (k : ℕ) → i ≤ k
      → k < n
      → low ≤ r.lengths k

Moves-trans : (i n : ℕ) (a b c : Classes) → Moves i n a b → Moves i n b c → Moves i n a c
Moves-trans i n a b c m m' = record {
  kept = λ k h. m'.kept k h ∙ m.kept k h;
  bounded = λ low h. m'.bounded low (m.bounded low h);
}

sort_pair-Moves : (i j n : ℕ) (a : Classes) → i < j → j < n → Moves i n a (sort_pair i j a)
unfolding sort_pair update
sort_pair-Moves i j n a lt inside = record {
  kept = λ k h. ground arith;
  bounded = λ low h k p q.
      let hi = h i (omega arith) (omega arith) in
      let hj = h j (omega arith) inside in let hk = h k p q in ground arith;
}

sort_pair-least :
    (i j : ℕ) (a : Classes)
    → i < j
    → ((k : ℕ) → i < k → k < j → a.lengths i ≤ a.lengths k)
    → (k : ℕ) → i < k
    → k < j + 1
    → (sort_pair i j a).lengths i ≤ (sort_pair i j a).lengths k
unfolding sort_pair update
sort_pair-least i j a lt least k p q = elim (Bool-cases (k == j)) [
  | inl e ↦ let same = ==→eq k j e in ground arith
  | inr e ↦ let other = ==→ne k j e in let h = least k p (omega arith) in ground arith
]

sort_from_lem :
    (rounds i j n : ℕ) (a : Classes)
    → i < j
    → j + rounds ≡ n
    → ((k : ℕ) → i < k → k < j → a.lengths i ≤ a.lengths k)
    → Moves i n a (sort_from rounds i j a)
      × ((k : ℕ)
          → i < k
          → k < n
          → (sort_from rounds i j a).lengths i ≤ (sort_from rounds i j a).lengths k)
unfolding sort_from
sort_from_lem zero i j n a lt e least =
    (record { kept = λ k h. refl; bounded = λ low h. h }, λ k p q. least k p (omega arith))
sort_from_lem (suc rounds) i j n a lt e least =
    let b = sort_pair i j a in
    let rest =
      sort_from_lem rounds i (j + 1) n b (omega arith) (omega arith)
        (sort_pair-least i j a lt least) in
    (
      Moves-trans i n a b (sort_from rounds i (j + 1) b) (sort_pair-Moves i j n a lt (omega arith))
          rest.0,
      rest.1,
    )

prefix :
    (i n : ℕ) (a b : Classes)
    → Moves i n a b
    → ((k l : ℕ) → k < i → k < l → l < n → a.lengths k ≤ a.lengths l)
    → ((k : ℕ) → i < k → k < n → b.lengths i ≤ b.lengths k)
    → (k l : ℕ) → k < i + 1
    → k < l
    → l < n
    → b.lengths k ≤ b.lengths l
prefix i n a b moves sorted least k l h p q = elim (Bool-cases (k == i)) [
  | inl e ↦
      let same = ==→eq k i e in
      let first = least l (omega arith) q in omega (arith, ap b.lengths same)
  | inr e ↦
      let other = ==→ne k i e in
      let stays = moves.kept k (omega arith) in
      elim (Bool-cases (ltb l i)) [
        | inl f ↦
            let stays' = moves.kept l (ltb→lt l i f) in
            let before = sorted k l (omega arith) p q in omega arith
        | inr f ↦
            let after =
              moves.bounded (a.lengths k) (λ m u v. sorted k m (omega arith) (omega arith) v) l
                (ltb→le l i f) q in
            omega arith
      ]
]

sort_classes_from :
    (rounds i n : ℕ) (a : Classes)
    → i + rounds + 1 ≡ n
    → ((k l : ℕ) → k < i → k < l → l < n → a.lengths k ≤ a.lengths l)
    → (k l : ℕ) → k < l
    → l < n
    → (sort_classes rounds i a).lengths k ≤ (sort_classes rounds i a).lengths l
unfolding sort_classes
sort_classes_from zero i n a e sorted k l p q = sorted k l (omega arith) p q
sort_classes_from (suc rounds) i n a e sorted k l p q =
    let b = sort_from (suc rounds) i (i + 1) a in
    let swept =
      sort_from_lem (suc rounds) i (i + 1) n a (omega arith) (omega arith)
        (λ k p q. absurd (omega arith)) in
    sort_classes_from rounds (i + 1) n b (omega arith)
      (λ k l h p q. prefix i n a b swept.0 sorted swept.1 k l h p q) k l p q

-- `r` holds the `n` classes of `a`, each length with its number of buffers, and in order.
pub record Sorted (n : ℕ) (a r : Classes) : Type 0 where
  pub ordered : (k l : ℕ) → k < l → l < n → r.lengths k ≤ r.lengths l
  pub rearranged : Rearranged n a r

-- The sort that the constructor makes of its `n` classes, at least one, leaves the same classes,
-- each length with its own number of buffers, in another order: no class is longer than one behind
-- it.
pub sort_classes_lem : (n : ℕ) (a : Classes) → 0 < n → Sorted n a (sort_classes (n - 1) 0 a)
sort_classes_lem n a pos = record {
  ordered = sort_classes_from (n - 1) 0 n a (omega arith) (λ k l h. absurd (omega arith));
  rearranged = sort_classes-Rearranged (n - 1) n 0 a (omega arith);
}
