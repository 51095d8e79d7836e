-- ===== src/Buffers/Rearrange.antt =====
-- The constructor's sort moves the classes and loses none: the length and the number of buffers of
-- a class stay together.
use publisher_subscriber_ser.Base.{
  ℕ, zero, suc, ◌+◌, ◌<◌, ◌≡◌, refl, ap, ◌∙◌, arith, ltb, if◌then◌else◌, ◌==◌, Bool-cases, inl, inr,
}
use publisher_subscriber_ser.Memory.{update}
use publisher_subscriber_ser.Buffers.{Classes, sort_pair, sort_from, sort_classes}

-- The first `n` classes of `r` are those of `a` in some order: `from` tells where a class of `r` is
-- in `a`, and `to` where one of `a` is in `r`.
pub record Rearranged (n : ℕ) (a r : Classes) : Type 0 where
  pub from : ℕ → ℕ
  pub to : ℕ → ℕ
  pub from_inside : (k : ℕ) → k < n → from k < n
  pub to_inside : (k : ℕ) → k < n → to k < n
  pub to_from : (k : ℕ) → to (from k) ≡ k
  pub from_to : (k : ℕ) → from (to k) ≡ k
  pub lengths : (k : ℕ) → r.lengths k ≡ a.lengths (from k)
  pub counts : (k : ℕ) → r.counts k ≡ a.counts (from k)

Rearranged-refl : (n : ℕ) (a : Classes) → Rearranged n a a
Rearranged-refl n a = record {
  from = λ k. k;
  to = λ k. k;
  from_inside = λ k h. h;
  to_inside = λ k h. h;
  to_from = λ k. refl;
  from_to = λ k. refl;
  lengths = λ k. refl;
  counts = λ k. refl;
}

Rearranged-trans :
    (n : ℕ) (a b c : Classes) → Rearranged n a b → Rearranged n b c → Rearranged n a c
Rearranged-trans n a b c p q = record {
  from = λ k. p.from (q.from k);
  to = λ k. q.to (p.to k);
  from_inside = λ k h. p.from_inside (q.from k) (q.from_inside k h);
  to_inside = λ k h. q.to_inside (p.to k) (p.to_inside k h);
  to_from = λ k. ap q.to (p.to_from (q.from k)) ∙ q.to_from k;
  from_to = λ k. ap p.from (q.from_to (p.to k)) ∙ p.from_to k;
  lengths = λ k. q.lengths k ∙ p.lengths (q.from k);
  counts = λ k. q.counts k ∙ p.counts (q.from k);
}

-- The entries `i` and `j` change places.
unfoldable exchange : (i j k : ℕ) → ℕ
exchange i j k = if k == j then i else if k == i then j else k

exchange-exchange : (i j k : ℕ) → exchange i j (exchange i j k) ≡ k
unfolding exchange
exchange-exchange i j k = ground arith

exchange-inside : (n i j k : ℕ) → i < n → j < n → k < n → exchange i j k < n
unfolding exchange
exchange-inside n i j k p q h = ground arith

update-exchange : (f : ℕ → ℕ) (i j k : ℕ) → update (update f i (f j)) j (f i) k ≡ f (exchange i j k)
unfolding update exchange
update-exchange f i j k = ground arith

pub sort_pair-Rearranged :
    (n i j : ℕ) (a : Classes) → i < n → j < n → Rearranged n a (sort_pair i j a)
unfolding sort_pair
sort_pair-Rearranged n i j a p q = elim (Bool-cases (ltb (a.lengths j) (a.lengths i))) [
  | inl e ↦ rw e (record {
    from = exchange i j;
    to = exchange i j;
    from_inside = λ k h. exchange-inside n i j k p q h;
    to_inside = λ k h. exchange-inside n i j k p q h;
    to_from = λ k. exchange-exchange i j k;
    from_to = λ k. exchange-exchange i j k;
    lengths = λ k. update-exchange a.lengths i j k;
    counts = λ k. update-exchange a.counts i j k;
  })
  | inr e ↦ rw e (Rearranged-refl n a)
]

sort_from-Rearranged :
    (rounds n i j : ℕ) (a : Classes)
    → i < n
    → j + rounds ≡ n
    → Rearranged n a (sort_from rounds i j a)
unfolding sort_from
sort_from-Rearranged zero n i j a p e = Rearranged-refl n a
sort_from-Rearranged (suc rounds) n i j a p e =
    let b = sort_pair i j a in
    Rearranged-trans n a b (sort_from rounds i (j + 1) b)
      (sort_pair-Rearranged n i j a p (omega arith))
      (sort_from-Rearranged rounds n i (j + 1) b p (omega arith))

pub sort_classes-Rearranged :
    (rounds n i : ℕ) (a : Classes) → i + rounds + 1 ≡ n → Rearranged n a (sort_classes rounds i a)
unfolding sort_classes
sort_classes-Rearranged zero n i a e = Rearranged-refl n a
sort_classes-Rearranged (suc rounds) n i a e =
    let b = sort_from (suc rounds) i (i + 1) a in
    Rearranged-trans n a b (sort_classes rounds (i + 1) b)
      (sort_from-Rearranged (suc rounds) n i (i + 1) a (omega arith) (omega arith))
      (sort_classes-Rearranged rounds n (i + 1) b (omega arith))
