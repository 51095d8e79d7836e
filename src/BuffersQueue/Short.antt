-- ===== src/BuffersQueue/Short.antt =====
-- The size of the memory for a queue's buffers, and what happens where it has wrapped.
use publisher_subscriber_ser.Base.{
  ℕ, zero, suc, ◌+◌, ◌*◌, ◌%◌, ◌^◌, ◌≤◌, ◌<◌, ◌≡◌, ◌≢◌, ◌∙◌, refl, ap, arith, ok, Build, ne→==,
  debug, release, fault, Bool-cases, inl, inr, leb, leb→le, leb→lt, lt→leb,
}
use publisher_subscriber_ser.Memory.{Ptr, null, Mem, update}
use publisher_subscriber_ser.BuffersQueue.{TBufferQue, put_on_tail, cut, add, mem_size}

step_short :
    (tmp len n limit : ℕ)
    → limit < tmp + (len + 9) * suc n + 9
    → limit < tmp + 9 + len + (len + 9) * n + 9
step_short tmp len n limit h = grind arith

add-live :
    (b : Build) (m : Mem) (q : TBufferQue) (p : Ptr)
    → p ≢ null
    → add b m q p ≡ ok (put_on_tail m q p)
unfolding add
add-live debug m q p ne = rw (ne→== p null ne) refl
add-live release m q p ne = refl

-- Memory that ends before the last header does: it is written behind.
pub cut-short :
    (b : Build) (limit : Ptr) (n tmp len code : ℕ) (m : Mem) (q : TBufferQue)
    → limit < tmp + (len + 9) * n + 9
    → cut b limit (suc n) tmp len code m q ≡ fault
unfolding cut
cut-short b limit zero tmp len code m q short = rw (lt→leb (tmp + 9) limit (grind arith)) refl
cut-short b limit (suc n) tmp len code m q short = elim (Bool-cases (leb (tmp + 9) limit)) [
  | inl e ↦
      let m' : Mem = record m {
        code = update m.code (tmp + 9) (code % 256);
        next = update m.next (tmp + 9) null;
      } in
      let s = put_on_tail m' q (tmp + 9) in
      rw (e, add-live b m' q (tmp + 9) (omega arith))
        (cut-short b limit n (tmp + 9 + len) len code s.0 s.1 (step_short tmp len n limit short))
  | inr e ↦ rw e refl
]

pub mem_size-fits : (n len : ℕ) → 0 < n → (len + 9) * n < 2 ^ 32 → mem_size n len ≡ (len + 9) * n
unfolding mem_size
mem_size-fits n len pos h =
    let factor : len + 9 ≤ (len + 9) * n = grind arith in
    let small : (len + 9) % 2 ^ 32 ≡ len + 9 = omega (arith, factor, h) in
    rw small (omega (arith, h))

scale : (a r n : ℕ) → a ≡ r + 2 ^ 32 → a * n ≡ r * n + 2 ^ 32 * n
scale a r n e = ap (λ k. k * n) e ∙ grind arith

-- Where the product wraps, the last header does not fit.
pub mem_size-short :
    (n len : ℕ)
    → len < 2 ^ 32
    → 2 ^ 32 ≤ (len + 9) * suc n
    → mem_size (suc n) len < (len + 9) * n + 9
unfolding mem_size
mem_size-short n len small wraps = elim (Bool-cases (leb (2 ^ 32) (len + 9))) [
  | inl e ↦
      let large = leb→le (2 ^ 32) (len + 9) e in
      let r = (len + 9) % 2 ^ 32 in
      let split : len + 9 ≡ r + 2 ^ 32 = omega arith in
      let all = scale (len + 9) r n split in
      let step : r * suc n ≡ r * n + r = grind arith in omega (arith, all, step, small)
  | inr e ↦
      let low = leb→lt (2 ^ 32) (len + 9) e in
      let same : (len + 9) % 2 ^ 32 ≡ len + 9 = omega (arith, low) in
      let step : (len + 9) * suc n ≡ (len + 9) * n + (len + 9) = grind arith in
      rw same (omega (arith, step, wraps, small))
]
