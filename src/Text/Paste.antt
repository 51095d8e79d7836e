-- ===== src/Text/Paste.antt =====
-- What an array holds after `s` has been written into it.
use publisher_subscriber_ser.Base.{
  ℕ, zero, suc, sym, ◌+◌, ◌<◌, ◌≤◌, ◌≡◌, ◌⊎◌, inl, List, [], ◌∷◌, ◌++◌, arith, length, refl, ap,
  ◌∙◌,
}
use mathlib.Core.Path.{subst}
use publisher_subscriber_ser.Memory.{Bytes, update}
use publisher_subscriber_ser.Text.{At, Str, Free, paste}

pub paste-frame :
    (a : Bytes) (j : ℕ) (s : List ℕ) (k : ℕ) → (k < j) ⊎ (j + length s ≤ k) → paste a j s k ≡ a k
unfolding paste
paste-frame a j [] k h = refl
paste-frame a j (c ∷ s) k h = paste-frame (update a j c) (j + 1) s k (omega arith) ∙ ground arith

pub At-eq :
    (a b : Bytes) (i : ℕ) (s : List ℕ)
    → ((k : ℕ) → i ≤ k → k < i + length s → b k ≡ a k)
    → At a i s
    → At b i s
At-eq a b i [] h at = tt
At-eq a b i (c ∷ s) h at = (
  h i (omega arith) (omega arith) ∙ at.0,
  At-eq a b (i + 1) s (λ k p q. h k (omega arith) (omega arith)) at.1,
)

pub At-paste : (a : Bytes) (j : ℕ) (s : List ℕ) → At (paste a j s) j s
unfolding paste update
At-paste a j [] = tt
At-paste a j (c ∷ s) = (
  paste-frame (update a j c) (j + 1) s j (inl (omega arith)) ∙ ground arith,
  At-paste (update a j c) (j + 1) s,
)

-- Writing elsewhere keeps what the array holds.
pub At-paste_frame :
    (a : Bytes) (j : ℕ) (t : List ℕ) (i : ℕ) (s : List ℕ)
    → At a i s
    → (i + length s ≤ j) ⊎ (j + length t ≤ i)
    → At (paste a j t) i s
At-paste_frame a j t i s at h =
    At-eq a (paste a j t) i s (λ k p q. paste-frame a j t k (omega arith)) at

pub At-append :
    (a : Bytes) (i : ℕ) (s t : List ℕ) → At a i s → At a (i + length s) t → At a i (s ++ t)
At-append a i [] t h k = let e : i + 0 ≡ i = omega arith in rw e at k
At-append a i (c ∷ s) t h k =
    let e : i + length (c ∷ s) ≡ i + 1 + length s = omega arith in
    (h.0, At-append a (i + 1) s t h.1 (subst (λ n. At a n t) e k))

pub At-left : (a : Bytes) (i : ℕ) (s t : List ℕ) → At a i (s ++ t) → At a i s
At-left a i [] t h = tt
At-left a i (c ∷ s) t h = (h.0, At-left a (i + 1) s t h.1)

pub At-right : (a : Bytes) (i : ℕ) (s t : List ℕ) → At a i (s ++ t) → At a (i + length s) t
At-right a i [] t h = let e : i + 0 ≡ i = omega arith in rw e h
At-right a i (c ∷ s) t h =
    let e : i + length (c ∷ s) ≡ i + 1 + length s = omega arith in rw e (At-right a (i + 1) s t h.1)

pub paste-append :
    (a : Bytes) (j : ℕ) (s t : List ℕ) → paste (paste a j s) (j + length s) t ≡ paste a j (s ++ t)
unfolding paste
paste-append a j [] t = ap (λ k. paste a k t) (omega arith)
paste-append a j (c ∷ s) t =
    ap (λ k. paste (paste (update a j c) (j + 1) s) k t) (omega arith)
    ∙ paste-append (update a j c) (j + 1) s t

pub paste-then :
    (a : Bytes) (j : ℕ) (s : List ℕ) (k : ℕ) (t : List ℕ)
    → k ≡ j + length s
    → paste (paste a j s) k t ≡ paste a j (s ++ t)
paste-then a j s k t e = ap (λ i. paste (paste a j s) i t) e ∙ paste-append a j s t

-- Bytes that agree with those of another array hold the same string.
pub At-shift :
    (a b : Bytes) (i j : ℕ) (s : List ℕ)
    → ((k : ℕ) → k < length s → b (j + k) ≡ a (i + k))
    → At a i s
    → At b j s
At-shift a b i j [] h at = tt
At-shift a b i j (c ∷ s) h at =
    let e : j + 0 ≡ j = omega arith in
    let e' : i + 0 ≡ i = omega arith in
    let first : b j ≡ a i = ap b (sym e) ∙ h 0 (omega arith) ∙ ap a e' in
    (
      first ∙ at.0,
      At-shift a b (i + 1) (j + 1) s
          (λ k p. ap b (omega arith) ∙ h (suc k) (omega arith) ∙ ap a (omega arith)) at.1,
    )

-- The `n` bytes of the array from `i` on.
unfoldable pub bytes_from : Bytes → ℕ → ℕ → List ℕ
bytes_from a i zero = []
bytes_from a i (suc n) = a i ∷ bytes_from a (i + 1) n

pub length-bytes_from : (a : Bytes) (i n : ℕ) → length (bytes_from a i n) ≡ n
unfolding bytes_from
length-bytes_from a i zero = refl
length-bytes_from a i (suc n) = ap suc (length-bytes_from a (i + 1) n)

pub At-bytes_from : (a : Bytes) (i n : ℕ) → At a i (bytes_from a i n)
unfolding bytes_from
At-bytes_from a i zero = tt
At-bytes_from a i (suc n) = (refl, At-bytes_from a (i + 1) n)

pub bytes_from-At : (a : Bytes) (i : ℕ) (s : List ℕ) → At a i s → bytes_from a i (length s) ≡ s
unfolding bytes_from
bytes_from-At a i [] h = refl
bytes_from-At a i (c ∷ s) h = ground (arith, bytes_from-At a (i + 1) s h.1)

pub paste-bytes_from :
    (dst : Bytes) (j : ℕ) (a : Bytes) (i n k : ℕ)
    → k < n
    → paste dst j (bytes_from a i n) (j + k) ≡ a (i + k)
unfolding paste bytes_from update
paste-bytes_from dst j a i zero k h = absurd (omega arith)
paste-bytes_from dst j a i (suc n) zero h =
    let e : j + 0 ≡ j = omega arith in
    let e' : i + 0 ≡ i = omega arith in
    rw (e, e')
      (paste-frame (update dst j (a i)) (j + 1) (bytes_from a (i + 1) n) j (inl (omega arith))
        ∙ ground arith)
paste-bytes_from dst j a i (suc n) (suc k) h =
    ap (paste (update dst j (a i)) (j + 1) (bytes_from a (i + 1) n)) (omega arith)
    ∙ paste-bytes_from (update dst j (a i)) (j + 1) a (i + 1) n k (omega arith)
    ∙ ap a (omega arith)

-- The array with the C string `s` written from its start.
unfoldable pub string_in : Bytes → List ℕ → Bytes
string_in a s = paste (paste a 0 s) (length s) (0 ∷ [])

pub string_in-eq : (a : Bytes) (s : List ℕ) → string_in a s ≡ paste a 0 (s ++ 0 ∷ [])
unfolding string_in
string_in-eq a s =
    ap (λ k. paste (paste a 0 s) k (0 ∷ [])) (omega arith) ∙ paste-append a 0 s (0 ∷ [])

pub string_in-Str : (a : Bytes) (s : List ℕ) → Free 0 s → Str (string_in a s) 0 s
string_in-Str a s free =
    (subst (λ b. At b 0 (s ++ 0 ∷ [])) (sym (string_in-eq a s)) (At-paste a 0 (s ++ 0 ∷ [])), free)
