-- ===== src/Text/Loops.antt =====
-- What each loop computes on arrays that hold the strings it expects; none of them faults or runs
-- out of fuel there.
use publisher_subscriber_ser.Base.{
  ℕ, zero, suc, ◌+◌, ◌<◌, ◌≤◌, ◌≡◌, List, [], ◌∷◌, ◌++◌, arith, length, refl, ap, ◌∙◌, ok, Bool,
  true, false, ◌==◌, if◌then◌else◌,
}
use publisher_subscriber_ser.Memory.{Bytes, update}
use publisher_subscriber_ser.Text.Paste.{string_in}
use publisher_subscriber_ser.Text.{
  copy_until, copy_string, put, strlen_from, strlen, str_eq_from, str_eq, copy_count, At, Free, Str,
  paste,
}

pub put_lem : (dst : Bytes) (size j v : ℕ) → j < size → put dst size j v ≡ ok (paste dst j (v ∷ []))
unfolding put paste
put_lem dst size j v h = ground arith

pub copy_until_lem :
    (fuel stop : ℕ) (src : Bytes) (src_size i : ℕ) (dst : Bytes) (dst_size j : ℕ) (s : List ℕ)
    → At src i (s ++ stop ∷ [])
    → Free stop s
    → i + length s < src_size
    → j + length s ≤ dst_size
    → length s < fuel
    → copy_until fuel stop src src_size i dst dst_size j
      ≡ ok (record { array = paste dst j s; source = i + length s; target = j + length s })
unfolding copy_until paste
copy_until_lem zero stop src n i dst k j s at free h h' f = absurd (omega arith)
copy_until_lem (suc fuel) stop src n i dst k j [] at free h h' f = ground arith
copy_until_lem (suc fuel) stop src n i dst k j (c ∷ s) at free h h' f =
    let rest =
      copy_until_lem fuel stop src n (i + 1) (update dst j c) k (j + 1) s at.1 free.1 (omega arith)
        (omega arith) (omega arith) in
    ground arith

pub copy_string_lem :
    (stop : ℕ) (src : Bytes) (src_size i : ℕ) (dst : Bytes) (dst_size : ℕ) (s : List ℕ)
    → At src i (s ++ stop ∷ [])
    → Free stop s
    → i + length s < src_size
    → length s < dst_size
    → copy_string stop src src_size i dst dst_size
      ≡ ok (record { array = string_in dst s; source = i + length s; target = length s })
unfolding copy_string string_in
copy_string_lem stop src n i dst k s at free h h' =
    let e : 0 + length s ≡ length s = omega arith in
    let run = copy_until_lem n stop src n i dst k 0 s at free h (omega arith) (omega arith) in
    rw (run, e, put_lem (paste dst 0 s) k (length s) 0 h')

pub strlen_from_lem :
    (fuel : ℕ) (src : Bytes) (size i : ℕ) (s : List ℕ)
    → Str src i s
    → i + length s < size
    → length s < fuel
    → strlen_from fuel src size i ≡ ok (i + length s)
unfolding strlen_from
strlen_from_lem zero src n i s str h f = absurd (omega arith)
strlen_from_lem (suc fuel) src n i [] str h f = ground arith
strlen_from_lem (suc fuel) src n i (c ∷ s) str h f =
    let rest =
      strlen_from_lem fuel src n (i + 1) s (str.0.1, str.1.1) (omega arith) (omega arith) in
    ground arith

pub strlen_lem :
    (src : Bytes) (size : ℕ) (s : List ℕ)
    → Str src 0 s
    → length s < size
    → strlen src size ≡ ok (length s)
unfolding strlen
strlen_lem src n s str h = strlen_from_lem n src n 0 s str (omega arith) h ∙ ap ok (omega arith)

pub copy_count_lem :
    (n : ℕ) (src : Bytes) (src_size i : ℕ) (dst : Bytes) (dst_size j : ℕ) (s : List ℕ)
    → At src i s
    → length s ≡ n
    → i + n ≤ src_size
    → j + n ≤ dst_size
    → copy_count n src src_size i dst dst_size j ≡ ok (paste dst j s)
unfolding copy_count paste
copy_count_lem zero src k i dst l j [] at e h h' = refl
copy_count_lem zero src k i dst l j (c ∷ s) at e h h' = absurd (omega arith)
copy_count_lem (suc n) src k i dst l j [] at e h h' = absurd (omega arith)
copy_count_lem (suc n) src k i dst l j (c ∷ s) at e h h' =
    let rest =
      copy_count_lem n src k (i + 1) (update dst j c) l (j + 1) s at.1 (omega arith) (omega arith)
        (omega arith) in
    ground arith

-- Whether two strings are the same.
unfoldable pub same : List ℕ → List ℕ → Bool
same [] [] = true
same [] (d ∷ t) = false
same (c ∷ s) [] = false
same (c ∷ s) (d ∷ t) = if c == d then same s t else false

pub str_eq_from_lem :
    (fuel : ℕ) (a : Bytes) (a_size : ℕ) (b : Bytes) (b_size i : ℕ) (s t : List ℕ)
    → Str a i s
    → Str b i t
    → i + length s < a_size
    → i + length t < b_size
    → length s < fuel
    → str_eq_from fuel a a_size b b_size i ≡ ok (same s t)
unfolding str_eq_from same
str_eq_from_lem zero a n b k i s t x y h h' f = absurd (omega arith)
str_eq_from_lem (suc fuel) a n b k i [] [] x y h h' f = ground arith
str_eq_from_lem (suc fuel) a n b k i [] (d ∷ t) x y h h' f = ground arith
str_eq_from_lem (suc fuel) a n b k i (c ∷ s) [] x y h h' f = ground arith
str_eq_from_lem (suc fuel) a n b k i (c ∷ s) (d ∷ t) x y h h' f =
    let rest =
      str_eq_from_lem fuel a n b k (i + 1) s t (x.0.1, x.1.1) (y.0.1, y.1.1) (omega arith)
        (omega arith) (omega arith) in
    ground arith

pub str_eq_lem :
    (a : Bytes) (a_size : ℕ) (b : Bytes) (b_size : ℕ) (s t : List ℕ)
    → Str a 0 s
    → Str b 0 t
    → length s < a_size
    → length t < b_size
    → str_eq a a_size b b_size ≡ ok (same s t)
unfolding str_eq
str_eq_lem a n b k s t x y h h' = str_eq_from_lem n a n b k 0 s t x y (omega arith) (omega arith) h
