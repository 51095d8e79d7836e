-- ===== src/Text.antt =====
-- C strings in arrays of a fixed size: the idioms that the loops of
-- `POP3ClientCppUnit/ChAuto.cpp` are instances of. An array is its bytes and its size; an access
-- beyond the size is a `fault`. Each loop is given its array's size as fuel, which suffices, since
-- every round goes one byte further.
pub mod Paste
pub mod Loops
use publisher_subscriber_ser.Base.{
  ℕ, zero, suc, ◌+◌, ◌≡◌, ◌≢◌, Bool, true, false, List, [], ◌∷◌, ◌++◌, All, ◌==◌, ltb, Run, ok,
  out_of_fuel, ◌>>=◌, ◌>>◌, in_bounds,
}
use publisher_subscriber_ser.Memory.{Bytes, update}

pub record Copied : Type 0 where
  pub array : Bytes
  pub source : ℕ
  pub target : ℕ

-- `while (src[i] != stop) dst[j++] = src[i++];`
unfoldable pub copy_until :
    (fuel stop : ℕ) (src : Bytes) (src_size i : ℕ) (dst : Bytes) (dst_size j : ℕ) → Run Copied
copy_until zero stop src src_size i dst dst_size j = out_of_fuel
copy_until (suc k) stop src src_size i dst dst_size j = do
  in_bounds (ltb i src_size)
  elim (src i == stop) [
    | true ↦ ok (record { array = dst; source = i; target = j })
    | false ↦ do
      in_bounds (ltb j dst_size)
      copy_until k stop src src_size (i + 1) (update dst j (src i)) dst_size (j + 1)
  ]

-- `dst[j] = v`
unfoldable pub put : Bytes → (size j v : ℕ) → Run Bytes
unfolding update
put dst size j v = do in_bounds (ltb j size); ok (update dst j v)

-- The same loop into an array from its start, and `dst[j] = '\0';` behind it; with the stop 0 it
-- is `strcpy`.
unfoldable pub copy_string :
    (stop : ℕ) (src : Bytes) (src_size i : ℕ) (dst : Bytes) (dst_size : ℕ) → Run Copied
unfolding copy_until put
copy_string stop src src_size i dst dst_size = do
  t ← copy_until src_size stop src src_size i dst dst_size 0
  array ← put t.array dst_size t.target 0
  ok (record t { array = array })

-- `strlen(src)`, counted from `i`.
unfoldable pub strlen_from : (fuel : ℕ) (src : Bytes) (size i : ℕ) → Run ℕ
strlen_from zero src size i = out_of_fuel
strlen_from (suc k) src size i = do
  in_bounds (ltb i size)
  elim (src i == 0) [ true ↦ ok i | false ↦ strlen_from k src size (i + 1) ]

unfoldable pub strlen : (src : Bytes) (size : ℕ) → Run ℕ
unfolding strlen_from
strlen src size = strlen_from size src size 0

-- `!strcmp(a, b)`, from `i` on.
unfoldable pub str_eq_from :
    (fuel : ℕ) (a : Bytes) (a_size : ℕ) (b : Bytes) (b_size i : ℕ) → Run Bool
str_eq_from zero a a_size b b_size i = out_of_fuel
str_eq_from (suc k) a a_size b b_size i = do
  in_bounds (ltb i a_size)
  in_bounds (ltb i b_size)
  elim (a i == b i) [
    | false ↦ ok false
    | true ↦ elim (a i == 0) [ true ↦ ok true | false ↦ str_eq_from k a a_size b b_size (i + 1) ]
  ]

unfoldable pub str_eq : (a : Bytes) (a_size : ℕ) (b : Bytes) (b_size : ℕ) → Run Bool
unfolding str_eq_from
str_eq a a_size b b_size = str_eq_from a_size a a_size b b_size 0

-- `for (m = 0; m < n; m++) dst[j + m] = src[i + m];` with `n` rounds left.
unfoldable pub copy_count :
    (n : ℕ) (src : Bytes) (src_size i : ℕ) (dst : Bytes) (dst_size j : ℕ) → Run Bytes
copy_count zero src src_size i dst dst_size j = ok dst
copy_count (suc n) src src_size i dst dst_size j = do
  in_bounds (ltb i src_size)
  in_bounds (ltb j dst_size)
  copy_count n src src_size (i + 1) (update dst j (src i)) dst_size (j + 1)

-- The array holds the bytes `s` from `i` on.
abbrev pub At : Bytes → ℕ → List ℕ → Type 0
At a i [] = Unit
At a i (c ∷ s) = (a i ≡ c) × At a (i + 1) s

-- None of `s` is `stop`.
abbrev pub Free : ℕ → List ℕ → Type 0
Free stop s = All (λ c. c ≢ stop) s

-- The array holds the C string `s` from `i` on, with its terminator.
abbrev pub Str : Bytes → ℕ → List ℕ → Type 0
Str a i s = At a i (s ++ 0 ∷ []) × Free 0 s

-- The array with `s` written from `j` on.
unfoldable pub paste : Bytes → ℕ → List ℕ → Bytes
unfolding update
paste dst j [] = dst
paste dst j (c ∷ s) = paste (update dst j c) (j + 1) s
