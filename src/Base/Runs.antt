-- ===== src/Base/Runs.antt =====
-- The ways in which a run of the C++ code can end.
use Prim.Native.Nat.{ℕ}
use mathlib.Core.Bool.{Bool, true, false}

-- `thrown` is `ThrowError` with its error code, `aborted` a failed `assert`, `fault` an access
-- outside the object that a pointer points into (a null pointer included), and `out_of_fuel` a
-- loop that has not ended in the rounds given.
pub data Run {ℓ} (A : Type ℓ) : Type ℓ where
  ok : A → Run A
  thrown : ℕ → Run A
  aborted : Run A
  fault : Run A
  out_of_fuel : Run A

-- What runs next gets the result; any other end is the end of the whole.
infixl 5 ◌>>=◌ ◌>>◌
abbrev pub ◌>>=◌ {ℓ κ} : {B : Type κ} {A : Type ℓ} → Run B → (B → Run A) → Run A
fault >>= next = fault
aborted >>= next = aborted
out_of_fuel >>= next = out_of_fuel
thrown code >>= next = thrown code
ok result >>= next = next result

abbrev pub ◌>>◌ {ℓ} : {A : Type ℓ} → Run (Unit {0}) → Run A → Run A
guard >> next = guard >>= λ _. next

-- `if (test) ThrowError(e)`.
abbrev pub throw_if : Bool → ℕ → Run (Unit {0})
throw_if true e = thrown e
throw_if false e = ok tt

-- `debug` is a build without NDEBUG, in which `assert` is checked.
pub data Build : Type 0 where
  debug release : Build

-- `assert(test)`.
abbrev pub assert_in : Build → Bool → Run (Unit {0})
assert_in debug false = aborted
assert_in debug true = ok tt
assert_in release test = ok tt

-- An access that is in bounds when the test holds.
abbrev pub in_bounds : Bool → Run (Unit {0})
in_bounds true = ok tt
in_bounds false = fault
