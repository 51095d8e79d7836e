-- ===== src/Params/Held.antt =====
-- A message that holds a list of parameters.
use publisher_subscriber_ser.Base.{
  ℕ, ◌+◌, ◌≡◌, ◌≢◌, refl, List, [], ◌∷◌, length, true, Build, debug, release, Run, assert_in, ◌>>◌,
}
use publisher_subscriber_ser.Memory.{Bytes, get_uint16}
use publisher_subscriber_ser.Text.{At}

pub record Param : Type 0 where
  pub code : ℕ
  pub body : List ℕ

-- The message holds the parameters from `tmp` on, and their end.
abbrev pub HoldsFrom : Bytes → ℕ → List Param → Type 0
HoldsFrom m tmp [] = get_uint16 m tmp ≡ 0
HoldsFrom m tmp (p ∷ ps) =
    (get_uint16 m tmp ≡ p.code)
    × (p.code ≢ 0)
    × (get_uint16 m (tmp + 2) ≡ length p.body)
    × At m (tmp + 4) p.body
    × HoldsFrom m (tmp + (length p.body + 4)) ps

-- The bytes that the parameters take.
unfoldable pub size : List Param → ℕ
size [] = 0
size (p ∷ ps) = length p.body + 4 + size ps

pub record HasParams (m : Bytes) (ps : List Param) : Type 0 where
  pub sized : get_uint16 m 19 ≡ size ps + 2
  pub params : HoldsFrom m 21 ps

pub passes : {A : Type 0} (b : Build) (next : Run A) → (assert_in b true >> next) ≡ next
passes debug next = refl
passes release next = refl
