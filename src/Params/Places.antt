-- ===== src/Params/Places.antt =====
-- The search for the place of a new parameter, on a message that holds parameters.
use publisher_subscriber_ser.Base.{
  ℕ, zero, suc, ◌+◌, ◌%◌, ◌^◌, ◌<◌, ◌≤◌, ◌≡◌, ◌≢◌, refl, sym, ◌∙◌, some, List, [], ◌∷◌, length,
  arith, false, ◌==◌, ltb, ok, Build, ne→==, ◌⊎◌, inl, inr, Bool-cases, ltb→lt, ltb→le, lt→ltb,
  le→ltb, assert_in, not,
}
use publisher_subscriber_ser.Memory.{Bytes, get_uint16}
use publisher_subscriber_ser.Params.{StdMsg, message, place_loop, find_param_place, remove_param}
use publisher_subscriber_ser.Params.Held.{Param, HoldsFrom, size, HasParams, passes}

place-stops :
    (fuel : ℕ) (b : Build) (m : Bytes) (len code tmp offset : ℕ)
    → (get_uint16 m tmp ≡ 0) ⊎ (code < get_uint16 m tmp)
    → place_loop (suc fuel) b m len code tmp offset ≡ ok (tmp, offset)
unfolding place_loop
place-stops fuel b m len code tmp offset h = ground arith

place-step :
    (fuel : ℕ) (b : Build) (m : Bytes) (len code tmp offset reach : ℕ)
    → get_uint16 m tmp ≢ 0
    → get_uint16 m tmp ≤ code
    → get_uint16 m (tmp + 2) + 4 ≡ reach
    → offset + reach < len
    → len < 2 ^ 32
    → place_loop (suc fuel) b m len code tmp offset
      ≡ place_loop fuel b m len code (tmp + reach) (offset + reach)
unfolding place_loop
place-step fuel b m len code tmp offset reach ne low e inside small =
    let wrap : (offset + reach) % 2 ^ 32 ≡ offset + reach = omega arith in
    rw
      (
        e,
        wrap,
        ne→== (get_uint16 m tmp) 0 ne,
        le→ltb code (get_uint16 m tmp) low,
        lt→ltb (offset + reach) len inside,
      )
      (passes b (place_loop fuel b m len code (tmp + reach) (offset + reach)))

place_loop_lem :
    (fuel : ℕ) (b : Build) (m : Bytes) (len code tmp offset : ℕ) (ps : List Param)
    → HoldsFrom m tmp ps
    → length ps < fuel
    → offset + size ps < len
    → len < 2 ^ 32
    → (r : ℕ × ℕ) × (place_loop fuel b m len code tmp offset ≡ ok r)
      × (code ≢ 0 → get_uint16 m r.0 ≢ code)
unfolding size
place_loop_lem zero b m len code tmp offset ps holds enough inside small = absurd (omega arith)
place_loop_lem (suc fuel) b m len code tmp offset [] holds enough inside small = (
  (tmp, offset),
  place-stops fuel b m len code tmp offset (inl holds),
  λ ne e. ne (sym e ∙ holds),
)
place_loop_lem (suc fuel) b m len code tmp offset (p ∷ ps) holds enough inside small =
    elim (Bool-cases (ltb code p.code)) [
      | inl e ↦
          let above = ltb→lt code p.code e in
          (
            (tmp, offset),
            place-stops fuel b m len code tmp offset (inr (omega (arith, holds.0))),
            λ ne same. absurd (omega (arith, holds.0)),
          )
      | inr e ↦
          let below = ltb→le code p.code e in
          let step =
            place-step fuel b m len code tmp offset (length p.body + 4)
              (λ z. holds.1 (sym holds.0 ∙ z)) (omega (arith, holds.0)) (omega (arith, holds.2))
              (omega arith) small in
          let rest =
            place_loop_lem fuel b m len code (tmp + (length p.body + 4))
              (offset + (length p.body + 4)) ps holds.4 (omega arith) (omega arith) small in
          (rest.0, step ∙ rest.1, rest.2)
    ]

-- `RemoveParam` removes nothing: on a new message that holds parameters, with or without the one
-- asked for, it returns false and leaves the message as it is. (The search goes on past an equal
-- code, up to a larger one.)
pub remove_param_lem :
    (fuel : ℕ) (b : Build) (code : ℕ) (s : StdMsg) (m : Bytes) (ps : List Param)
    → s.new_message ≡ some m
    → HasParams m ps
    → code ≢ 0
    → length ps < fuel
    → size ps + 2 < 2 ^ 32
    → (offset : ℕ) × (remove_param fuel b code s
        ≡ ok (false, record s { new_message = some m; current_offset = offset }))
unfolding remove_param find_param_place message
remove_param_lem fuel b code s m ps at has ne enough small =
    let placed =
      place_loop_lem fuel b m (size ps + 2) code 21 0 ps has.params enough (omega arith) small in
    let asserted : assert_in b (not (code == 0)) ≡ ok tt = ground arith in
    (
      placed.0.1,
      rw
          (
            asserted,
            at,
            has.sized,
            ne→== (size ps + 2) 0 (omega arith),
            placed.1,
            ne→== (get_uint16 m placed.0.0) code (placed.2 ne),
          )
          refl,
    )
