-- ===== src/Params/Find.antt =====
-- What the search finds in a message that holds a list of parameters.
use publisher_subscriber_ser.Base.{
  ℕ, zero, suc, ◌+◌, ◌%◌, ◌^◌, ◌<◌, ◌≡◌, ◌≢◌, refl, ap, sym, ◌∙◌, Option, none, some, List, [], ◌∷◌,
  length, arith, true, false, ◌==◌, if◌then◌else◌, ok, Build, ne→==, eq→==, inl, inr, Bool-cases,
  ==→eq, ==→ne, lt→ltb, Run,
}
use publisher_subscriber_ser.Memory.{Bytes, get_uint16}
use publisher_subscriber_ser.Params.{StdMsg, extent, message, find_loop, find_param, get_param}
use publisher_subscriber_ser.Params.Held.{Param, HoldsFrom, size, HasParams, passes}

-- The place and the length of the first parameter with the code.
unfoldable pub located : (code : ℕ) → List Param → (tmp : ℕ) → Option ℕ × ℕ
located code [] tmp = (none, 0)
located code (p ∷ ps) tmp =
    if p.code == code
    then (some (tmp + 4), length p.body)
    else located code ps (tmp + (length p.body + 4))

located-nil : (code tmp : ℕ) → (none, 0) ≡ located code [] tmp
unfolding located
located-nil code tmp = refl

located-hit :
    (code : ℕ) (p : Param) (ps : List Param) (tmp : ℕ)
    → (p.code == code) ≡ true
    → located code (p ∷ ps) tmp ≡ (some (tmp + 4), length p.body)
unfolding located
located-hit code p ps tmp e = rw e refl

located-miss :
    (code : ℕ) (p : Param) (ps : List Param) (tmp : ℕ)
    → (p.code == code) ≡ false
    → located code (p ∷ ps) tmp ≡ located code ps (tmp + (length p.body + 4))
unfolding located
located-miss code p ps tmp e = rw e refl

find-end :
    (fuel : ℕ) (b : Build) (m : Bytes) (len code tmp offset : ℕ)
    → get_uint16 m tmp ≡ 0
    → find_loop (suc fuel) b m len code tmp offset ≡ ok (none, 0)
unfolding find_loop
find-end fuel b m len code tmp offset e = rw e refl

find-hit :
    (fuel : ℕ) (b : Build) (m : Bytes) (len code tmp offset : ℕ)
    → code ≢ 0
    → get_uint16 m tmp ≡ code
    → find_loop (suc fuel) b m len code tmp offset ≡ ok (some tmp, (offset + extent m tmp) % 2 ^ 32)
unfolding find_loop
find-hit fuel b m len code tmp offset ne e = rw (e, ne→== code 0 ne, eq→== code code refl) refl

find-step :
    (fuel : ℕ) (b : Build) (m : Bytes) (len code tmp offset reach : ℕ)
    → get_uint16 m tmp ≢ 0
    → get_uint16 m tmp ≢ code
    → get_uint16 m (tmp + 2) + 4 ≡ reach
    → offset + reach < len
    → len < 2 ^ 32
    → find_loop (suc fuel) b m len code tmp offset
      ≡ find_loop fuel b m len code (tmp + reach) (offset + reach)
unfolding find_loop
find-step fuel b m len code tmp offset reach ne other e inside small =
    let wrap : (offset + reach) % 2 ^ 32 ≡ offset + reach = omega arith in
    rw
      (
        e,
        wrap,
        ne→== (get_uint16 m tmp) 0 ne,
        ne→== (get_uint16 m tmp) code other,
        lt→ltb (offset + reach) len inside,
      )
      (passes b (find_loop fuel b m len code (tmp + reach) (offset + reach)))

-- What `GetParam` makes of the place of a parameter.
abbrev found : Bytes → Option ℕ → Option ℕ × ℕ
found m none = (none, 0)
found m (some q) = (some (q + 4), get_uint16 m (q + 2))

by_place :
    (m : Bytes) (o : Option ℕ) (s : StdMsg)
    → (elim o as (λ _. Run ((Option ℕ × ℕ) × StdMsg)) [
      | none ↦ ok ((none, 0), s)
      | some tmp ↦ ok ((some (tmp + 4), get_uint16 m (tmp + 2)), s)
    ])
      ≡ ok (found m o, s)
by_place m none s = refl
by_place m (some q) s = refl

find_loop_lem :
    (fuel : ℕ) (b : Build) (m : Bytes) (len code tmp offset : ℕ) (ps : List Param)
    → HoldsFrom m tmp ps
    → code ≢ 0
    → length ps < fuel
    → offset + size ps < len
    → len < 2 ^ 32
    → (r : Option ℕ × ℕ) × (find_loop fuel b m len code tmp offset ≡ ok r)
      × (found m r.0 ≡ located code ps tmp)
unfolding size
find_loop_lem zero b m len code tmp offset ps holds ne enough inside small = absurd (omega arith)
find_loop_lem (suc fuel) b m len code tmp offset [] holds ne enough inside small =
    ((none, 0), find-end fuel b m len code tmp offset holds, located-nil code tmp)
find_loop_lem (suc fuel) b m len code tmp offset (p ∷ ps) holds ne enough inside small =
    elim (Bool-cases (p.code == code)) [
      | inl e ↦
          let same = ==→eq p.code code e in
          (
            (some tmp, (offset + extent m tmp) % 2 ^ 32),
            find-hit fuel b m len code tmp offset ne (holds.0 ∙ same),
            ap (λ n. (some (tmp + 4), n)) holds.2 ∙ sym (located-hit code p ps tmp e),
          )
      | inr e ↦
          let other = ==→ne p.code code e in
          let step =
            find-step fuel b m len code tmp offset (length p.body + 4)
              (λ z. holds.1 (sym holds.0 ∙ z)) (λ z. other (sym holds.0 ∙ z))
              (omega (arith, holds.2)) (omega arith) small in
          let rest =
            find_loop_lem fuel b m len code (tmp + (length p.body + 4))
              (offset + (length p.body + 4)) ps holds.4 ne (omega arith) (omega arith) small in
          (rest.0, step ∙ rest.1, rest.2 ∙ sym (located-miss code p ps tmp e))
    ]

-- `GetParam` on a received message that holds parameters returns the place and the length of the
-- first parameter with the code asked for, or a null pointer and 0 if there is none.
pub get_param_lem :
    (fuel : ℕ) (b : Build) (code : ℕ) (s : StdMsg) (m : Bytes) (ps : List Param)
    → HasParams m ps
    → code ≢ 0
    → length ps < fuel
    → size ps + 23 < 2 ^ 32
    → (offset : ℕ) × (get_param fuel b code (record s { current_message = some m })
        ≡ ok (located code ps 21, record s { current_message = some m; current_offset = offset }))
unfolding get_param find_param message
get_param_lem fuel b code s m ps has ne enough small =
    let search =
      find_loop_lem fuel b m (size ps + 2 + 21) code 21 0 ps has.params ne enough (omega arith)
        (omega arith) in
    (
      search.0.1,
      rw (has.sized, ne→== (size ps + 2 + 21) 21 (omega arith), search.1)
          (by_place m search.0.0
              (record s { current_message = some m; current_offset = search.0.1 })
            ∙ ap (λ r. ok (r, record s { current_message = some m; current_offset = search.0.1 }))
                search.2),
    )
