-- ===== src/Timer/Elapse.antt =====
-- The delta list as time goes on: which timers are gone after a number of ticks, and which are left.
use publisher_subscriber_ser.Base.{
  ℕ, ◌+◌, ◌-◌, ◌<◌, ◌≡◌, refl, List, [], ◌∷◌, ◌++◌, arith, leb, ◌==◌, if◌then◌else◌, Bool-cases,
  inl, inr, leb→le, leb→lt,
}
use publisher_subscriber_ser.Memory.{Ptr}
use publisher_subscriber_ser.Timer.Delta.{Waiting, deadlines, place, expired, unexpired, tick}

-- The timers that expire within `n` ticks, the first to expire first, and the list behind them.
unfoldable pub gone : (n : ℕ) → List Waiting → List Ptr
gone n [] = []
gone n (x ∷ ts) = let rest = gone (n - x.wait) ts in if leb x.wait n then x.timer ∷ rest else []

unfoldable pub left : (n : ℕ) → List Waiting → List Waiting
left n [] = []
left n (x ∷ ts) =
    let rest = left (n - x.wait) ts in
    if leb x.wait n then rest else record x { wait = x.wait - n } ∷ ts

-- Of a list with the ticks that each timer has left: those that have at most `n`, and the others.
unfoldable pub due : (n : ℕ) → List Waiting → List Ptr
due n [] = []
due n (x ∷ ts) = let rest = due n ts in if leb x.wait n then x.timer ∷ rest else rest

unfoldable pub later : (n : ℕ) → List Waiting → List Waiting
later n [] = []
later n (x ∷ ts) =
    let rest = later n ts in if leb x.wait n then rest else record x { wait = x.wait - n } ∷ rest

-- The first timer has ticks left.
abbrev pub Live : List Waiting → Type 0
Live [] = Unit
Live (x ∷ ts) = 0 < x.wait

gone_zero : (ts : List Waiting) → gone 0 ts ≡ expired ts
unfolding gone expired
gone_zero [] = refl
gone_zero (x ∷ ts) = elim (Bool-cases (x.wait == 0)) [
  | inl e ↦ let rest = gone_zero ts in ground arith
  | inr e ↦ ground arith
]

left_zero : (ts : List Waiting) → left 0 ts ≡ unexpired ts
unfolding left unexpired
left_zero [] = refl
left_zero (x ∷ ts) = elim (Bool-cases (x.wait == 0)) [
  | inl e ↦ let rest = left_zero ts in ground arith
  | inr e ↦ ground arith
]

pub expired-tick : (ts : List Waiting) → Live ts → expired (tick ts) ≡ gone 1 ts
unfolding gone expired tick
expired-tick [] h = refl
expired-tick (x ∷ ts) h = let rest = gone_zero ts in ground arith

pub unexpired-tick : (ts : List Waiting) → Live ts → unexpired (tick ts) ≡ left 1 ts
unfolding left unexpired tick
unexpired-tick [] h = refl
unexpired-tick (x ∷ ts) h = let rest = left_zero ts in ground arith

pub left-Live : (n : ℕ) (ts : List Waiting) → Live (left n ts)
unfolding left
left-Live n [] = tt
left-Live n (x ∷ ts) = elim (Bool-cases (leb x.wait n)) [
  | inl e ↦ rw e (left-Live (n - x.wait) ts)
  | inr e ↦ let low = leb→lt x.wait n e in rw e (omega arith)
]

pub place-Live :
    (timer : Ptr) (ticks : ℕ) (ts : List Waiting)
    → 0 < ticks
    → Live ts
    → Live (place timer ticks ts)
unfolding place
place-Live timer ticks [] pos h = pos
place-Live timer ticks (x ∷ ts) pos h = elim (Bool-cases (leb x.wait ticks)) [
  | inl e ↦ rw e h
  | inr e ↦ rw e pos
]

pub gone-add : (a b : ℕ) (ts : List Waiting) → gone (a + b) ts ≡ gone a ts ++ gone b (left a ts)
unfolding gone left
gone-add a b [] = refl
gone-add a b (x ∷ ts) = elim (Bool-cases (leb x.wait a)) [
  | inl e ↦
      let le = leb→le x.wait a e in
      let rest = gone-add (a - x.wait) b ts in
      let same : a + b - x.wait ≡ a - x.wait + b = omega arith in ground arith
  | inr e ↦
      let less = leb→lt x.wait a e in
      let same : b - (x.wait - a) ≡ a + b - x.wait = omega arith in ground arith
]

pub left-add : (a b : ℕ) (ts : List Waiting) → left (a + b) ts ≡ left b (left a ts)
unfolding left
left-add a b [] = refl
left-add a b (x ∷ ts) = elim (Bool-cases (leb x.wait a)) [
  | inl e ↦
      let le = leb→le x.wait a e in
      let rest = left-add (a - x.wait) b ts in
      let same : a + b - x.wait ≡ a - x.wait + b = omega arith in ground arith
  | inr e ↦
      let less = leb→lt x.wait a e in
      let same : b - (x.wait - a) ≡ a + b - x.wait = omega arith in
      let fewer : x.wait - a - b ≡ x.wait - (a + b) = omega arith in ground arith
]

due-none : (c base : ℕ) (ts : List Waiting) → c < base → due c (deadlines base ts) ≡ []
unfolding due deadlines
due-none c base [] h = refl
due-none c base (x ∷ ts) h =
    let rest = due-none c (base + x.wait) ts (omega (arith, h)) in ground arith

-- The timers gone are those whose ticks are over.
pub gone-deadlines :
    (n base : ℕ) (ts : List Waiting) → due (base + n) (deadlines base ts) ≡ gone n ts
unfolding due deadlines gone
gone-deadlines n base [] = refl
gone-deadlines n base (x ∷ ts) = elim (Bool-cases (leb x.wait n)) [
  | inl e ↦
      let le = leb→le x.wait n e in
      let rest = gone-deadlines (n - x.wait) (base + x.wait) ts in
      let same : base + x.wait + (n - x.wait) ≡ base + n = omega arith in ground arith
  | inr e ↦
      let less = leb→lt x.wait n e in
      let rest = due-none (base + n) (base + x.wait) ts (omega arith) in ground arith
]

later-all :
    (c base : ℕ) (ts : List Waiting)
    → c < base
    → later c (deadlines base ts) ≡ deadlines (base - c) ts
unfolding later deadlines
later-all c base [] h = refl
later-all c base (x ∷ ts) h =
    let rest = later-all c (base + x.wait) ts (omega (arith, h)) in
    let same : base + x.wait - c ≡ base - c + x.wait = omega arith in ground arith

-- The timers left have so many ticks fewer.
pub left-deadlines :
    (n base : ℕ) (ts : List Waiting)
    → later (base + n) (deadlines base ts) ≡ deadlines 0 (left n ts)
unfolding later deadlines left
left-deadlines n base [] = refl
left-deadlines n base (x ∷ ts) = elim (Bool-cases (leb x.wait n)) [
  | inl e ↦
      let le = leb→le x.wait n e in
      let rest = left-deadlines (n - x.wait) (base + x.wait) ts in
      let same : base + x.wait + (n - x.wait) ≡ base + n = omega arith in ground arith
  | inr e ↦
      let less = leb→lt x.wait n e in
      let rest = later-all (base + n) (base + x.wait) ts (omega arith) in
      let same : base + x.wait - (base + n) ≡ x.wait - n = omega arith in ground arith
]
