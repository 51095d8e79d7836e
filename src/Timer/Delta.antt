-- ===== src/Timer/Delta.antt =====
-- The delta list as a list: what its operations do to the ticks that each timer has left.
use publisher_subscriber_ser.Base.{
  ℕ, ◌+◌, ◌-◌, ◌<◌, ◌≤◌, ◌≡◌, ◌≢◌, refl, List, [], ◌∷◌, arith, leb, ◌==◌, if◌then◌else◌, Bool-cases,
  inl, inr, leb→le, leb→lt, lt→leb, le→leb,
}
use publisher_subscriber_ser.Memory.{Ptr}
use publisher_subscriber_ser.Line.{Out}

-- A timer and its ticks more than the one before it.
pub record Waiting : Type 0 where
  pub timer : Ptr
  pub wait : ℕ

abbrev pub timers : List Waiting → List Ptr
timers [] = []
timers (x ∷ ts) = x.timer ∷ timers ts

-- The ticks that each timer has left, counted from `base` on.
unfoldable pub deadlines : (base : ℕ) → List Waiting → List Waiting
deadlines base [] = []
deadlines base (x ∷ ts) =
    record { timer = x.timer; wait = base + x.wait } ∷ deadlines (base + x.wait) ts

-- A timer with `ticks` more than what is before the list is put in its place.
unfoldable pub place : (timer : Ptr) (ticks : ℕ) → List Waiting → List Waiting
place timer ticks [] = record { timer = timer; wait = ticks } ∷ []
place timer ticks (x ∷ ts) =
    if leb x.wait ticks
    then x ∷ place timer (ticks - x.wait) ts
    else record { timer = timer; wait = ticks } ∷ record x { wait = x.wait - ticks } ∷ ts

-- A timer with `ticks` left is put behind all that expire with it or before it.
unfoldable pub place_by : (timer : Ptr) (ticks : ℕ) → List Waiting → List Waiting
place_by timer ticks [] = record { timer = timer; wait = ticks } ∷ []
place_by timer ticks (x ∷ ts) =
    if leb x.wait ticks
    then x ∷ place_by timer ticks ts
    else record { timer = timer; wait = ticks } ∷ x ∷ ts

pub deadlines-place :
    (base : ℕ) (timer : Ptr) (ticks : ℕ) (ts : List Waiting)
    → deadlines base (place timer ticks ts) ≡ place_by timer (base + ticks) (deadlines base ts)
unfolding deadlines place place_by
deadlines-place base timer ticks [] = refl
deadlines-place base timer ticks (x ∷ ts) = elim (Bool-cases (leb x.wait ticks)) [
  | inl e ↦
      let low = leb→le x.wait ticks e in
      let rest = deadlines-place (base + x.wait) timer (ticks - x.wait) ts in
      let same : base + x.wait + (ticks - x.wait) ≡ base + ticks = omega arith in ground arith
  | inr e ↦
      let high = leb→lt x.wait ticks e in
      let same : base + ticks + (x.wait - ticks) ≡ base + x.wait = omega arith in ground arith
]

-- The timers at the front with no ticks left, and the list behind them.
unfoldable pub expired : List Waiting → List Ptr
expired [] = []
expired (x ∷ ts) = if x.wait == 0 then x.timer ∷ expired ts else []

unfoldable pub unexpired : List Waiting → List Waiting
unexpired [] = []
unexpired (x ∷ ts) = if x.wait == 0 then unexpired ts else x ∷ ts

unfoldable pub tick : List Waiting → List Waiting
tick [] = []
tick (x ∷ ts) = record x { wait = x.wait - 1 } ∷ ts

pub place-before :
    (timer : Ptr) (ticks : ℕ) (x : Waiting) (ts : List Waiting)
    → ticks < x.wait
    → place timer ticks (x ∷ ts)
      ≡ record { timer = timer; wait = ticks } ∷ record x { wait = x.wait - ticks } ∷ ts
unfolding place
place-before timer ticks x ts less = rw (lt→leb x.wait ticks less) refl

pub place-behind :
    (timer : Ptr) (ticks : ℕ) (x : Waiting) (ts : List Waiting)
    → x.wait ≤ ticks
    → place timer ticks (x ∷ ts) ≡ x ∷ place timer (ticks - x.wait) ts
unfolding place
place-behind timer ticks x ts le = rw (le→leb x.wait ticks le) refl

pub place-last :
    (timer : Ptr) (ticks : ℕ) → place timer ticks [] ≡ record { timer = timer; wait = ticks } ∷ []
unfolding place
place-last timer ticks = refl

-- What lies outside the list with the timer lies outside the list and is not the timer.
pub Out-place :
    (q timer : Ptr) (ticks : ℕ) (ts : List Waiting)
    → q ≢ timer
    → Out q (timers ts)
    → Out q (timers (place timer ticks ts))
unfolding place
Out-place q timer ticks [] ne o = (ne, tt)
Out-place q timer ticks (x ∷ ts) ne o = elim (Bool-cases (leb x.wait ticks)) [
  | inl e ↦ rw e (o.0, Out-place q timer (ticks - x.wait) ts ne o.1)
  | inr e ↦ rw e (ne, o)
]
