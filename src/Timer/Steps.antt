-- ===== src/Timer/Steps.antt =====
-- The steps of the loop of `Add`, and the two ways in which it ends.
use publisher_subscriber_ser.Base.{
  ℕ, suc, ◌-◌, ◌<◌, ◌≤◌, ◌≡◌, ◌≢◌, refl, ap, ◌∙◌, Run, ok, ◌>>=◌, ne→==, eq→==, lt→ltb, le→ltb,
  le→leb, lt→leb,
}
use publisher_subscriber_ser.Memory.{Ptr, null, Mem}
use publisher_subscriber_ser.Timer.{count, set_count, link, seek, insert}

abbrev pub place_from : (fuel : ℕ) (timer current prev : Ptr) → Mem → Run Mem
place_from fuel timer current prev m = do p ← seek fuel timer current prev m; insert timer p

seek-step :
    (fuel : ℕ) (timer current prev : Ptr) (m : Mem)
    → count m current ≤ count m timer
    → m.next current ≢ null
    → seek (suc fuel) timer current prev m
      ≡ seek fuel timer
          (m.next current)
          current
          (set_count m timer (count m timer - count m current))
unfolding seek
seek-step fuel timer current prev m le ne =
    rw (seek, le→leb (count m current) (count m timer) le, ne→== (m.next current) null ne) refl

seek-before :
    (fuel : ℕ) (timer current prev : Ptr) (m : Mem)
    → count m timer < count m current
    → seek (suc fuel) timer current prev m ≡ ok (record { mem = m; current = current; prev = prev })
unfolding seek
seek-before fuel timer current prev m less =
    rw (seek, lt→leb (count m current) (count m timer) less) refl

seek-last :
    (fuel : ℕ) (timer current prev : Ptr) (m : Mem)
    → count m current ≤ count m timer
    → m.next current ≡ null
    → seek (suc fuel) timer current prev m ≡ ok (record { mem = m; current = current; prev = prev })
unfolding seek
seek-last fuel timer current prev m le e =
    rw (seek, le→leb (count m current) (count m timer) le, eq→== (m.next current) null e) refl

pub place_from-step :
    (fuel : ℕ) (timer current prev : Ptr) (m : Mem)
    → count m current ≤ count m timer
    → m.next current ≢ null
    → place_from (suc fuel) timer current prev m
      ≡ place_from fuel timer
          (m.next current)
          current
          (set_count m timer (count m timer - count m current))
place_from-step fuel timer current prev m le ne =
    ap (λ r. r >>= insert timer) (seek-step fuel timer current prev m le ne)

insert-before :
    (timer current prev : Ptr) (m : Mem)
    → count m timer < count m current
    → prev ≢ null
    → insert timer (record { mem = m; current = current; prev = prev })
      ≡ ok (
          link
            (link (set_count m current (count m current - count m timer)) timer current)
            prev
            timer)
unfolding insert
insert-before timer current prev m less ne =
    rw (lt→ltb (count m timer) (count m current) less, ne→== prev null ne) refl

insert-behind :
    (timer current prev : Ptr) (m : Mem)
    → count m current ≤ count m timer
    → insert timer (record { mem = m; current = current; prev = prev })
      ≡ ok (
          link
            (link (set_count m timer (count m timer - count m current)) timer null)
            current
            timer)
unfolding insert
insert-behind timer current prev m le = rw (le→ltb (count m timer) (count m current) le) refl

pub place_from-before :
    (fuel : ℕ) (timer current prev : Ptr) (m : Mem)
    → count m timer < count m current
    → prev ≢ null
    → place_from (suc fuel) timer current prev m
      ≡ ok (
          link
            (link (set_count m current (count m current - count m timer)) timer current)
            prev
            timer)
place_from-before fuel timer current prev m less ne =
    ap (λ r. r >>= insert timer) (seek-before fuel timer current prev m less)
    ∙ insert-before timer current prev m less ne

pub place_from-last :
    (fuel : ℕ) (timer current prev : Ptr) (m : Mem)
    → count m current ≤ count m timer
    → m.next current ≡ null
    → place_from (suc fuel) timer current prev m
      ≡ ok (
          link
            (link (set_count m timer (count m timer - count m current)) timer null)
            current
            timer)
place_from-last fuel timer current prev m le e =
    ap (λ r. r >>= insert timer) (seek-last fuel timer current prev m le e)
    ∙ insert-behind timer current prev m le
