-- ===== src/Timer/Adds.antt =====
-- `Add` puts a timer in its place in the delta list.
use publisher_subscriber_ser.Base.{
  ℕ, zero, suc, ◌+◌, ◌-◌, ◌^◌, ◌<◌, ◌≡◌, ◌≢◌, inl, inr, refl, ap, sym, ◌∙◌, List, [], ◌∷◌, arith,
  length, leb, Run, ok, thrown, aborted, fault, out_of_fuel, ◌>>=◌, leb→le, leb→lt, Bool-cases,
}
use publisher_subscriber_ser.Memory.{Ptr, null, Mem, get_uint32}
use publisher_subscriber_ser.Line.{Out}
use publisher_subscriber_ser.Timer.{
  CTimer, count, set_count, link, seek, insert, add, disable_timer, enable_timer,
}
use publisher_subscriber_ser.Timer.Delta.{Waiting, timers, place, Out-place}
use publisher_subscriber_ser.Timer.Chain.{IsDelta}
use publisher_subscriber_ser.Timer.Seek.{
  Placed, Fits, Fits-set_count, Fits-behind, before-Placed, behind-Placed, last-Placed,
  Placed-set_count,
}
use publisher_subscriber_ser.Timer.Steps.{
  place_from, place_from-step, place_from-before, place_from-last,
}

-- The program ends, and the timer is in its place.
pub record Found (run : Run Mem) (m : Mem) (prev timer : Ptr) (ticks : ℕ) (ts : List Waiting)
    : Type 0 where
  pub mem : Mem
  pub returns : run ≡ ok mem
  pub place : Placed m mem prev timer ticks ts

-- The ticks as the list has them.
counts_read :
    (m : Mem) (current timer : Ptr) (wait ticks : ℕ) (F : ℕ → Run Mem)
    → count m current ≡ wait
    → count m timer ≡ ticks
    → F (count m timer - count m current) ≡ F (ticks - wait)
counts_read m current timer wait ticks F e f =
    ap F (ap (λ k. k - count m current) f ∙ ap (λ k. ticks - k) e)

before-Found :
    (fuel : ℕ) (m : Mem) (prev timer : Ptr) (ticks : ℕ) (x : Waiting) (ts : List Waiting)
    → Fits m prev timer ticks (x ∷ ts)
    → ticks < x.wait
    → Found (place_from (suc fuel) timer x.timer prev m) m prev timer ticks (x ∷ ts)
before-Found fuel m prev timer ticks x ts f less = record {
  mem = link (link (set_count m x.timer (x.wait - ticks)) timer x.timer) prev timer;
  returns =
      place_from-before fuel timer x.timer prev m (omega (arith, f.delta.counts.0, f.counted, less))
        f.before
      ∙ counts_read m timer x.timer ticks x.wait
          (λ v. ok (link (link (set_count m x.timer v) timer x.timer) prev timer)) f.counted
          f.delta.counts.0;
  place = before-Placed m prev timer ticks x ts f less;
}

-- From the first timer of a list on, `Add` puts the timer in its place.
place_from-Found :
    (fuel : ℕ) (m : Mem) (prev timer : Ptr) (ticks : ℕ) (x : Waiting) (ts : List Waiting)
    → Fits m prev timer ticks (x ∷ ts)
    → length ts < fuel
    → Found (place_from fuel timer x.timer prev m) m prev timer ticks (x ∷ ts)
place_from-Found zero m prev timer ticks x ts f enough = absurd (omega (arith, enough))
place_from-Found (suc fuel) m prev timer ticks x [] f enough =
    elim (Bool-cases (leb x.wait ticks)) [
      | inl e ↦
          let le = leb→le x.wait ticks e in
          record {
            mem = link (link (set_count m timer (ticks - x.wait)) timer null) x.timer timer;
            returns =
                place_from-last fuel timer x.timer prev m
                  (omega (arith, f.delta.counts.0, f.counted, le)) f.delta.chain.3
                ∙ counts_read m x.timer timer x.wait ticks
                    (λ v. ok (link (link (set_count m timer v) timer null) x.timer timer))
                    f.delta.counts.0 f.counted;
            place =
                behind-Placed m
                  (link (link (set_count m timer (ticks - x.wait)) timer null) x.timer timer) prev
                  timer ticks x [] f le
                  (last-Placed (set_count m timer (ticks - x.wait)) x.timer timer (ticks - x.wait)
                    (Fits-behind m prev timer ticks x [] f));
          }
      | inr e ↦ before-Found fuel m prev timer ticks x [] f (leb→lt x.wait ticks e)
    ]
place_from-Found (suc fuel) m prev timer ticks x (y ∷ ts) f enough =
    elim (Bool-cases (leb x.wait ticks)) [
      | inl e ↦
          let le = leb→le x.wait ticks e in
          let rest =
            place_from-Found fuel (set_count m timer (ticks - x.wait)) x.timer timer
              (ticks - x.wait) y ts (Fits-behind m prev timer ticks x (y ∷ ts) f)
              (omega (arith, enough)) in
          record {
            mem = rest.mem;
            returns =
                place_from-step fuel timer x.timer prev m
                  (omega (arith, f.delta.counts.0, f.counted, le))
                  (λ n. f.delta.chain.3.1 (sym f.delta.chain.3.0 ∙ n))
                ∙ ap
                    (λ q.
                      place_from fuel timer q x.timer
                        (set_count m timer (count m timer - count m x.timer)))
                    f.delta.chain.3.0
                ∙ counts_read m x.timer timer x.wait ticks
                    (λ v. place_from fuel timer y.timer x.timer (set_count m timer v))
                    f.delta.counts.0 f.counted
                ∙ rest.returns;
            place = behind-Placed m rest.mem prev timer ticks x (y ∷ ts) f le rest.place;
          }
      | inr e ↦ before-Found fuel m prev timer ticks x (y ∷ ts) f (leb→lt x.wait ticks e)
    ]

-- A timer list: the dummy message at its head, and the timers.
pub record IsTimers (t : CTimer) (ts : List Waiting) : Type 0 where
  pub delta : IsDelta t.office.mem (t.office.mem.next t.head) ts
  pub dummy : count t.office.mem t.head ≡ 0
  pub live : t.head ≢ null
  pub outside : Out t.head (timers ts)

-- The timer is in the list when `Add` has run, and nothing else has changed.
pub record Added (run : Run CTimer) (t : CTimer) (timer : Ptr) (ticks : ℕ) (ts : List Waiting)
    : Type 0 where
  pub mem : Mem
  pub returns : run ≡ ok (record t { office = record t.office { mem = mem } })
  pub place : Placed t.office.mem mem t.head timer ticks ts

head-Found :
    (fuel : ℕ) (m : Mem) (head timer : Ptr) (ticks : ℕ) (ts : List Waiting)
    → Fits m head timer ticks ts
    → count m head ≡ 0
    → length ts < fuel
    → Found (place_from (suc fuel) timer head null m) m head timer ticks ts
head-Found fuel m head timer ticks [] f dummy enough =
    let same : (F : ℕ → Run Mem) → F (count m timer - count m head) ≡ F ticks =
      λ F. counts_read m head timer 0 ticks F dummy f.counted ∙ ap F (omega arith) in
    let h =
      last-Placed (set_count m timer ticks) head timer ticks
        (Fits-set_count m head timer ticks ticks [] f f.small) in
    record {
      mem = link (link (set_count m timer ticks) timer null) head timer;
      returns =
          place_from-last fuel timer head null m (omega (arith, dummy)) f.delta.chain
          ∙ same (λ v. ok (link (link (set_count m timer v) timer null) head timer));
      place =
          Placed-set_count m (link (link (set_count m timer ticks) timer null) head timer) head
            timer ticks ticks [] h;
    }
head-Found fuel m head timer ticks (x ∷ ts) f dummy enough =
    let rest =
      place_from-Found fuel (set_count m timer ticks) head timer ticks x ts
        (Fits-set_count m head timer ticks ticks (x ∷ ts) f f.small) (omega (arith, enough)) in
    record {
      mem = rest.mem;
      returns =
          place_from-step fuel timer head null m (omega (arith, dummy))
            (λ n. f.delta.chain.1 (sym f.delta.chain.0 ∙ n))
          ∙ counts_read m head timer 0 ticks
              (λ v. place_from fuel timer (m.next head) head (set_count m timer v)) dummy f.counted
          ∙ ap (λ v. place_from fuel timer (m.next head) head (set_count m timer v)) (omega arith)
          ∙ ap (λ q. place_from fuel timer q head (set_count m timer ticks)) f.delta.chain.0
          ∙ rest.returns;
      place = Placed-set_count m rest.mem head timer ticks ticks (x ∷ ts) rest.place;
    }

-- What a timer needs to be added.
pub record Addable (t : CTimer) (timer : Ptr) (ticks : ℕ) (ts : List Waiting) : Type 0 where
  pub counted : count t.office.mem timer ≡ ticks
  pub small : ticks < 2 ^ 32
  pub live : timer ≢ null
  pub apart : t.head ≢ timer
  pub out : Out timer (timers ts)

bind-bind :
    {A B C : Type 0} (r : Run A) (f : A → Run B) (g : B → Run C)
    → (r >>= λ a. f a >>= g) ≡ ((r >>= f) >>= g)
bind-bind (ok a) f g = refl
bind-bind (thrown e) f g = refl
bind-bind aborted f g = refl
bind-bind fault f g = refl
bind-bind out_of_fuel f g = refl

add-found :
    (fuel : ℕ) (timer : Ptr) (t : CTimer) (m : Mem)
    → place_from fuel timer t.head null t.office.mem ≡ ok m
    → add fuel timer t ≡ ok (record t { office = record t.office { mem = m } })
unfolding add disable_timer enable_timer
add-found fuel timer t m e =
    let done : ℕ → Mem → Run CTimer =
      λ locks m. ok (record t { office = record t.office { mem = m }; locks = locks }) in
    bind-bind (seek fuel timer t.head null t.office.mem) (insert timer) (done (t.locks + 1 - 1))
    ∙ ap (λ r. r >>= done (t.locks + 1 - 1)) e
    ∙ ap (λ k. done k m) (omega arith)

pub add-Added :
    (fuel : ℕ) (t : CTimer) (timer : Ptr) (ticks : ℕ) (ts : List Waiting)
    → IsTimers t ts
    → Addable t timer ticks ts
    → length ts + 1 < fuel
    → Added (add fuel timer t) t timer ticks ts
add-Added zero t timer ticks ts is a enough = absurd (omega (arith, enough))
add-Added (suc fuel) t timer ticks ts is a enough =
    let f : Fits t.office.mem t.head timer ticks ts = record {
      delta = is.delta;
      counted = a.counted;
      small = a.small;
      live = a.live;
      out = a.out;
      before = is.live;
      apart = a.apart;
      out_before = is.outside;
    } in
    let h = head-Found fuel t.office.mem t.head timer ticks ts f is.dummy (omega (arith, enough)) in
    record { mem = h.mem; returns = add-found (suc fuel) timer t h.mem h.returns; place = h.place }

-- The list with the timer in its place is a timer list.
pub Added-IsTimers :
    (t : CTimer) (timer : Ptr) (ticks : ℕ) (ts : List Waiting) (m : Mem)
    → IsTimers t ts
    → Addable t timer ticks ts
    → Placed t.office.mem m t.head timer ticks ts
    → IsTimers (record t { office = record t.office { mem = m } }) (place timer ticks ts)
Added-IsTimers t timer ticks ts m is a h = record {
  delta = h.placed;
  dummy = ap (λ b. get_uint32 b 6) (h.counts t.head (a.apart, is.outside)) ∙ is.dummy;
  live = is.live;
  outside = Out-place t.head timer ticks ts a.apart is.outside;
}
