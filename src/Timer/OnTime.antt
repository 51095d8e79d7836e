-- ===== src/Timer/OnTime.antt =====
-- From the start of a timer to its message in the mailbox.
use publisher_subscriber_ser.Base.{
  ℕ, ◌+◌, ◌<◌, ◌≤◌, ◌≡◌, ◌≢◌, ◌⊎◌, inl, inr, refl, ap, sym, ◌∙◌, List, [], ◌∷◌, ◌++◌, arith, length,
  leb, ◌==◌, Run, ok, ◌>>=◌, Bool-cases, eq→==, leb→le, lt→leb, le→leb,
}
use mathlib.Core.Path.{subst}
use publisher_subscriber_ser.Memory.{Ptr}
use publisher_subscriber_ser.Line.{Out}
use publisher_subscriber_ser.PostOffice.{Office}
use publisher_subscriber_ser.Timer.{CTimer, ticks, start_timer}
use publisher_subscriber_ser.Timer.Delta.{Waiting, timers, deadlines, place_by}
use publisher_subscriber_ser.Timer.Elapse.{Live, due}
use publisher_subscriber_ser.Timer.Sent.{addressee, Running}
use publisher_subscriber_ser.Timer.Served.{run_ticks, for_box, run_ticks-Served}
use publisher_subscriber_ser.Timer.Starts.{Startable, start_timer-Started}

-- `a` is one of the elements.
abbrev pub In : Ptr → List Ptr → Type 0
In a [] = ⊥
In a (x ∷ xs) = (a ≡ x) ⊎ In a xs

Out-deadlines :
    (a : Ptr) (base : ℕ) (ts : List Waiting)
    → Out a (timers ts)
    → Out a (timers (deadlines base ts))
unfolding deadlines
Out-deadlines a base [] o = tt
Out-deadlines a base (x ∷ ts) o = (o.0, Out-deadlines a (base + x.wait) ts o.1)

length-deadlines : (base : ℕ) (ts : List Waiting) → length (deadlines base ts) ≡ length ts
unfolding deadlines
length-deadlines base [] = refl
length-deadlines base (x ∷ ts) =
    let rest = length-deadlines (base + x.wait) ts in omega (arith, rest)

length-place_by : (a : Ptr) (k : ℕ) (ts : List Waiting) → length (place_by a k ts) ≡ length ts + 1
unfolding place_by
length-place_by a k [] = refl
length-place_by a k (x ∷ ts) = elim (Bool-cases (leb x.wait k)) [
  | inl e ↦ rw e (omega (arith, length-place_by a k ts))
  | inr e ↦ rw e (omega arith)
]

-- Before its ticks are over it is not due, and from then on it is.
Out-due : (a : Ptr) (n : ℕ) (ts : List Waiting) → Out a (timers ts) → Out a (due n ts)
unfolding due
Out-due a n [] o = tt
Out-due a n (x ∷ ts) o = elim (Bool-cases (leb x.wait n)) [
  | inl e ↦ rw e (o.0, Out-due a n ts o.1)
  | inr e ↦ rw e (Out-due a n ts o.1)
]

due-early :
    (a : Ptr) (k n : ℕ) (ts : List Waiting)
    → n < k
    → Out a (timers ts)
    → Out a (due n (place_by a k ts))
unfolding due place_by
due-early a k n [] less o = rw (lt→leb k n less) tt
due-early a k n (x ∷ ts) less o = elim (Bool-cases (leb x.wait k)) [
  | inl e ↦ elim (Bool-cases (leb x.wait n)) [
    | inl f ↦ rw (e, f) (o.0, due-early a k n ts less o.1)
    | inr f ↦ rw (e, f) (due-early a k n ts less o.1)
  ]
  | inr e ↦ rw (e, lt→leb k n less) (Out-due a n (x ∷ ts) o)
]

due-In : (a : Ptr) (k n : ℕ) (ts : List Waiting) → k ≤ n → In a (due n (place_by a k ts))
unfolding due place_by
due-In a k n [] le = rw (le→leb k n le) (inl refl)
due-In a k n (x ∷ ts) le = elim (Bool-cases (leb x.wait k)) [
  | inl e ↦
      let low = leb→le x.wait k e in
      rw (e, le→leb x.wait n (omega (arith, low, le))) (inr (due-In a k n ts le))
  | inr e ↦ rw (e, le→leb k n le) (inl refl)
]

Out-for_box : (to : Ptr → ℕ) (a : Ptr) (j : ℕ) (xs : List Ptr) → Out a xs → Out a (for_box to j xs)
unfolding for_box
Out-for_box to a j [] o = tt
Out-for_box to a j (x ∷ xs) o = elim (Bool-cases (j == to x)) [
  | inl e ↦ rw e (o.0, Out-for_box to a j xs o.1)
  | inr e ↦ rw e (Out-for_box to a j xs o.1)
]

In-for_box : (to : Ptr → ℕ) (a : Ptr) (xs : List Ptr) → In a xs → In a (for_box to (to a) xs)
unfolding for_box
In-for_box to a [] h = elim h [ ]
In-for_box to a (x ∷ xs) (inl e) = rw (eq→== (to a) (to x) (ap to e)) (inl e)
In-for_box to a (x ∷ xs) (inr h) = elim (Bool-cases (to a == to x)) [
  | inl e ↦ rw e (inr (In-for_box to a xs h))
  | inr e ↦ rw e (In-for_box to a xs h)
]

Out-both : (a : Ptr) (xs ys : List Ptr) → Out a xs → Out a ys → Out a (xs ++ ys)
Out-both a [] ys o p = p
Out-both a (x ∷ xs) ys o p = (o.0, Out-both a xs ys o.1 p)

In-right : (a : Ptr) (xs ys : List Ptr) → In a ys → In a (xs ++ ys)
In-right a [] ys h = h
In-right a (x ∷ xs) ys h = inr (In-right a xs ys h)

-- After the start and the ticks the timer's message is in its mailbox if the ticks it was set for
-- are over, and in no mailbox if they are not.
pub record Delivered (run : Run CTimer) (n ticks : ℕ) (t : CTimer) (timer : Ptr) (mail_box_id : ℕ)
    : Type 0 where
  pub office : Office
  pub now : List Waiting
  pub boxes_now : ℕ → List Ptr
  pub returns : run ≡ ok (record t { office = office })
  pub running : Running (record t { office = office }) now boxes_now
  pub late : ticks ≤ n → In timer (boxes_now mail_box_id)
  pub early : n < ticks → (k : ℕ) → k < t.office.post.mail_boxes_num → Out timer (boxes_now k)

waiting-length :
    (now ts : List Waiting) (timer : Ptr) (v : ℕ)
    → deadlines 0 now ≡ place_by timer v (deadlines 0 ts)
    → length now ≡ length ts + 1
waiting-length now ts timer v e =
    sym (length-deadlines 0 now)
    ∙ ap length e
    ∙ length-place_by timer v (deadlines 0 ts)
    ∙ ap (λ k. k + 1) (length-deadlines 0 ts)

-- A timer is started for a positive number of ticks, in a buffer that is in use nowhere else and
-- for a mailbox that there is, and the handler is then called `n` times, with two more of fuel
-- than timers: the program ends, the timers and the mailboxes are in order, and the timer's
-- message is in the mailbox it was started for if `n` is the number of ticks or more, and in no
-- mailbox if it is less.
pub start_timer-run_ticks :
    (n fuel : ℕ) (timer : Ptr) (mail_box_id count timer_res : ℕ) (t : CTimer) (ts : List Waiting)
    (boxes : ℕ → List Ptr)
    → Running t ts boxes
    → Live ts
    → Startable t timer mail_box_id ts boxes
    → count ≢ 0
    → 0 < ticks t count timer_res
    → length ts + 1 < fuel
    → Delivered
        (start_timer fuel timer mail_box_id count timer_res t >>= run_ticks n fuel)
        n
        (ticks t count timer_res)
        t
        timer
        mail_box_id
start_timer-run_ticks n fuel timer mail_box_id count timer_res t ts boxes run live s ne pos enough =
    let v = ticks t count timer_res in
    let a = start_timer-Started fuel timer mail_box_id count timer_res t ts boxes run s ne enough in
    let t1 = record t { office = record t.office { mem = a.mem } } in
    let h =
      run_ticks-Served n fuel t1 a.now boxes a.running (a.live live pos)
        (omega (arith, waiting-length a.now ts timer v a.waiting, enough)) in
    let to = addressee a.mem in
    let all : (k : ℕ)
        → h.boxes_now k ≡ boxes k ++ for_box to k (due n (place_by timer v (deadlines 0 ts))) =
      λ k. h.delivered k ∙ ap (λ l. boxes k ++ for_box to k (due n l)) a.waiting in
    record {
      office = h.office;
      now = h.now;
      boxes_now = h.boxes_now;
      returns = ap (λ r. r >>= run_ticks n fuel) a.returns ∙ h.returns;
      running = h.running;
      late = λ le. subst (In timer) (sym (all mail_box_id)) (
          In-right timer (boxes mail_box_id)
            (for_box to mail_box_id (due n (place_by timer v (deadlines 0 ts))))
            (subst (λ k. In timer (for_box to k (due n (place_by timer v (deadlines 0 ts)))))
              a.for_box
              (In-for_box to timer (due n (place_by timer v (deadlines 0 ts)))
                (due-In timer v n (deadlines 0 ts) le))));
      early = λ less k inside. subst (Out timer) (sym (all k)) (
          Out-both timer (boxes k) (for_box to k (due n (place_by timer v (deadlines 0 ts))))
            (s.unsent k inside)
            (Out-for_box to timer k (due n (place_by timer v (deadlines 0 ts)))
              (due-early timer v n (deadlines 0 ts) less (Out-deadlines timer 0 ts s.out))));
    }
