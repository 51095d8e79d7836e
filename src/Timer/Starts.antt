-- ===== src/Timer/Starts.antt =====
-- `StartTimer`: the timer gets its ticks, the mailbox that it is for, and its place among the others.
use publisher_subscriber_ser.Base.{
  ℕ, ◌+◌, ◌-◌, ◌<◌, ◌≡◌, ◌≢◌, refl, ap, sym, ◌∙◌, List, [], ◌∷◌, All, arith, length, leb, Run, ok,
  ◌>>=◌, ne→==, inl, inr, Bool-cases,
}
use mathlib.Core.Path.{subst}
use publisher_subscriber_ser.Memory.{Ptr, null, Mem}
use publisher_subscriber_ser.Line.{Out}
use publisher_subscriber_ser.PostOffice.Holds.{OutOfBoxes}
use publisher_subscriber_ser.Timer.{CTimer, timer_mbx_id, count, add, ticks, start_timer}
use publisher_subscriber_ser.Timer.Delta.{
  Waiting, timers, deadlines, place, place_by, deadlines-place, Out-place,
}
use publisher_subscriber_ser.Timer.Elapse.{Live, place-Live}
use publisher_subscriber_ser.Timer.Seek.{Placed}
use publisher_subscriber_ser.Timer.Adds.{Addable, add-Added, Added-IsTimers}
use publisher_subscriber_ser.Timer.Sent.{addressee, Running}
use publisher_subscriber_ser.Timer.Ready.{
  ready, ready-count, ready-addressee, ready-bytes, ready-next, ready-code, ready-IsTimers,
  same_links-OfficeHolds,
}

-- What `StartTimer` needs of the timer's buffer and of the mailbox: the buffer is in use nowhere
-- else, and there is such a mailbox.
pub record Startable (t : CTimer) (timer : Ptr) (mail_box_id : ℕ) (ts : List Waiting)
    (boxes : ℕ → List Ptr) : Type 0 where
  pub live : timer ≢ null
  pub apart : t.head ≢ timer
  pub out : Out timer (timers ts)
  pub unsent : OutOfBoxes t.office.post.mail_boxes_num timer boxes
  pub inside : mail_box_id < t.office.post.mail_boxes_num
  pub byte : mail_box_id < 256

-- The program ends, and the timer with so many ticks runs beside the others.
pub record Started (run : Run CTimer) (t : CTimer) (timer : Ptr) (mail_box_id ticks : ℕ)
    (ts : List Waiting) (boxes : ℕ → List Ptr) : Type 0 where
  pub mem : Mem
  pub now : List Waiting
  pub returns : run ≡ ok (record t { office = record t.office { mem = mem } })
  pub running : Running (record t { office = record t.office { mem = mem } }) now boxes
  pub live : Live ts → 0 < ticks → Live now
  pub waiting : deadlines 0 now ≡ place_by timer ticks (deadlines 0 ts)
  pub for_box : addressee mem timer ≡ mail_box_id
  pub codes : mem.code ≡ t.office.mem.code

apart-place :
    (head timer : Ptr) (ticks : ℕ) (ts : List Waiting) (xs : List Ptr)
    → All (λ b. Out b (head ∷ timers ts)) xs
    → Out timer xs
    → All (λ b. Out b (head ∷ timers (place timer ticks ts))) xs
apart-place head timer ticks ts [] h out = tt
apart-place head timer ticks ts (b ∷ xs) h out = (
  (h.0.0, Out-place b timer ticks ts (λ e. out.0 (sym e)) h.0.1),
  apart-place head timer ticks ts xs h.1 out.1,
)

All-place :
    (A : Ptr → Type 0) (timer : Ptr) (ticks : ℕ) (ts : List Waiting)
    → A timer
    → All (λ x. A x.timer) ts
    → All (λ x. A x.timer) (place timer ticks ts)
unfolding place
All-place A timer ticks [] a h = (a, tt)
All-place A timer ticks (x ∷ ts) a h = elim (Bool-cases (leb x.wait ticks)) [
  | inl e ↦ rw e (h.0, All-place A timer (ticks - x.wait) ts a h.1)
  | inr e ↦ rw e (a, h)
]

same-addressed :
    (m m' : Mem) (n : ℕ) (ts : List Waiting)
    → All (λ x. addressee m' x.timer ≡ addressee m x.timer) ts
    → All (λ x. addressee m x.timer < n) ts
    → All (λ x. addressee m' x.timer < n) ts
same-addressed m m' n [] e h = tt
same-addressed m m' n (x ∷ ts) e h = (omega (arith, e.0, h.0), same-addressed m m' n ts e.1 h.1)

ready-same :
    (m : Mem) (p : Ptr) (id v : ℕ) (ts : List Waiting)
    → Out p (timers ts)
    → All (λ x. addressee (ready m p id v) x.timer ≡ addressee m x.timer) ts
ready-same m p id v [] out = tt
ready-same m p id v (x ∷ ts) out = (
  ap (λ b. b timer_mbx_id) (ready-bytes m p id v x.timer (λ e. out.0 (sym e))),
  ready-same m p id v ts out.1,
)

-- The links of the messages in a mailbox are as before.
unlinked :
    (m m' : Mem) (head timer : Ptr) (ticks : ℕ) (ts : List Waiting) (xs : List Ptr)
    → Placed m m' head timer ticks ts
    → All (λ b. Out b (head ∷ timers ts)) xs
    → Out timer xs
    → All (λ q. m'.next q ≡ m.next q) xs
unlinked m m' head timer ticks ts [] h apart out = tt
unlinked m m' head timer ticks ts (b ∷ xs) h apart out = (
  h.links b apart.0.0 ((λ e. out.0 (sym e)), apart.0.1),
  unlinked m m' head timer ticks ts xs h apart.1 out.1,
)

started-Running :
    (t : CTimer) (timer : Ptr) (id v : ℕ) (ts : List Waiting) (boxes : ℕ → List Ptr)
    → Running t ts boxes
    → Startable t timer id ts boxes
    → Addable
        (record t { office = record t.office { mem = ready t.office.mem timer id v } })
        timer
        v
        ts
    → (m : Mem) → Placed (ready t.office.mem timer id v) m t.head timer v ts
    → Running (record t { office = record t.office { mem = m } }) (place timer v ts) boxes
started-Running t timer id v ts boxes run s fits m h =
    let old = t.office.mem in
    let m1 = ready old timer id v in
    record {
      list =
          Added-IsTimers (record t { office = record t.office { mem = m1 } }) timer v ts m
            (ready-IsTimers t timer id v ts run.list s.apart s.out) fits h;
      office =
          same_links-OfficeHolds t.office boxes m
            (λ k inside.
              subst (λ n. All (λ q. m.next q ≡ n q) (boxes k)) (ready-next old timer id v)
                (unlinked m1 m t.head timer v ts (boxes k) h (run.apart k inside)
                  (s.unsent k inside)))
            run.office;
      apart = λ k inside.
          apart-place t.head timer v ts (boxes k) (run.apart k inside) (s.unsent k inside);
      addressed =
          subst
            (λ (f : Ptr → ℕ).
              All (λ x. f x.timer < t.office.post.mail_boxes_num) (place timer v ts))
            (λ i q. sym (h.bytes q timer_mbx_id (inl (omega arith))) i)
            (All-place (λ q. addressee m1 q < t.office.post.mail_boxes_num) timer v ts
              (omega (arith, ready-addressee old timer id v s.byte, s.inside))
              (same-addressed old m1 t.office.post.mail_boxes_num ts
                (ready-same old timer id v ts s.out) run.addressed));
    }

start_timer-returns :
    (fuel : ℕ) (timer : Ptr) (mail_box_id count timer_res : ℕ) (t : CTimer)
    → count ≢ 0
    → start_timer fuel timer mail_box_id count timer_res t
      ≡ add fuel timer (record t {
        office = record t.office {
          mem = ready t.office.mem timer mail_box_id (ticks t count timer_res);
        };
      })
unfolding start_timer
start_timer-returns fuel timer mail_box_id count timer_res t ne =
    rw (start_timer, ne→== count 0 ne, ◌>>=◌) refl

-- A timer is started with a count that is not zero, in a buffer that is in use nowhere else and
-- for a mailbox that there is, with two more of fuel than timers: the program ends, the timer
-- runs for the number of ticks in the count, behind those that have as many left or fewer; the
-- others keep theirs, the mailboxes keep their messages, and no buffer is in two places.
pub start_timer-Started :
    (fuel : ℕ) (timer : Ptr) (mail_box_id count timer_res : ℕ) (t : CTimer) (ts : List Waiting)
    (boxes : ℕ → List Ptr)
    → Running t ts boxes
    → Startable t timer mail_box_id ts boxes
    → count ≢ 0
    → length ts + 1 < fuel
    → Started
        (start_timer fuel timer mail_box_id count timer_res t)
        t
        timer
        mail_box_id
        (ticks t count timer_res)
        ts
        boxes
start_timer-Started fuel timer mail_box_id count timer_res t ts boxes run s ne enough =
    let v = ticks t count timer_res in
    let m = t.office.mem in
    let m1 = ready m timer mail_box_id v in
    let t1 = record t { office = record t.office { mem = m1 } } in
    let is = ready-IsTimers t timer mail_box_id v ts run.list s.apart s.out in
    let fits : Addable t1 timer v ts = record {
      counted = ready-count m timer mail_box_id v (omega arith);
      small = omega arith;
      live = s.live;
      apart = s.apart;
      out = s.out;
    } in
    let h = add-Added fuel t1 timer v ts is fits enough in
    record {
      mem = h.mem;
      now = place timer v ts;
      returns = start_timer-returns fuel timer mail_box_id count timer_res t ne ∙ h.returns;
      running = started-Running t timer mail_box_id v ts boxes run s fits h.mem h.place;
      live = λ live pos. place-Live timer v ts pos live;
      waiting =
          deadlines-place 0 timer v ts ∙ ap (λ k. place_by timer k (deadlines 0 ts)) (omega arith);
      for_box =
          h.place.bytes timer timer_mbx_id (inl (omega arith))
          ∙ ready-addressee m timer mail_box_id v s.byte;
      codes = h.place.codes ∙ ready-code m timer mail_box_id v;
    }
