-- ===== src/Timer/Ticks.antt =====
-- One call of `TimerIntHandler`: the timers whose ticks are over go to their mailboxes.
use publisher_subscriber_ser.Base.{
  ℕ, zero, suc, ◌^◌, ◌<◌, ◌≡◌, ◌≢◌, refl, sym, ◌∙◌, List, [], ◌∷◌, All, arith, length, ◌==◌, ok,
  ◌>>=◌, ne→==, eq→==, Bool-cases, inl, inr, ==→eq, ==→ne,
}
use mathlib.Core.Path.{subst}
use publisher_subscriber_ser.Memory.{Ptr, null, Mem, store_uint32}
use publisher_subscriber_ser.PostOffice
use publisher_subscriber_ser.PostOffice.{Office, TPostOffice}
use publisher_subscriber_ser.PostOffice.Holds.{same_next-OfficeHolds, posted_to}
use publisher_subscriber_ser.Timer.{CTimer, timer_mbx_id, count, set_count, expire}
use publisher_subscriber_ser.Timer.Delta.{Waiting, expired, unexpired}
use publisher_subscriber_ser.Timer.Chain.{
  count-set_count, count-set_count_ne, Counts-set_count, bytes-set_count,
}
use publisher_subscriber_ser.Timer.Sent.{
  addressee, posted, Running, Ticked, taken, first_sent, sent-Running, sent-returns, sent_bytes,
  sent_code,
}

expire-over :
    (fuel : ℕ) (t : CTimer) (x : Ptr)
    → t.office.mem.next t.head ≡ x
    → x ≢ null
    → count t.office.mem x ≢ 0
    → expire (suc fuel) t ≡ ok t
unfolding expire
expire-over fuel t x at live left =
    rw (expire, at, ne→== x null live, at, ne→== (count t.office.mem x) 0 left) refl

expire-last :
    (fuel : ℕ) (t : CTimer) (x : Ptr) (w : Office)
    → t.office.mem.next t.head ≡ x
    → x ≢ null
    → count t.office.mem x ≡ 0
    → PostOffice.add (addressee t.office.mem x) x (taken t x) ≡ ok w
    → w.mem.next t.head ≡ null
    → expire (suc fuel) t ≡ ok (record t { office = w })
unfolding expire
expire-last fuel t x w at live over sent last =
    rw
      (
        expire,
        at,
        ne→== x null live,
        at,
        eq→== (count t.office.mem x) 0 over,
        at,
        sent,
        ◌>>=◌,
        eq→== (w.mem.next t.head) null last,
      )
      refl

expire-more :
    (fuel : ℕ) (t : CTimer) (x : Ptr) (w : Office)
    → t.office.mem.next t.head ≡ x
    → x ≢ null
    → count t.office.mem x ≡ 0
    → PostOffice.add (addressee t.office.mem x) x (taken t x) ≡ ok w
    → w.mem.next t.head ≢ null
    → expire (suc fuel) t ≡ expire fuel (record t { office = w })
unfolding expire
expire-more fuel t x w at live over sent more =
    rw
      (
        expire,
        at,
        ne→== x null live,
        at,
        eq→== (count t.office.mem x) 0 over,
        at,
        sent,
        ◌>>=◌,
        ne→== (w.mem.next t.head) null more,
      )
      refl

Running-boxes :
    (t : CTimer) (ts : List Waiting) (f g : ℕ → List Ptr) → f ≡ g → Running t ts f → Running t ts g
Running-boxes t ts f g e h = subst (Running t ts) e h

-- Nothing is over.
over-Ticked :
    (fuel : ℕ) (t : CTimer) (x : Waiting) (ts : List Waiting) (boxes : ℕ → List Ptr)
    → Running t (x ∷ ts) boxes
    → x.wait ≢ 0
    → Ticked (expire (suc fuel) t) t (x ∷ ts) boxes
over-Ticked fuel t x ts boxes run left = record {
  office = t.office;
  returns =
      expire-over fuel t x.timer run.list.delta.chain.0 run.list.delta.chain.1
        (λ e. left (sym run.list.delta.counts.0 ∙ e));
  running = run;
  bytes = refl;
  code = refl;
  boxes_num = refl;
}

-- The end of a list that starts with a timer whose ticks are over, from what the rest comes to.
more-Ticked :
    (fuel : ℕ) (t : CTimer) (x : Waiting) (ts now : List Waiting) (boxes after : ℕ → List Ptr)
    (run : Running t (x ∷ ts) boxes)
    → expire (suc fuel) t ≡ expire fuel (record t { office = first_sent t x ts boxes run })
    → Ticked
        (expire fuel (record t { office = first_sent t x ts boxes run }))
        (record t { office = first_sent t x ts boxes run })
        now
        after
    → Ticked (expire (suc fuel) t) t now after
more-Ticked fuel t x ts now boxes after run e h = record {
  office = h.office;
  returns = e ∙ h.returns;
  running = h.running;
  bytes = h.bytes ∙ sent_bytes t x ts boxes run;
  code = h.code ∙ sent_code t x ts boxes run;
  boxes_num = h.boxes_num;
}

pub expire-Ticked :
    (fuel : ℕ) (t : CTimer) (x : Waiting) (ts : List Waiting) (boxes : ℕ → List Ptr)
    → Running t (x ∷ ts) boxes
    → length ts < fuel
    → Ticked
        (expire fuel t)
        t
        (unexpired (x ∷ ts))
        (posted (addressee t.office.mem) (expired (x ∷ ts)) boxes)
unfolding expired unexpired posted
expire-Ticked zero t x ts boxes run enough = absurd (omega (arith, enough))
expire-Ticked (suc fuel) t x [] boxes run enough = elim (Bool-cases (x.wait == 0)) [
  | inl e ↦ rw e (record {
    office = first_sent t x [] boxes run;
    returns =
        expire-last fuel t x.timer (first_sent t x [] boxes run) run.list.delta.chain.0
          run.list.delta.chain.1 (run.list.delta.counts.0 ∙ ==→eq x.wait 0 e)
          (sent-returns t x [] boxes run) (sent-Running t x [] boxes run).list.delta.chain;
    running = sent-Running t x [] boxes run;
    bytes = sent_bytes t x [] boxes run;
    code = sent_code t x [] boxes run;
    boxes_num = refl;
  })
  | inr e ↦ rw e (over-Ticked fuel t x [] boxes run (==→ne x.wait 0 e))
]
expire-Ticked (suc fuel) t x (y ∷ ts) boxes run enough = elim (Bool-cases (x.wait == 0)) [
  | inl e ↦
      let w = first_sent t x (y ∷ ts) boxes run in
      let t' = record t { office = w } in
      let run' = sent-Running t x (y ∷ ts) boxes run in
      let boxes' = posted_to boxes (addressee t.office.mem x.timer) x.timer in
      let rest =
        subst
          (λ b.
            Ticked (expire fuel t') t' (unexpired (y ∷ ts))
              (posted (λ p. b p timer_mbx_id) (expired (y ∷ ts)) boxes'))
          (sent_bytes t x (y ∷ ts) boxes run)
          (expire-Ticked fuel t' y ts boxes' run' (omega (arith, enough))) in
      rw e (
        more-Ticked fuel t x (y ∷ ts) (unexpired (y ∷ ts)) boxes
          (posted (addressee t.office.mem) (expired (y ∷ ts)) boxes') run
          (expire-more fuel t x.timer w run.list.delta.chain.0 run.list.delta.chain.1
            (run.list.delta.counts.0 ∙ ==→eq x.wait 0 e) (sent-returns t x (y ∷ ts) boxes run)
            (λ n. run'.list.delta.chain.1 (sym run'.list.delta.chain.0 ∙ n)))
          rest)
  | inr e ↦ rw e (over-Ticked fuel t x (y ∷ ts) boxes run (==→ne x.wait 0 e))
]

pub addressee-set_count :
    (m : Mem) (p : Ptr) (v : ℕ) (q : Ptr) → addressee (set_count m p v) q ≡ addressee m q
addressee-set_count m p v q = bytes-set_count m p v q timer_mbx_id (inl (omega arith))

set_count-addressed :
    (m : Mem) (p : Ptr) (v n : ℕ) (ts : List Waiting)
    → All (λ x. addressee m x.timer < n) ts
    → All (λ x. addressee (set_count m p v) x.timer < n) ts
set_count-addressed m p v n [] h = tt
set_count-addressed m p v n (x ∷ ts) h =
    (omega (arith, addressee-set_count m p v x.timer, h.0), set_count-addressed m p v n ts h.1)

-- The first timer has one tick less.
pub Running-set_count :
    (t : CTimer) (x : Waiting) (ts : List Waiting) (boxes : ℕ → List Ptr) (v : ℕ)
    → Running t (x ∷ ts) boxes
    → v < 2 ^ 32
    → Running
        (record t { office = record t.office { mem = set_count t.office.mem x.timer v } })
        (record x { wait = v } ∷ ts)
        boxes
unfolding store_uint32
Running-set_count t x ts boxes v run small =
    let m = t.office.mem in
    record {
      list = record {
        delta = record {
          chain = run.list.delta.chain;
          counts = (
            count-set_count m x.timer v small,
            Counts-set_count m x.timer v ts run.list.delta.chain.2 run.list.delta.counts.1,
          );
          small = (small, run.list.delta.small.1);
        };
        dummy = count-set_count_ne m x.timer t.head v run.list.outside.0 ∙ run.list.dummy;
        live = run.list.live;
        outside = run.list.outside;
      };
      office = same_next-OfficeHolds t.office boxes (set_count m x.timer v) refl run.office;
      apart = run.apart;
      addressed =
          set_count-addressed m x.timer v t.office.post.mail_boxes_num (x ∷ ts) run.addressed;
    }
