-- ===== src/Timer/Handler.antt =====
-- `TimerIntHandler`, called once or many times: every timer is delivered at the tick it was set for.
use publisher_subscriber_ser.Base.{
  ℕ, ◌+◌, ◌-◌, ◌%◌, ◌^◌, ◌<◌, ◌≡◌, ◌≢◌, refl, ap, ◌∙◌, List, [], ◌∷◌, arith, length, Run, ok, ◌>>=◌,
  ne→==, eq→==,
}
use mathlib.Core.Path.{subst}
use publisher_subscriber_ser.Memory.{Ptr, null}
use publisher_subscriber_ser.PostOffice.{Office}
use publisher_subscriber_ser.Timer.{
  CTimer, count, set_count, expire, timer_int_handler, disable_timer, enable_timer,
}
use publisher_subscriber_ser.Timer.Delta.{Waiting, expired, unexpired, tick}
use publisher_subscriber_ser.Timer.Chain.{Elsewhere, bytes-set_count, code-set_count}
use publisher_subscriber_ser.Timer.Elapse.{gone, left, Live, expired-tick, unexpired-tick}
use publisher_subscriber_ser.Timer.Sent.{addressee, posted, Running}
use publisher_subscriber_ser.Timer.Ticks.{expire-Ticked, Running-set_count, addressee-set_count}

-- The program ends with the timers `ts` and the mailboxes `boxes`; outside the ticks of the timers
-- no byte of a message has changed.
pub record Elapsed (run : Run CTimer) (t : CTimer) (ts : List Waiting) (boxes : ℕ → List Ptr)
    : Type 0 where
  pub office : Office
  pub returns : run ≡ ok (record t { office = office })
  pub running : Running (record t { office = office }) ts boxes
  pub bytes : (q : Ptr) (i : ℕ) → Elsewhere i → office.mem.bytes q i ≡ t.office.mem.bytes q i
  pub code : office.mem.code ≡ t.office.mem.code

Running-locks :
    (t : CTimer) (ts : List Waiting) (boxes : ℕ → List Ptr) (locks : ℕ)
    → Running t ts boxes
    → Running (record t { locks = locks }) ts boxes
Running-locks t ts boxes locks run = record {
  list = record {
    delta = run.list.delta;
    dummy = run.list.dummy;
    live = run.list.live;
    outside = run.list.outside;
  };
  office = run.office;
  apart = run.apart;
  addressed = run.addressed;
}

handler-empty :
    (fuel : ℕ) (t : CTimer) → t.office.mem.next t.head ≡ null → timer_int_handler fuel t ≡ ok t
unfolding timer_int_handler disable_timer enable_timer
handler-empty fuel t e =
    rw (timer_int_handler, eq→== (t.office.mem.next t.head) null e)
      (ap (λ k. ok (record t { locks = k })) (omega arith))

-- The timers with one tick less, and the lock held.
abbrev ticking : CTimer → Ptr → ℕ → CTimer
ticking t x v = record t {
  office = record t.office { mem = set_count t.office.mem x v };
  locks = t.locks + 1;
}

handler-first :
    (fuel : ℕ) (t : CTimer) (x : Ptr) (wait v : ℕ) (office : Office)
    → t.office.mem.next t.head ≡ x
    → x ≢ null
    → count t.office.mem x ≡ wait
    → (wait + 2 ^ 32 - 1) % 2 ^ 32 ≡ v
    → expire fuel (ticking t x v) ≡ ok (record (ticking t x v) { office = office })
    → timer_int_handler fuel t ≡ ok (record t { office = office })
unfolding timer_int_handler disable_timer enable_timer
handler-first fuel t x wait v office at live counted fewer e =
    rw (timer_int_handler, at, ne→== x null live, at, counted, fewer, e, ◌>>=◌)
      (ap (λ k. ok (record t { office = office; locks = k })) (omega arith))

-- One call, from what the first timer's ticks come to.
handler-Elapsed :
    (fuel : ℕ) (t : CTimer) (x : Waiting) (ts : List Waiting) (boxes : ℕ → List Ptr) (v : ℕ)
    → Running t (x ∷ ts) boxes
    → (x.wait + 2 ^ 32 - 1) % 2 ^ 32 ≡ v
    → v < 2 ^ 32
    → length ts < fuel
    → Elapsed
        (timer_int_handler fuel t)
        t
        (unexpired (record x { wait = v } ∷ ts))
        (posted (addressee t.office.mem) (expired (record x { wait = v } ∷ ts)) boxes)
handler-Elapsed fuel t x ts boxes v run fewer small enough =
    let m = t.office.mem in
    let set = record t { office = record t.office { mem = set_count m x.timer v } } in
    let list = record x { wait = v } ∷ ts in
    let h =
      expire-Ticked fuel (ticking t x.timer v) (record x { wait = v }) ts boxes
        (Running-locks set list boxes (t.locks + 1) (Running-set_count t x ts boxes v run small))
        enough in
    record {
      office = h.office;
      returns =
          handler-first fuel t x.timer x.wait v h.office run.list.delta.chain.0
            run.list.delta.chain.1 run.list.delta.counts.0 fewer h.returns;
      running =
          subst
            (λ to.
              Running (record t { office = h.office }) (unexpired list)
                (posted to (expired list) boxes))
            (λ i q. addressee-set_count m x.timer v q i)
            (Running-locks (record (ticking t x.timer v) { office = h.office }) (unexpired list)
              (posted (addressee (set_count m x.timer v)) (expired list) boxes) t.locks h.running);
      bytes = λ q i e. ap (λ b. b q i) h.bytes ∙ bytes-set_count m x.timer v q i e;
      code = h.code ∙ code-set_count m x.timer v;
    }

-- A timer whose ticks are zero before the handler runs, as `StartTimer` makes one for a resolution
-- finer than the system's: its ticks wrap to 2^32 - 1, no timer expires, and those behind it wait
-- as much longer.
pub timer_int_handler-underflow :
    (fuel : ℕ) (t : CTimer) (x : Waiting) (ts : List Waiting) (boxes : ℕ → List Ptr)
    → Running t (x ∷ ts) boxes
    → x.wait ≡ 0
    → length ts < fuel
    → Elapsed (timer_int_handler fuel t) t (record x { wait = 2 ^ 32 - 1 } ∷ ts) boxes
unfolding expired unexpired posted
timer_int_handler-underflow fuel t x ts boxes run zero_left enough =
    handler-Elapsed fuel t x ts boxes (2 ^ 32 - 1) run (omega (arith, zero_left)) (omega arith)
      enough

tick-Elapsed :
    (fuel : ℕ) (t : CTimer) (x : Waiting) (ts : List Waiting) (boxes : ℕ → List Ptr)
    → Running t (x ∷ ts) boxes
    → 0 < x.wait
    → length ts < fuel
    → Elapsed
        (timer_int_handler fuel t)
        t
        (unexpired (tick (x ∷ ts)))
        (posted (addressee t.office.mem) (expired (tick (x ∷ ts))) boxes)
unfolding tick
tick-Elapsed fuel t x ts boxes run pos enough =
    let small = run.list.delta.small.0 in
    handler-Elapsed fuel t x ts boxes (x.wait - 1) run (omega (arith, pos, small))
      (omega (arith, small)) enough

-- One tick.
pub timer_int_handler-Elapsed :
    (fuel : ℕ) (t : CTimer) (ts : List Waiting) (boxes : ℕ → List Ptr)
    → Running t ts boxes
    → Live ts
    → length ts < fuel
    → Elapsed
        (timer_int_handler fuel t)
        t
        (left 1 ts)
        (posted (addressee t.office.mem) (gone 1 ts) boxes)
unfolding left gone posted
timer_int_handler-Elapsed fuel t [] boxes run live enough = record {
  office = t.office;
  returns = handler-empty fuel t run.list.delta.chain;
  running = run;
  bytes = λ q i e. refl;
  code = refl;
}
timer_int_handler-Elapsed fuel t (x ∷ ts) boxes run live enough =
    subst
      (λ l.
        Elapsed (timer_int_handler fuel t) t l
          (posted (addressee t.office.mem) (gone 1 (x ∷ ts)) boxes))
      (unexpired-tick (x ∷ ts) live)
      (subst
        (λ l.
          Elapsed (timer_int_handler fuel t) t (unexpired (tick (x ∷ ts)))
            (posted (addressee t.office.mem) l boxes))
        (expired-tick (x ∷ ts) live)
        (tick-Elapsed fuel t x ts boxes run live (omega (arith, enough))))
