-- ===== src/Timer/Seek.antt =====
-- The place that `Add` finds, and the list when the timer is in it.
use publisher_subscriber_ser.Base.{
  ℕ, ◌-◌, ◌^◌, ◌<◌, ◌≤◌, ◌≡◌, ◌≢◌, refl, ap, sym, ◌∙◌, List, [], ◌∷◌, arith,
}
use mathlib.Core.Path.{subst}
use publisher_subscriber_ser.Memory.{Ptr, null, Mem, update, get_uint32}
use publisher_subscriber_ser.Line.{Out, Seg}
use publisher_subscriber_ser.Line.Laws.{frame}
use publisher_subscriber_ser.Timer.{count, set_count, link}
use publisher_subscriber_ser.Timer.Delta.{
  Waiting, timers, place, place-before, place-behind, place-last, Out-place,
}
use publisher_subscriber_ser.Timer.Chain.{
  IsDelta, count-set_count, count-set_count_ne, Counts-set_count, Elsewhere, bytes-set_count,
  bytes-set_count_ne, next-set_count, code-set_count, update_self, update_ne,
}

-- `m'` is `m` with the timer in its place behind `prev`, and nothing else changed.
pub record Placed (m m' : Mem) (prev timer : Ptr) (ticks : ℕ) (ts : List Waiting) : Type 0 where
  pub placed : IsDelta m' (m'.next prev) (place timer ticks ts)
  pub links : (q : Ptr) → q ≢ prev → Out q (timer ∷ timers ts) → m'.next q ≡ m.next q
  pub counts : (q : Ptr) → Out q (timer ∷ timers ts) → m'.bytes q ≡ m.bytes q
  pub bytes : (q : Ptr) (i : ℕ) → Elsewhere i → m'.bytes q i ≡ m.bytes q i
  pub codes : m'.code ≡ m.code

-- What is known of the timer and of what lies before it.
pub record Fits (m : Mem) (prev timer : Ptr) (ticks : ℕ) (ts : List Waiting) : Type 0 where
  pub delta : IsDelta m (m.next prev) ts
  pub counted : count m timer ≡ ticks
  pub small : ticks < 2 ^ 32
  pub live : timer ≢ null
  pub out : Out timer (timers ts)
  pub before : prev ≢ null
  pub apart : prev ≢ timer
  pub out_before : Out prev (timers ts)

-- Placed, with the list that it gives written out.
abbrev pub Becomes : (m m' : Mem) (prev timer : Ptr) (ts now : List Waiting) → Type 0
Becomes m m' prev timer ts now =
    IsDelta m' (m'.next prev) now
    × ((q : Ptr) → q ≢ prev → Out q (timer ∷ timers ts) → m'.next q ≡ m.next q)
    × ((q : Ptr) → Out q (timer ∷ timers ts) → m'.bytes q ≡ m.bytes q)
    × ((q : Ptr) (i : ℕ) → Elsewhere i → m'.bytes q i ≡ m.bytes q i)
    × (m'.code ≡ m.code)

Becomes-Placed :
    (m m' : Mem) (prev timer : Ptr) (ticks : ℕ) (ts now : List Waiting)
    → place timer ticks ts ≡ now
    → Becomes m m' prev timer ts now
    → Placed m m' prev timer ticks ts
Becomes-Placed m m' prev timer ticks ts now e h = record {
  placed = subst (λ l. IsDelta m' (m'.next prev) l) (sym e) h.0;
  links = h.1;
  counts = h.2;
  bytes = h.3;
  codes = h.4;
}

pub before-Placed :
    (m : Mem) (prev timer : Ptr) (ticks : ℕ) (x : Waiting) (ts : List Waiting)
    → Fits m prev timer ticks (x ∷ ts)
    → ticks < x.wait
    → Placed m
        (link (link (set_count m x.timer (x.wait - ticks)) timer x.timer) prev timer)
        prev
        timer
        ticks
        (x ∷ ts)
before-Placed m prev timer ticks x ts f less =
    let a = set_count m x.timer (x.wait - ticks) in
    let m' = link (link a timer x.timer) prev timer in
    let at_prev : m'.next prev ≡ timer = update_self (update a.next timer x.timer) prev timer in
    let at_timer : m'.next timer ≡ x.timer =
      update_ne (update a.next timer x.timer) prev timer timer (λ e. f.apart (sym e))
      ∙ update_self a.next timer x.timer in
    let old : Seg a.next x.timer (timers (x ∷ ts)) =
      subst (λ n. Seg n x.timer (timers (x ∷ ts))) (sym (next-set_count m x.timer (x.wait - ticks)))
        (subst (λ q. Seg m.next q (timers (x ∷ ts))) f.delta.chain.0 f.delta.chain) in
    let kept : Seg m'.next x.timer (timers (x ∷ ts)) =
      frame (update a.next timer x.timer) x.timer prev timer (timers (x ∷ ts))
        (frame a.next x.timer timer x.timer (timers (x ∷ ts)) old f.out) f.out_before in
    Becomes-Placed m m' prev timer ticks (x ∷ ts)
      (record { timer = timer; wait = ticks } ∷ record x { wait = x.wait - ticks } ∷ ts)
      (place-before timer ticks x ts less)
      (
        record {
          chain = (
            at_prev,
            f.live,
            f.out,
            subst (λ q. Seg m'.next q (timers (x ∷ ts))) (sym at_timer) kept,
          );
          counts = (
            count-set_count_ne m x.timer timer (x.wait - ticks) f.out.0 ∙ f.counted,
            (
              count-set_count m x.timer (x.wait - ticks) (omega (arith, f.delta.small.0)),
              Counts-set_count m x.timer (x.wait - ticks) ts f.delta.chain.2 f.delta.counts.1,
            ),
          );
          small = (f.small, (omega (arith, f.delta.small.0), f.delta.small.1));
        },
        λ q ne o.
            update_ne (update a.next timer x.timer) prev q timer ne
            ∙ update_ne a.next timer q x.timer o.0
            ∙ ap (λ n. n q) (next-set_count m x.timer (x.wait - ticks)),
        λ q o. bytes-set_count_ne m x.timer (x.wait - ticks) q o.1.0,
        λ q i h. bytes-set_count m x.timer (x.wait - ticks) q i h,
        code-set_count m x.timer (x.wait - ticks),
      )

pub last-Placed :
    (m : Mem) (prev timer : Ptr) (ticks : ℕ)
    → Fits m prev timer ticks []
    → Placed m (link (link m timer null) prev timer) prev timer ticks []
last-Placed m prev timer ticks f =
    let m' = link (link m timer null) prev timer in
    Becomes-Placed m m' prev timer ticks [] (record { timer = timer; wait = ticks } ∷ [])
      (place-last timer ticks)
      (
        record {
          chain = (
            update_self (update m.next timer null) prev timer,
            f.live,
            tt,
            update_ne (update m.next timer null) prev timer timer (λ e. f.apart (sym e))
                ∙ update_self m.next timer null,
          );
          counts = (f.counted, tt);
          small = (f.small, tt);
        },
        λ q ne o.
            update_ne (update m.next timer null) prev q timer ne
            ∙ update_ne m.next timer q null o.0,
        λ q o. refl,
        λ q i h. refl,
        refl,
      )

pub Fits-set_count :
    (m : Mem) (prev timer : Ptr) (ticks v : ℕ) (ts : List Waiting)
    → Fits m prev timer ticks ts
    → v < 2 ^ 32
    → Fits (set_count m timer v) prev timer v ts
Fits-set_count m prev timer ticks v ts f small = record {
  delta = record {
    chain = subst (λ n. Seg n (n prev) (timers ts)) (sym (next-set_count m timer v)) f.delta.chain;
    counts = Counts-set_count m timer v ts f.out f.delta.counts;
    small = f.delta.small;
  };
  counted = count-set_count m timer v small;
  small = small;
  live = f.live;
  out = f.out;
  before = f.before;
  apart = f.apart;
  out_before = f.out_before;
}

-- The place behind the first timer.
pub Fits-behind :
    (m : Mem) (prev timer : Ptr) (ticks : ℕ) (x : Waiting) (ts : List Waiting)
    → Fits m prev timer ticks (x ∷ ts)
    → Fits (set_count m timer (ticks - x.wait)) x.timer timer (ticks - x.wait) ts
Fits-behind m prev timer ticks x ts f =
    let small : ticks - x.wait < 2 ^ 32 = omega (arith, f.small) in
    record {
      delta = record {
        chain =
            subst (λ n. Seg n (n x.timer) (timers ts))
              (sym (next-set_count m timer (ticks - x.wait))) f.delta.chain.3;
        counts = Counts-set_count m timer (ticks - x.wait) ts f.out.1 f.delta.counts.1;
        small = f.delta.small.1;
      };
      counted = count-set_count m timer (ticks - x.wait) small;
      small = small;
      live = f.live;
      out = f.out.1;
      before = f.delta.chain.1;
      apart = λ e. f.out.0 (sym e);
      out_before = f.delta.chain.2;
    }

-- Placed behind the first timer is placed.
pub behind-Placed :
    (m m' : Mem) (prev timer : Ptr) (ticks : ℕ) (x : Waiting) (ts : List Waiting)
    → Fits m prev timer ticks (x ∷ ts)
    → x.wait ≤ ticks
    → Placed (set_count m timer (ticks - x.wait)) m' x.timer timer (ticks - x.wait) ts
    → Placed m m' prev timer ticks (x ∷ ts)
behind-Placed m m' prev timer ticks x ts f le h =
    let v = ticks - x.wait in
    let same_next : (set_count m timer v).next ≡ m.next = next-set_count m timer v in
    let apart : x.timer ≢ timer = λ e. f.out.0 (sym e) in
    let at_prev : m'.next prev ≡ x.timer =
      h.links prev f.out_before.0 (f.apart, f.out_before.1)
      ∙ ap (λ n. n prev) same_next
      ∙ f.delta.chain.0 in
    Becomes-Placed m m' prev timer ticks (x ∷ ts) (x ∷ place timer v ts)
      (place-behind timer ticks x ts le)
      (
        record {
          chain = (
            at_prev,
            f.delta.chain.1,
            Out-place x.timer timer v ts apart f.delta.chain.2,
            h.placed.chain,
          );
          counts = (
            ap (λ b. get_uint32 b 6) (h.counts x.timer (apart, f.delta.chain.2))
                ∙ count-set_count_ne m timer x.timer v apart
                ∙ f.delta.counts.0,
            h.placed.counts,
          );
          small = (f.delta.small.0, h.placed.small);
        },
        λ q ne o. h.links q o.1.0 (o.0, o.1.1) ∙ ap (λ n. n q) same_next,
        λ q o. h.counts q (o.0, o.1.1) ∙ bytes-set_count_ne m timer v q o.0,
        λ q i e. h.bytes q i e ∙ bytes-set_count m timer v q i e,
        h.codes ∙ code-set_count m timer v,
      )

-- The ticks of the timer do not matter for what was there before.
pub Placed-set_count :
    (m m' : Mem) (prev timer : Ptr) (ticks v : ℕ) (ts : List Waiting)
    → Placed (set_count m timer v) m' prev timer ticks ts
    → Placed m m' prev timer ticks ts
Placed-set_count m m' prev timer ticks v ts h = record {
  placed = h.placed;
  links = λ q ne o. h.links q ne o ∙ ap (λ n. n q) (next-set_count m timer v);
  counts = λ q o. h.counts q o ∙ bytes-set_count_ne m timer v q o.0;
  bytes = λ q i e. h.bytes q i e ∙ bytes-set_count m timer v q i e;
  codes = h.codes ∙ code-set_count m timer v;
}
