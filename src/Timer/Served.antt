-- ===== src/Timer/Served.antt =====
-- Many ticks: what the timers and the mailboxes come to.
use publisher_subscriber_ser.Base.{
  ℕ, zero, suc, ◌-◌, ◌<◌, ◌≤◌, ◌≡◌, refl, ap, sym, ◌∙◌, List, [], ◌∷◌, ◌++◌, arith, length, leb,
  ◌==◌, if◌then◌else◌, Run, ok, ◌>>=◌, Bool-cases, inl, inr, ==→eq,
}
use mathlib.Core.Path.{subst}
use mathlib.Core.List.{append-nil, append_assoc}
use publisher_subscriber_ser.Memory.{Ptr}
use publisher_subscriber_ser.PostOffice.{Office}
use publisher_subscriber_ser.PostOffice.Holds.{posted_to}
use publisher_subscriber_ser.Timer.{CTimer, timer_int_handler}
use publisher_subscriber_ser.Timer.Delta.{Waiting, deadlines}
use publisher_subscriber_ser.Timer.Elapse.{
  gone, left, due, later, Live, left-Live, gone-add, left-add, gone-deadlines, left-deadlines,
}
use publisher_subscriber_ser.Timer.Sent.{addressee, posted, Running}
use publisher_subscriber_ser.Timer.Handler.{Elapsed, timer_int_handler-Elapsed}

-- The handler is called `n` times.
unfoldable pub run_ticks : (n fuel : ℕ) → CTimer → Run CTimer
run_ticks zero fuel t = ok t
run_ticks (suc n) fuel t = timer_int_handler fuel t >>= run_ticks n fuel

-- The messages of `xs` that are for the mailbox `k`.
unfoldable pub for_box : (to : Ptr → ℕ) (k : ℕ) → List Ptr → List Ptr
for_box to k [] = []
for_box to k (x ∷ xs) = let rest = for_box to k xs in if k == to x then x ∷ rest else rest

pub posted-for_box :
    (to : Ptr → ℕ) (xs : List Ptr) (boxes : ℕ → List Ptr) (k : ℕ)
    → posted to xs boxes k ≡ boxes k ++ for_box to k xs
unfolding posted for_box
posted-for_box to [] boxes k = sym (append-nil (boxes k))
posted-for_box to (x ∷ xs) boxes k =
    posted-for_box to xs (posted_to boxes (to x) x) k ∙ elim (Bool-cases (k == to x)) [
      | inl e ↦ rw e (
          append_assoc (boxes (to x)) (x ∷ []) (for_box to k xs)
          ∙ ap (λ j. boxes j ++ x ∷ for_box to k xs) (sym (==→eq k (to x) e)))
      | inr e ↦ rw e refl
    ]

posted-append :
    (to : Ptr → ℕ) (xs ys : List Ptr) (boxes : ℕ → List Ptr)
    → posted to (xs ++ ys) boxes ≡ posted to ys (posted to xs boxes)
unfolding posted
posted-append to [] ys boxes = refl
posted-append to (x ∷ xs) ys boxes = posted-append to xs ys (posted_to boxes (to x) x)

length-left : (n : ℕ) (ts : List Waiting) → length (left n ts) ≤ length ts
unfolding left
length-left n [] = omega arith
length-left n (x ∷ ts) = elim (Bool-cases (leb x.wait n)) [
  | inl e ↦ rw e (omega (arith, length-left (n - x.wait) ts))
  | inr e ↦ rw e (omega arith)
]

left-zero : (ts : List Waiting) → Live ts → left 0 ts ≡ ts
unfolding left
left-zero [] live = refl
left-zero (x ∷ ts) live = ground arith

gone-zero : (ts : List Waiting) → Live ts → gone 0 ts ≡ []
unfolding gone
gone-zero [] live = refl
gone-zero (x ∷ ts) live = ground arith

-- So many ticks.
run_ticks-Elapsed :
    (n fuel : ℕ) (t : CTimer) (ts : List Waiting) (boxes : ℕ → List Ptr)
    → Running t ts boxes
    → Live ts
    → length ts < fuel
    → Elapsed (run_ticks n fuel t) t (left n ts) (posted (addressee t.office.mem) (gone n ts) boxes)
unfolding run_ticks posted
run_ticks-Elapsed zero fuel t ts boxes run live enough = record {
  office = t.office;
  returns = refl;
  running =
      subst (λ l. Running t (left 0 ts) (posted (addressee t.office.mem) l boxes))
        (sym (gone-zero ts live)) (subst (λ l. Running t l boxes) (sym (left-zero ts live)) run);
  bytes = λ q i e. refl;
  code = refl;
}
run_ticks-Elapsed (suc n) fuel t ts boxes run live enough =
    let first = timer_int_handler-Elapsed fuel t ts boxes run live enough in
    let to = addressee t.office.mem in
    let rest =
      run_ticks-Elapsed n fuel (record t { office = first.office }) (left 1 ts)
        (posted to (gone 1 ts) boxes) first.running (left-Live 1 ts)
        (omega (arith, length-left 1 ts, enough)) in
    let same : (λ q. addressee first.office.mem q) ≡ to =
      λ i q. first.bytes q 1 (inl (omega arith)) i in
    let list : left n (left 1 ts) ≡ left (suc n) ts =
      sym (left-add 1 n ts) ∙ ap (λ k. left k ts) (omega arith) in
    let over : posted to (gone n (left 1 ts)) (posted to (gone 1 ts) boxes)
        ≡ posted to (gone (suc n) ts) boxes =
      sym (posted-append to (gone 1 ts) (gone n (left 1 ts)) boxes)
      ∙ ap (λ l. posted to l boxes) (sym (gone-add 1 n ts) ∙ ap (λ k. gone k ts) (omega arith)) in
    record {
      office = rest.office;
      returns = ap (λ r. r >>= run_ticks n fuel) first.returns ∙ rest.returns;
      running =
          subst
            (λ l. Running (record t { office = rest.office }) l (posted to (gone (suc n) ts) boxes))
            list
            (subst (λ b. Running (record t { office = rest.office }) (left n (left 1 ts)) b) over
              (subst
                (λ f.
                  Running (record t { office = rest.office }) (left n (left 1 ts))
                    (posted f (gone n (left 1 ts)) (posted to (gone 1 ts) boxes)))
                same rest.running));
      bytes = λ q i e. rest.bytes q i e ∙ first.bytes q i e;
      code = rest.code ∙ first.code;
    }

-- After `n` ticks the timers that had at most `n` left are in their mailboxes, behind what was
-- there, and the others have `n` fewer.
pub record Served (run : Run CTimer) (n : ℕ) (t : CTimer) (ts : List Waiting) (boxes : ℕ → List Ptr)
    : Type 0 where
  pub office : Office
  pub now : List Waiting
  pub boxes_now : ℕ → List Ptr
  pub returns : run ≡ ok (record t { office = office })
  pub running : Running (record t { office = office }) now boxes_now
  pub live : Live now
  pub waiting : deadlines 0 now ≡ later n (deadlines 0 ts)
  pub delivered :
      (k : ℕ) → boxes_now k ≡ boxes k ++ for_box (addressee t.office.mem) k (due n (deadlines 0 ts))
  pub codes : office.mem.code ≡ t.office.mem.code

-- The handler is called any number of times, from timers that run beside the mailboxes and the
-- first of which has ticks left, with more fuel than timers: it ends; each timer is in the mailbox
-- of its own once the ticks it was set for are over, and not before, in their order and behind the
-- messages that were there; every other timer has as many ticks fewer; no mailbox has lost a
-- message and no buffer is in two places.
pub run_ticks-Served :
    (n fuel : ℕ) (t : CTimer) (ts : List Waiting) (boxes : ℕ → List Ptr)
    → Running t ts boxes
    → Live ts
    → length ts < fuel
    → Served (run_ticks n fuel t) n t ts boxes
run_ticks-Served n fuel t ts boxes run live enough =
    let h = run_ticks-Elapsed n fuel t ts boxes run live enough in
    let to = addressee t.office.mem in
    record {
      office = h.office;
      now = left n ts;
      boxes_now = posted to (gone n ts) boxes;
      returns = h.returns;
      running = h.running;
      live = left-Live n ts;
      waiting = sym (left-deadlines n 0 ts) ∙ ap (λ c. later c (deadlines 0 ts)) (omega arith);
      delivered = λ k.
          posted-for_box to (gone n ts) boxes k
          ∙ ap (λ l. boxes k ++ for_box to k l)
              (sym (gone-deadlines n 0 ts) ∙ ap (λ c. due c (deadlines 0 ts)) (omega arith));
      codes = h.code;
    }
