-- ===== src/Timer/Sent.antt =====
-- The running timers beside the mailboxes, and the first timer when it goes to its own.
use publisher_subscriber_ser.Base.{
  ℕ, ◌<◌, ◌≡◌, ◌≢◌, refl, ap, sym, ◌∙◌, List, [], ◌∷◌, All, ◌==◌, Run, ok, Bool-cases, inl, inr,
}
use mathlib.Core.Path.{subst}
use publisher_subscriber_ser.Memory.{Ptr, Mem, update, get_uint32}
use publisher_subscriber_ser.Line.{Out, Seg}
use publisher_subscriber_ser.Line.Laws.{frame}
use publisher_subscriber_ser.PostOffice
use publisher_subscriber_ser.PostOffice.{Office, TPostOffice}
use publisher_subscriber_ser.PostOffice.Holds.{
  BoxHolds, OfficeHolds, OutOfBoxes, All-snoc, posted_to, delivered, add-delivered, delivered-Seg,
  delivered-mem, delivered-OfficeHolds,
}
use publisher_subscriber_ser.Timer.{CTimer, timer_mbx_id, link}
use publisher_subscriber_ser.Timer.Delta.{Waiting, timers}
use publisher_subscriber_ser.Timer.Chain.{Counts-bytes, update_self}
use publisher_subscriber_ser.Timer.Adds.{IsTimers}

-- The mailbox that a timer is for.
abbrev pub addressee : Mem → Ptr → ℕ
addressee m p = m.bytes p timer_mbx_id

-- The mailboxes when the messages have gone to theirs, one after the other.
unfoldable pub posted : (to : Ptr → ℕ) → List Ptr → (ℕ → List Ptr) → ℕ → List Ptr
posted to [] boxes = boxes
posted to (x ∷ xs) boxes = posted to xs (posted_to boxes (to x) x)

-- The timers `ts` run, the mailboxes hold `boxes`, and no buffer is in two places.
pub record Running (t : CTimer) (ts : List Waiting) (boxes : ℕ → List Ptr) : Type 0 where
  pub list : IsTimers t ts
  pub office : OfficeHolds t.office boxes
  pub apart :
      (id : ℕ)
      → id < t.office.post.mail_boxes_num
      → All (λ b. Out b (t.head ∷ timers ts)) (boxes id)
  pub addressed : All (λ x. addressee t.office.mem x.timer < t.office.post.mail_boxes_num) ts

-- The program ends; the timers `ts` run and the mailboxes hold `boxes`; no byte of a message in
-- `kept` has changed.
pub record Ticked (run : Run CTimer) (t : CTimer) (ts : List Waiting) (boxes : ℕ → List Ptr)
    : Type 0 where
  pub office : Office
  pub returns : run ≡ ok (record t { office = office })
  pub running : Running (record t { office = office }) ts boxes
  pub bytes : office.mem.bytes ≡ t.office.mem.bytes
  pub code : office.mem.code ≡ t.office.mem.code
  pub boxes_num : office.post.mail_boxes_num ≡ t.office.post.mail_boxes_num

-- The first timer taken from the list.
abbrev pub taken : CTimer → Ptr → Office
taken t x = record t.office { mem = link t.office.mem t.head (t.office.mem.next x) }

taken-OfficeHolds :
    (t : CTimer) (x : Ptr) (boxes : ℕ → List Ptr)
    → OfficeHolds t.office boxes
    → ((id : ℕ) → id < t.office.post.mail_boxes_num → Out t.head (boxes id))
    → OfficeHolds (taken t x) boxes
taken-OfficeHolds t x boxes h out = record {
  held = λ id inside.
      let b = h.held id inside in
      record {
        box = b.box;
        there = b.there;
        messages = record {
          holds = record {
            chain =
                frame t.office.mem.next b.box.line.head t.head (t.office.mem.next x) (boxes id)
                  b.messages.holds.chain (out id inside);
            tail = b.messages.holds.tail;
          };
          counted = b.messages.counted;
        };
      };
  apart = h.apart;
}

Out-sym : (y : Ptr) (xs : List Ptr) → All (λ b. b ≢ y) xs → Out y xs
Out-sym y [] h = tt
Out-sym y (x ∷ xs) h = ((λ e. h.0 (sym e)), Out-sym y xs h.1)

All-imp :
    {A : Type 0} (P Q : A → Type 0) (xs : List A) → ((x : A) → P x → Q x) → All P xs → All Q xs
All-imp P Q [] f h = tt
All-imp P Q (x ∷ xs) f h = (f x h.0, All-imp P Q xs f h.1)

module _ (t : CTimer) (x : Waiting) (ts : List Waiting) (boxes : ℕ → List Ptr)
    (run : Running t (x ∷ ts) boxes) where
  id_of_first : ℕ
  id_of_first = addressee t.office.mem x.timer

  -- The messages of a mailbox are apart from the timers behind the first.
  apart_rest :
      (k : ℕ) → k < t.office.post.mail_boxes_num → All (λ b. Out b (t.head ∷ timers ts)) (boxes k)
  apart_rest k inside =
      All-imp (λ b. Out b (t.head ∷ x.timer ∷ timers ts)) (λ b. Out b (t.head ∷ timers ts))
        (boxes k) (λ b o. (o.0, o.1.1)) (run.apart k inside)

  first_out : OutOfBoxes t.office.post.mail_boxes_num x.timer boxes
  first_out k inside = Out-sym x.timer (boxes k) (
      All-imp (λ b. Out b (t.head ∷ x.timer ∷ timers ts)) (λ b. b ≢ x.timer) (boxes k)
        (λ b o. o.1.0) (run.apart k inside))

  first_apart : Out x.timer (t.head ∷ timers ts)
  first_apart = ((λ e. run.list.outside.0 (sym e)), run.list.delta.chain.2)

  taken_holds : OfficeHolds (taken t x.timer) boxes
  taken_holds = taken-OfficeHolds t x.timer boxes run.office (λ k inside. Out-sym t.head (boxes k) (
      All-imp (λ b. Out b (t.head ∷ x.timer ∷ timers ts)) (λ b. b ≢ t.head) (boxes k) (λ b o. o.0)
        (run.apart k inside)))

  pub first_box :
      BoxHolds t.office.mem t.office.post
        (addressee t.office.mem x.timer)
        (boxes (addressee t.office.mem x.timer))
  first_box = run.office.held (addressee t.office.mem x.timer) run.addressed.0

  abbrev pub first_sent : Office
  first_sent = delivered (taken t x.timer) (addressee t.office.mem x.timer) first_box.box x.timer

  sent_chain : Seg first_sent.mem.next t.head (t.head ∷ timers ts)
  unfolding first_box taken_holds taken-OfficeHolds
  sent_chain =
      let next = t.office.mem.next in
      delivered-Seg (taken t x.timer) (addressee t.office.mem x.timer) first_box.box
        (boxes (addressee t.office.mem x.timer)) x.timer t.head (t.head ∷ timers ts)
        (taken_holds.held (addressee t.office.mem x.timer) run.addressed.0).messages
        (
          refl,
          run.list.live,
          run.list.outside.1,
          subst (λ q. Seg (update next t.head (next x.timer)) q (timers ts))
              (sym (update_self next t.head (next x.timer)))
              (frame next (next x.timer) t.head (next x.timer) (timers ts) run.list.delta.chain.3
                run.list.outside.1),
        )
        first_apart (apart_rest (addressee t.office.mem x.timer) run.addressed.0)

  pub sent_bytes : first_sent.mem.bytes ≡ t.office.mem.bytes
  sent_bytes =
      (delivered-mem (taken t x.timer) (addressee t.office.mem x.timer) first_box.box x.timer).0

  pub sent_code : first_sent.mem.code ≡ t.office.mem.code
  sent_code =
      (delivered-mem (taken t x.timer) (addressee t.office.mem x.timer) first_box.box x.timer).1

  sent_list : IsTimers (record t { office = first_sent }) ts
  sent_list = record {
    delta = record {
      chain = sent_chain.3;
      counts = Counts-bytes t.office.mem first_sent.mem ts sent_bytes run.list.delta.counts.1;
      small = run.list.delta.small.1;
    };
    dummy = ap (λ b. get_uint32 (b t.head) 6) sent_bytes ∙ run.list.dummy;
    live = run.list.live;
    outside = run.list.outside.1;
  }

  sent_apart :
      (k : ℕ)
      → k < t.office.post.mail_boxes_num
      → All
          (λ b. Out b (t.head ∷ timers ts))
          (posted_to boxes (addressee t.office.mem x.timer) x.timer k)
  sent_apart k inside = elim (Bool-cases (k == addressee t.office.mem x.timer)) [
    | inl e ↦ rw e (
        All-snoc (λ b. Out b (t.head ∷ timers ts)) (boxes (addressee t.office.mem x.timer)) x.timer
          (apart_rest (addressee t.office.mem x.timer) run.addressed.0) first_apart)
    | inr e ↦ rw e (apart_rest k inside)
  ]

  -- The first timer goes behind the messages of its mailbox, and the others run on.
  pub sent-Running :
      Running
        (record t { office = first_sent })
        ts
        (posted_to boxes (addressee t.office.mem x.timer) x.timer)
  unfolding first_box taken_holds taken-OfficeHolds
  sent-Running = record {
    list = sent_list;
    office =
        delivered-OfficeHolds (taken t x.timer) boxes (addressee t.office.mem x.timer) first_box.box
          x.timer taken_holds run.addressed.0 first_box.there
          (taken_holds.held (addressee t.office.mem x.timer) run.addressed.0).messages
          run.list.delta.chain.1 first_out;
    apart = sent_apart;
    addressed =
        subst (λ b. All (λ y. b y.timer timer_mbx_id < t.office.post.mail_boxes_num) ts)
          (sym sent_bytes) run.addressed.1;
  }

  pub sent-returns :
      PostOffice.add (addressee t.office.mem x.timer) x.timer (taken t x.timer) ≡ ok first_sent
  sent-returns =
      add-delivered (taken t x.timer) (addressee t.office.mem x.timer) first_box.box x.timer
        run.addressed.0 first_box.there run.list.delta.chain.1
