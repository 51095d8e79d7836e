-- ===== src/Timer/Ready.antt =====
-- The buffer of a timer when `StartTimer` has filled it, and what that leaves as it is.
use publisher_subscriber_ser.Base.{
  ℕ, ◌^◌, ◌<◌, ◌≡◌, ◌≢◌, refl, ap, sym, ◌∙◌, List, [], ◌∷◌, All, arith,
}
use mathlib.Core.Path.{subst}
use publisher_subscriber_ser.Memory.{
  Ptr, Mem, update, store_byte, store_uint32, get_uint32, set_byte,
}
use publisher_subscriber_ser.Line.{Out, Seg, Links}
use publisher_subscriber_ser.PostOffice.{Office}
use publisher_subscriber_ser.PostOffice.Holds.{OfficeHolds}
use publisher_subscriber_ser.Timer.{
  CTimer, timer_mbx_id, msg_from_automate, timer_code, count, set_count, ticks,
}
use publisher_subscriber_ser.Timer.Delta.{Waiting, timers}
use publisher_subscriber_ser.Timer.Chain.{Counts, count-set_count}
use publisher_subscriber_ser.Timer.Adds.{IsTimers}
use publisher_subscriber_ser.Timer.Sent.{addressee}

-- The memory when `StartTimer` has filled the timer's buffer.
abbrev pub ready : Mem → Ptr → (mail_box_id ticks : ℕ) → Mem
ready m p mail_box_id ticks =
    store_byte (store_byte (set_count m p ticks) p msg_from_automate timer_code) p timer_mbx_id
      mail_box_id

pub ready-count : (m : Mem) (p : Ptr) (id v : ℕ) → v < 2 ^ 32 → count (ready m p id v) p ≡ v
unfolding update store_byte set_byte get_uint32
ready-count m p id v small = let back = count-set_count m p v small in ground arith

pub ready-addressee : (m : Mem) (p : Ptr) (id v : ℕ) → id < 256 → addressee (ready m p id v) p ≡ id
unfolding update store_byte set_byte
ready-addressee m p id v small = ground arith

pub ready-bytes :
    (m : Mem) (p : Ptr) (id v : ℕ) (q : Ptr) → q ≢ p → (ready m p id v).bytes q ≡ m.bytes q
unfolding update store_byte store_uint32
ready-bytes m p id v q ne = ground arith

pub ready-next : (m : Mem) (p : Ptr) (id v : ℕ) → (ready m p id v).next ≡ m.next
unfolding store_byte store_uint32
ready-next m p id v = refl

pub ready-code : (m : Mem) (p : Ptr) (id v : ℕ) → (ready m p id v).code ≡ m.code
unfolding store_byte store_uint32
ready-code m p id v = refl

pub ready-Counts :
    (m : Mem) (p : Ptr) (id v : ℕ) (ts : List Waiting)
    → Out p (timers ts)
    → Counts m ts
    → Counts (ready m p id v) ts
ready-Counts m p id v [] out h = tt
ready-Counts m p id v (x ∷ ts) out h = (
  ap (λ b. get_uint32 b 6) (ready-bytes m p id v x.timer (λ e. out.0 (sym e))) ∙ h.0,
  ready-Counts m p id v ts out.1 h.1,
)

pub ready-IsTimers :
    (t : CTimer) (p : Ptr) (id v : ℕ) (ts : List Waiting)
    → IsTimers t ts
    → t.head ≢ p
    → Out p (timers ts)
    → IsTimers (record t { office = record t.office { mem = ready t.office.mem p id v } }) ts
ready-IsTimers t p id v ts is apart out = record {
  delta = record {
    chain =
        subst (λ n. Seg n (n t.head) (timers ts)) (sym (ready-next t.office.mem p id v))
          is.delta.chain;
    counts = ready-Counts t.office.mem p id v ts out is.delta.counts;
    small = is.delta.small;
  };
  dummy = ap (λ b. get_uint32 b 6) (ready-bytes t.office.mem p id v t.head apart) ∙ is.dummy;
  live = is.live;
  outside = is.outside;
}

-- A list of messages stays where no link of theirs changes.
Seg-same :
    (n n' : Links) (p : Ptr) (xs : List Ptr) → All (λ q. n' q ≡ n q) xs → Seg n p xs → Seg n' p xs
Seg-same n n' p [] same h = h
Seg-same n n' p (x ∷ xs) same h =
    (h.0, h.1, h.2, Seg-same n n' (n' x) xs same.1 (subst (λ q. Seg n q xs) (sym same.0) h.3))

pub same_links-OfficeHolds :
    (w : Office) (boxes : ℕ → List Ptr) (m : Mem)
    → ((id : ℕ) → id < w.post.mail_boxes_num → All (λ q. m.next q ≡ w.mem.next q) (boxes id))
    → OfficeHolds w boxes
    → OfficeHolds (record w { mem = m }) boxes
same_links-OfficeHolds w boxes m same h = record {
  held = λ id inside.
      let b = h.held id inside in
      record {
        box = b.box;
        there = b.there;
        messages = record {
          holds = record {
            chain =
                Seg-same w.mem.next m.next b.box.line.head (boxes id) (same id inside)
                  b.messages.holds.chain;
            tail = b.messages.holds.tail;
          };
          counted = b.messages.counted;
        };
      };
  apart = h.apart;
}
