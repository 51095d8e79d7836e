-- ===== src/PostOffice/Holds.antt =====
-- All mailboxes at once: each holds its messages, and no message lies in two of them.
use publisher_subscriber_ser.Base.{
  ℕ, ◌<◌, ◌≡◌, ◌≢◌, refl, sym, ◌∙◌, List, [], ◌∷◌, ◌++◌, All, arith, some, ok, ◌==◌, Bool-cases,
  inl, inr, ==→eq, ==→ne, ne→==, length-append, lt→leb, if◌then◌else◌,
}
use mathlib.Core.Path.{subst}
use publisher_subscriber_ser.Memory.{Ptr, null, Mem, update}
use publisher_subscriber_ser.Line.{Out, Seg}
use publisher_subscriber_ser.Line.Laws.{push_back-frame, push_back-IsLine}
use publisher_subscriber_ser.MailBox
use publisher_subscriber_ser.MailBox.{TMailBox, put_on_tail}
use publisher_subscriber_ser.MailBox.Laws.{IsMailBox}
use publisher_subscriber_ser.PostOffice.{TPostOffice, Office, box_at, put_box, add}

-- The mailbox with the id holds the messages `xs`.
pub record BoxHolds (m : Mem) (p : TPostOffice) (id : ℕ) (xs : List Ptr) : Type 0 where
  pub box : TMailBox
  pub there : p.mail_boxes id ≡ some box
  pub messages : IsMailBox m box xs

-- Each mailbox holds the messages that `boxes` gives for its id.
pub record OfficeHolds (w : Office) (boxes : ℕ → List Ptr) : Type 0 where
  pub held : (id : ℕ) → id < w.post.mail_boxes_num → BoxHolds w.mem w.post id (boxes id)
  pub apart :
      (i j : ℕ)
      → i < w.post.mail_boxes_num
      → j < w.post.mail_boxes_num
      → i ≢ j
      → All (λ x. Out x (boxes j)) (boxes i)

-- `x` lies in no mailbox.
abbrev pub OutOfBoxes : (n : ℕ) → Ptr → (ℕ → List Ptr) → Type 0
OutOfBoxes n x boxes = (id : ℕ) → id < n → Out x (boxes id)

abbrev pub posted_to : (ℕ → List Ptr) → (id : ℕ) → Ptr → ℕ → List Ptr
posted_to boxes id x k = if k == id then boxes id ++ x ∷ [] else boxes k

-- The post office when a message has gone to a mailbox.
abbrev pub delivered : Office → (id : ℕ) → TMailBox → Ptr → Office
delivered w id box info =
    let sent = put_on_tail w.mem box info in
    record w {
      mem = sent.0;
      post = record (put_box w.post id sent.1) { released = id ∷ w.post.released };
    }

pub add-delivered :
    (w : Office) (id : ℕ) (box : TMailBox) (info : Ptr)
    → id < w.post.mail_boxes_num
    → w.post.mail_boxes id ≡ some box
    → info ≢ null
    → add id info w ≡ ok (delivered w id box info)
unfolding add box_at MailBox.add
add-delivered w id box info inside at ne =
    rw (lt→leb w.post.mail_boxes_num id inside, at, ne→== info null ne) refl

-- Only the links matter for what the mailboxes hold.
pub same_next-OfficeHolds :
    (w : Office) (boxes : ℕ → List Ptr) (m : Mem)
    → m.next ≡ w.mem.next
    → OfficeHolds w boxes
    → OfficeHolds (record w { mem = m }) boxes
same_next-OfficeHolds w boxes m same h = record {
  held = λ id inside.
      let b = h.held id inside in
      record {
        box = b.box;
        there = b.there;
        messages = record {
          holds = record {
            chain = subst (λ n. Seg n b.box.line.head (boxes id)) (sym same) b.messages.holds.chain;
            tail = b.messages.holds.tail;
          };
          counted = b.messages.counted;
        };
      };
  apart = h.apart;
}

-- What lies elsewhere keeps its links.
pub delivered-Seg :
    (w : Office) (id : ℕ) (box : TMailBox) (xs : List Ptr) (info a : Ptr) (zs : List Ptr)
    → IsMailBox w.mem box xs
    → Seg w.mem.next a zs
    → Out info zs
    → All (λ x. Out x zs) xs
    → Seg (delivered w id box info).mem.next a zs
unfolding put_on_tail
delivered-Seg w id box xs info a zs is s o apart =
    push_back-frame w.mem.next box.line xs info a zs is.holds s o apart

pub delivered-mem :
    (w : Office) (id : ℕ) (box : TMailBox) (info : Ptr)
    → ((delivered w id box info).mem.bytes ≡ w.mem.bytes)
      × ((delivered w id box info).mem.code ≡ w.mem.code)
unfolding put_on_tail
delivered-mem w id box info = (refl, refl)

pub All-snoc :
    {A : Type 0} (P : A → Type 0) (xs : List A) (y : A) → All P xs → P y → All P (xs ++ y ∷ [])
All-snoc P [] y h last = (last, tt)
All-snoc P (x ∷ xs) y h last = (h.0, All-snoc P xs y h.1 last)

Out-snoc :
    (y : Ptr) (ys xs : List Ptr)
    → All (λ x. Out x ys) xs
    → Out y xs
    → All (λ x. Out x (ys ++ y ∷ [])) xs
Out-snoc y ys [] h o = tt
Out-snoc y ys (x ∷ xs) h o =
    (All-snoc (λ z. x ≢ z) ys y h.0 (λ e. o.0 (sym e)), Out-snoc y ys xs h.1 o.1)

-- The lists stay apart when one of them gets an element that is in none.
pub posted_to-apart :
    (n : ℕ) (boxes : ℕ → List Ptr) (id : ℕ) (x : Ptr)
    → ((i j : ℕ) → i < n → j < n → i ≢ j → All (λ y. Out y (boxes j)) (boxes i))
    → id < n
    → OutOfBoxes n x boxes
    → (i j : ℕ) → i < n
    → j < n
    → i ≢ j
    → All (λ y. Out y (posted_to boxes id x j)) (posted_to boxes id x i)
posted_to-apart n boxes id x apart inside out i j p q ij = elim (Bool-cases (i == id)) [
  | inl e ↦
      let j_other : j ≢ id = λ f. ij (==→eq i id e ∙ sym f) in
      rw (e, ne→== j id j_other)
        (All-snoc (λ y. Out y (boxes j)) (boxes id) x (apart id j inside q (λ f. j_other (sym f)))
          (out j q))
  | inr e ↦ elim (Bool-cases (j == id)) [
    | inl f ↦
        rw (e, f) (Out-snoc x (boxes id) (boxes i) (apart i id p inside (==→ne i id e)) (out i p))
    | inr f ↦ rw (e, f) (apart i j p q ij)
  ]
]

module _ (w : Office) (boxes : ℕ → List Ptr) (id : ℕ) (box : TMailBox) (info : Ptr)
    (holds : OfficeHolds w boxes) (inside : id < w.post.mail_boxes_num)
    (at : w.post.mail_boxes id ≡ some box) (is : IsMailBox w.mem box (boxes id)) (ne : info ≢ null)
    (out : OutOfBoxes w.post.mail_boxes_num info boxes) where
  own-held :
      BoxHolds
        (delivered w id box info).mem
        (delivered w id box info).post
        id
        (boxes id ++ info ∷ [])
  unfolding put_on_tail update
  own-held = record {
    box = (put_on_tail w.mem box info).1;
    there = ground arith;
    messages = record {
      holds = push_back-IsLine w.mem.next box.line (boxes id) info is.holds ne (out id inside);
      counted = omega (arith, is.counted, length-append (boxes id) (info ∷ []));
    };
  }

  other-held :
      (k : ℕ)
      → k < w.post.mail_boxes_num
      → k ≢ id
      → BoxHolds (delivered w id box info).mem (delivered w id box info).post k (boxes k)
  unfolding put_on_tail update
  other-held k within other =
      let old = holds.held k within in
      record {
        box = old.box;
        there = let t = old.there in ground arith;
        messages = record {
          holds = record {
            chain =
                delivered-Seg w id box (boxes id) info old.box.line.head (boxes k) is
                  old.messages.holds.chain (out k within)
                  (holds.apart id k inside within (λ e. other (sym e)));
            tail = old.messages.holds.tail;
          };
          counted = old.messages.counted;
        };
      }

  delivered-held :
      (k : ℕ)
      → k < w.post.mail_boxes_num
      → BoxHolds
          (delivered w id box info).mem
          (delivered w id box info).post
          k
          (posted_to boxes id info k)
  delivered-held k within = elim (Bool-cases (k == id)) [
    | inl e ↦ rw e (
        subst
          (λ j.
            BoxHolds (delivered w id box info).mem (delivered w id box info).post j
              (boxes id ++ info ∷ []))
          (sym (==→eq k id e)) own-held)
    | inr e ↦ rw e (other-held k within (==→ne k id e))
  ]

  -- A message that is in no mailbox goes behind the others of its own, and all other mailboxes stay.
  pub delivered-OfficeHolds : OfficeHolds (delivered w id box info) (posted_to boxes id info)
  delivered-OfficeHolds = record {
    held = delivered-held;
    apart = posted_to-apart w.post.mail_boxes_num boxes id info holds.apart inside out;
  }
