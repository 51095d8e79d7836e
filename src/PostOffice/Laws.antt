-- ===== src/PostOffice/Laws.antt =====
-- A message goes to the mailbox it is addressed to, and to no other.
use publisher_subscriber_ser.Base.{
  ℕ, suc, ◌<◌, ◌≤◌, ◌≡◌, ◌≢◌, refl, ap, sym, ◌∙◌, List, [], ◌∷◌, ◌++◌, arith, some, ok, thrown,
  ◌>>=◌, Build,
}
use publisher_subscriber_ser.Memory.{Ptr, null, update, load_uint16, get_uint16}
use publisher_subscriber_ser.Line.{Out}
use publisher_subscriber_ser.MailBox
use publisher_subscriber_ser.MailBox.{TMailBox, discarded, msg_code}
use publisher_subscriber_ser.MailBox.Laws.{IsMailBox}
use publisher_subscriber_ser.PostOffice.{TPostOffice, Office, box_at, put_box, add, get, get_count}

pub box_at_lem :
    (p : TPostOffice) (id : ℕ) (box : TMailBox)
    → id < p.mail_boxes_num
    → p.mail_boxes id ≡ some box
    → box_at p id ≡ ok box
unfolding box_at
box_at_lem p id box inside at = ground arith

box_at-outside :
    (p : TPostOffice) (id : ℕ) → p.mail_boxes_num ≤ id → box_at p id ≡ thrown 0x01010200
unfolding box_at
box_at-outside p id outside = ground arith

-- An id that is no mailbox is refused by every operation.
pub refused :
    (fuel : ℕ) (b : Build) (w : Office) (id : ℕ) (info : Ptr)
    → w.post.mail_boxes_num ≤ id
    → (add id info w ≡ thrown 0x01010200)
      × (get fuel b id w ≡ thrown 0x01010200)
      × (get_count id w.post ≡ thrown 0x01010200)
unfolding add get get_count
refused fuel b w id info outside =
    let no = box_at-outside w.post id outside in (rw (no) refl, rw (no) refl, rw (no) refl)

-- A message that is sent to a mailbox lies behind the messages that were there, the semaphore of
-- that mailbox is released once, and every other mailbox is the one it was.
pub add-IsMailBox :
    (w : Office) (id : ℕ) (box : TMailBox) (xs : List Ptr) (info : Ptr)
    → id < w.post.mail_boxes_num
    → w.post.mail_boxes id ≡ some box
    → IsMailBox w.mem box xs
    → info ≢ null
    → Out info xs
    → (w' : Office) × (box' : TMailBox) × (add id info w ≡ ok w')
      × (w'.post.mail_boxes id ≡ some box')
      × IsMailBox w'.mem box' (xs ++ info ∷ [])
      × ((k : ℕ) → k ≢ id → w'.post.mail_boxes k ≡ w.post.mail_boxes k)
      × (w'.post.released ≡ id ∷ w.post.released)
unfolding add update
add-IsMailBox w id box xs info inside at is ne out =
    let sent = (MailBox.Laws.add_lem w.mem box xs info is out).1 ne in
    let p = put_box w.post id sent.1 in
    (
      record w { mem = sent.0; post = record p { released = id ∷ p.released } },
      sent.1,
      rw (box_at_lem w.post id box inside at, sent.2) refl,
      ground arith,
      sent.3,
      λ k other. ground arith,
      refl,
    )

-- The first message that is sent to an empty mailbox, if it is not discarded, is the one that is
-- taken from it next, and the mailbox is empty again.
pub get-add :
    (fuel : ℕ) (b : Build) (w : Office) (id : ℕ) (box : TMailBox) (info : Ptr)
    → id < w.post.mail_boxes_num
    → w.post.mail_boxes id ≡ some box
    → IsMailBox w.mem box []
    → info ≢ null
    → load_uint16 w.mem info msg_code ≢ discarded
    → (w' : Office) × (box' : TMailBox) × ((do v ← add id info w; get (suc fuel) b id v)
        ≡ ok (info, w'))
      × (w'.post.mail_boxes id ≡ some box')
      × IsMailBox w'.mem box' []
unfolding get add update
get-add fuel b w id box info inside at is ne fresh =
    let sent = (MailBox.Laws.add_lem w.mem box [] info is tt).1 ne in
    let p = put_box w.post id sent.1 in
    let v : Office = record w { mem = sent.0; post = record p { released = id ∷ p.released } } in
    let code : load_uint16 sent.0 info msg_code ≢ discarded =
      λ e. fresh (ap (λ bytes. get_uint16 (bytes info) msg_code) (sym sent.5) ∙ e) in
    let taken =
      (MailBox.Laws.get_lem fuel b (record { mem = sent.0; pool = w.pool; box = sent.1 }) info []).1
        sent.3 in
    (
      record v { post = put_box v.post id taken.0 },
      taken.0,
      rw
          (
            box_at_lem w.post id box inside at,
            sent.2,
            box_at_lem v.post id sent.1 inside (ground arith),
            taken.3 code,
          )
          refl,
      ground arith,
      taken.1,
    )
