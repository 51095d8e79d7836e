-- ===== src/PostOffice.antt =====
-- TPostOffice of `Kernel/postOffice.cpp`: the mailboxes of all automata, by their id. Its semaphores
-- are the operating system's: `released` lists the calls of ReleaseSemaphore, newest first, and
-- which mailbox WaitForMultipleObjects reports is an argument.
pub mod Laws
pub mod Holds
use publisher_subscriber_ser.Base.{
  ℕ, zero, suc, ◌+◌, ◌%◌, Bool, true, false, ◌==◌, leb, Option, none, some, List, [], ◌∷◌, Run, ok,
  fault, ◌>>=◌, ◌>>◌, throw_if, Build,
}
use publisher_subscriber_ser.Memory.{Ptr, Mem, update}
use publisher_subscriber_ser.Buffers.{TBuffers}
use publisher_subscriber_ser.MailBox
use publisher_subscriber_ser.MailBox.{TMailBox, World}

pub record TPostOffice : Type 0 where
  pub mail_boxes : ℕ → Option TMailBox
  pub mail_boxes_num : ℕ
  pub released : List ℕ

-- What a call works on: the buffers, the pool and the mailboxes.
pub record Office : Type 0 where
  pub mem : Mem
  pub pool : TBuffers
  pub post : TPostOffice

unfoldable pub create_boxes : (rounds i : ℕ) → Option TBuffers → TPostOffice → Run TPostOffice
create_boxes zero i buffers p = ok p
create_boxes (suc rounds) i buffers p = do
  box ← MailBox.create buffers
  create_boxes rounds (i + 1) buffers (record p { mail_boxes = update p.mail_boxes i (some box) })

-- The constructor, where the semaphores can be made.
unfoldable pub create : (mail_boxes_num : ℕ) → Option TBuffers → Run TPostOffice
create mail_boxes_num buffers = do
  throw_if (mail_boxes_num == 0) 0x01010200
  throw_if (elim buffers [ none ↦ true | some _ ↦ false ]) 0x01010200
  create_boxes mail_boxes_num 0 buffers
      (record { mail_boxes = λ _. none; mail_boxes_num = mail_boxes_num; released = [] })

-- The mailbox with an id, after the check of the id.
unfoldable pub box_at : TPostOffice → ℕ → Run TMailBox
box_at p mail_box_id = do
  throw_if (leb p.mail_boxes_num mail_box_id) 0x01010200
  elim (p.mail_boxes mail_box_id) [ none ↦ fault | some box ↦ ok box ]

abbrev pub put_box : TPostOffice → ℕ → TMailBox → TPostOffice
put_box p mail_box_id box = record p { mail_boxes = update p.mail_boxes mail_box_id (some box) }

unfoldable pub add : (mail_box_id : ℕ) (info : Ptr) → Office → Run Office
add mail_box_id info w = do
  box ← box_at w.post mail_box_id
  r ← MailBox.add w.mem box info
  let p = put_box w.post mail_box_id r.1
  ok (record w { mem = r.0; post = record p { released = mail_box_id ∷ p.released } })

unfoldable pub get : (fuel : ℕ) → Build → (mail_box_id : ℕ) → Office → Run (Ptr × Office)
get fuel b mail_box_id w = do
  box ← box_at w.post mail_box_id
  r ← MailBox.get fuel b (record { mem = w.mem; pool = w.pool; box = box })
  ok (r.0, record { mem = r.1.mem; pool = r.1.pool; post = put_box w.post mail_box_id r.1.box })

-- `GetSync`: the id that the wait reports comes back with the message.
unfoldable pub get_sync : (fuel : ℕ) → Build → (signalled : ℕ) → Office → Run ((ℕ × Ptr) × Office)
get_sync fuel b signalled w = do
  r ← get fuel b (signalled % 256) w
  ok ((signalled % 256, r.0), r.1)

unfoldable pub get_count : (mail_box_id : ℕ) → TPostOffice → Run (ℕ × TPostOffice)
get_count mail_box_id p = do
  box ← box_at p mail_box_id
  let r = MailBox.get_count box
  ok (r.0, put_box p mail_box_id r.1)

unfoldable pub purge_mail_box : (fuel : ℕ) → Build → (mail_box_id : ℕ) → Office → Run Office
purge_mail_box fuel b mail_box_id w = do
  box ← box_at w.post mail_box_id
  r ← MailBox.purge fuel fuel b (record { mem = w.mem; pool = w.pool; box = box })
  ok (record { mem = r.mem; pool = r.pool; post = put_box w.post mail_box_id r.box })

-- `Purge`, over the mailboxes from `i` on.
unfoldable pub purge_from : (rounds fuel : ℕ) → Build → (i : ℕ) → Office → Run Office
purge_from zero fuel b i w = ok w
purge_from (suc rounds) fuel b i w = do
  w' ← purge_mail_box fuel b i w
  purge_from rounds fuel b (i + 1) w'

abbrev pub purge : (fuel : ℕ) → Build → Office → Run Office
purge fuel b w = purge_from w.post.mail_boxes_num fuel b 0 w
