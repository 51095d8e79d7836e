-- ===== src/Channel/Store/Added.antt =====
-- A publication on a topic that the server does not have.
use publisher_subscriber_ser.Base.{
  ℕ, ◌+◌, ◌<◌, ◌≡◌, refl, ap, sym, ◌∙◌, true, false, Option, none, some, List, [], ◌∷◌, ◌++◌,
  length, ok, arith, length-append, ◌>>=◌,
}
use mathlib.Core.Path.{subst}
use publisher_subscriber_ser.Memory.{Bytes, update}
use publisher_subscriber_ser.Text.{Free, Str, paste}
use publisher_subscriber_ser.Text.Paste.{At-paste}
use publisher_subscriber_ser.Channel.{Channel, post, msg_ack_notification}
use publisher_subscriber_ser.Channel.Topics.{Topic, row_id, IsTopic, TopicsFrom, Holds, index_of}
use publisher_subscriber_ser.Channel.Topics.Frame.{TopicsFrom-frame, TopicsFrom-append}
use publisher_subscriber_ser.Channel.Store.{Stack, commit, publish}
use publisher_subscriber_ser.Channel.Store.Lookup.{Free-right, Free-append}
use publisher_subscriber_ser.Channel.Store.Entries.{capitals, length-capitals, capitals-Free, entry}
use publisher_subscriber_ser.Channel.Store.Requests.{
  pub_request, looked_up, copied_message, publish_steps,
}

abbrev pub new_topic : (name msg : List ℕ) → Topic
new_topic name msg = record { name = capitals name; body = 32 ∷ msg }

-- The channel after a publication on a topic that it did not have.
abbrev pub added : Channel → List Topic → (name msg : List ℕ) → Channel
added c ts name msg = post msg_ack_notification (record (looked_up c ts name msg) {
  all_server_data = update c.all_server_data c.publisher_counter (some (4 + c.publisher_counter));
  publisher_counter = c.publisher_counter + 1;
})

pub added-Holds :
    (c : Channel) (ts : List Topic) (name msg : List ℕ)
    → Holds c ts
    → Free 0 (name ++ 32 ∷ msg)
    → length name < 50
    → length ts < 10
    → length (entry name msg) < 150
    → Holds (added c ts name msg) (ts ++ new_topic name msg ∷ [])
unfolding update
added-Holds c ts name msg holds free short room fits =
    let size = length-append ts (new_topic name msg ∷ []) in
    let d = added c ts name msg in
    let n = length ts in
    let caps = length-capitals name in
    let nul =
      Free-append 0 (capitals name) (b':' ∷ 32 ∷ msg) (capitals-Free 0 name refl)
        ((λ q. absurd (omega arith)), Free-right 0 name (32 ∷ msg) free) in
    let is : IsTopic (new_topic name msg) = record {
      colon = capitals-Free b':' name refl;
      no_nul = nul;
      short = omega arith;
      fits = fits;
    } in
    let old =
      TopicsFrom-frame c d 0 ts holds.topics
        (λ k p q. record { pointer = ground arith; row = ground arith }) in
    let new : TopicsFrom d (0 + n) (new_topic name msg ∷ []) =
      let rid : row_id (0 + n) ≡ 4 + c.publisher_counter = ground arith in
      let row = c.rows (4 + c.publisher_counter) in
      let here : d.rows (row_id (0 + n)) ≡ paste row 0 (entry name msg ++ 0 ∷ []) =
        ap d.rows rid ∙ ground arith in
      (
        ground arith,
        is,
        subst (λ r. Str r 0 (entry name msg)) (sym here)
            (At-paste row 0 (entry name msg ++ 0 ∷ []), nul),
        tt,
      ) in
    record {
      counted = omega arith;
      started = omega arith;
      few = omega arith;
      topics = TopicsFrom-append d 0 ts (new_topic name msg) old new;
    }

commit_new :
    (message : Bytes) (d : Channel)
    → d.already_exists ≡ false
    → d.publisher_counter < 20
    → commit message d
      ≡ ok (record d {
        all_server_data =
            update d.all_server_data d.publisher_counter (some (4 + d.publisher_counter));
        publisher_counter = d.publisher_counter + 1;
      })
unfolding commit
commit_new message d e room = ground arith

pub not_known :
    (c : Channel) (ts : List Topic) (name msg : List ℕ)
    → index_of name ts 0 ≡ none
    → c.already_exists ≡ false
    → (looked_up c ts name msg).already_exists ≡ false
not_known c ts name msg absent clear =
    ap (λ (o : Option ℕ). elim o [ none ↦ c.already_exists | some _ ↦ true ]) absent ∙ clear

pub publish-added :
    (s : Stack) (c : Channel) (ts : List Topic) (buf : Bytes) (name msg : List ℕ)
    → Holds c ts
    → Str buf 0 (pub_request name msg)
    → Free 32 name
    → length name < 50
    → length ts < 10
    → length (entry name msg) < 150
    → index_of name ts 0 ≡ none
    → c.already_exists ≡ false
    → publish s c buf ≡ ok (added c ts name msg)
publish-added s c ts buf name msg holds str word short room fits absent clear =
    publish_steps s c ts buf name msg holds str word short room fits
    ∙ ap (λ r. r >>= λ e. ok (post msg_ack_notification e))
        (commit_new (copied_message s buf name msg) (looked_up c ts name msg)
          (not_known c ts name msg absent clear) (omega (arith, holds.counted)))

-- A publication "PUB NAME MESSAGE" on a topic that the server does not have, while it has fewer
-- than 10 and the entry fits its row: the server then keeps the old topics, unchanged and in their
-- order, and behind them the new one, named by the capitals with which NAME begins and holding the
-- message behind a blank; the acknowledgement is posted.
pub publish_new :
    (s : Stack) (c : Channel) (ts : List Topic) (buf : Bytes) (name msg : List ℕ)
    → Holds c ts
    → Str buf 0 (pub_request name msg)
    → Free 32 name
    → length name < 50
    → length ts < 10
    → length (entry name msg) < 150
    → index_of name ts 0 ≡ none
    → c.already_exists ≡ false
    → (c' : Channel) × (publish s c buf ≡ ok c')
      × Holds c' (ts ++ new_topic name msg ∷ [])
      × (c'.posted ≡ c.posted ++ msg_ack_notification ∷ [])
      × (c'.already_exists ≡ false)
publish_new s c ts buf name msg holds str word short room fits absent clear = (
  added c ts name msg,
  publish-added s c ts buf name msg holds str word short room fits absent clear,
  added-Holds c ts name msg holds str.1.1.1.1.1 short room fits,
  refl,
  not_known c ts name msg absent clear,
)
