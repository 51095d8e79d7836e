-- ===== src/Channel/Store/Known.antt =====
-- A publication on a topic that the server has.
use publisher_subscriber_ser.Base.{
  ℕ, ◌+◌, ◌<◌, ◌≡◌, refl, ap, sym, ◌∙◌, true, false, Option, none, some, List, [], ◌∷◌, ◌++◌,
  length, ok, arith, length-append, ◌>>=◌, All,
}
use mathlib.Core.Path.{subst}
use mathlib.Core.List.{append_assoc}
use publisher_subscriber_ser.Memory.{Bytes, update}
use publisher_subscriber_ser.Text.{Free, Str, paste}
use publisher_subscriber_ser.Text.Loops.{same}
use publisher_subscriber_ser.Channel.{Channel, post, msg_ack_notification}
use publisher_subscriber_ser.Channel.Topics.{Topic, text, row_id, Holds, index_of}
use publisher_subscriber_ser.Channel.Topics.Frame.{TopicsFrom-at, index_of-first}
use publisher_subscriber_ser.Channel.Store.{Stack, row_of, append_message, commit, publish}
use publisher_subscriber_ser.Channel.Store.Lookup.{Free-right, row_of_lem}
use publisher_subscriber_ser.Channel.Store.Entries.{capitals, entry, append_message_lem}
use publisher_subscriber_ser.Channel.Store.Requests.{
  pub_request, looked_up, copied_message, message-Str, publish_steps,
}
use publisher_subscriber_ser.Channel.Store.Appended.{appended, appended-Holds, looked_up-row}

commit_known :
    (message text : Bytes) (d : Channel) (j r : ℕ)
    → d.already_exists ≡ true
    → d.index ≡ j
    → row_of d j ≡ ok r
    → append_message message (d.rows r) ≡ ok text
    → commit message d ≡ ok (record d { rows = update d.rows r text; already_exists = false })
unfolding commit
commit_known message new d j r e i row made = ground arith

publish_sizes :
    (name b msg : List ℕ) (last : ℕ)
    → length (entry name msg) < 150
    → length (name ++ b':' ∷ (b ++ (32 ∷ msg ++ b'`' ∷ []))) < 150
    → (length msg < 1024) × (length ((name ++ b':' ∷ b) ++ last ∷ []) + length msg < 150)
publish_sizes name b msg last fits fits' =
    let l1 = length-append name (b':' ∷ (b ++ (32 ∷ msg ++ b'`' ∷ []))) in
    let l2 = length-append b (32 ∷ msg ++ b'`' ∷ []) in
    let l3 = length-append msg (b'`' ∷ []) in
    let l4 = length-append (name ++ b':' ∷ b) (last ∷ []) in
    let l5 = length-append name (b':' ∷ b) in
    let l6 = length-append (capitals name) (b':' ∷ 32 ∷ msg) in omega arith

-- A publication on the topic that the server has with index `length before`, whose text in its row
-- is followed by zero bytes: that topic's last character becomes a blank, behind which the
-- message and a back quote are put; every other topic is unchanged, and the acknowledgement is
-- posted. The number of topics stays, and it must be below 10 even so, since the new entry is
-- written behind the last topic first.
pub publish_known :
    (s : Stack) (c : Channel) (before after : List Topic) (buf : Bytes) (name b msg : List ℕ)
    (last : ℕ)
    → let t : Topic = record { name = name; body = b ++ last ∷ [] } in
      let t' : Topic = record { name = name; body = b ++ (32 ∷ msg ++ b'`' ∷ []) } in
      let ts = before ++ t ∷ after in
      Holds c ts
      → All (λ u. same name u.name ≡ false) before
      → Str buf 0 (pub_request name msg)
      → Free 32 name
      → length ts < 10
      → length (entry name msg) < 150
      → length (text t') < 150
      → c.rows (row_id (length before)) (length (text t')) ≡ 0
      → (c' : Channel) × (publish s c buf ≡ ok c')
        × Holds c' (before ++ t' ∷ after)
        × (c'.posted ≡ c.posted ++ msg_ack_notification ∷ [])
        × (c'.already_exists ≡ false)
publish_known s c before after buf name b msg last holds first str word room fits fits' ends =
    let j = length before in
    let t : Topic = record { name = name; body = b ++ last ∷ [] } in
    let t' : Topic = record { name = name; body = b ++ (32 ∷ msg ++ b'`' ∷ []) } in
    let ts = before ++ t ∷ after in
    let d = looked_up c ts name msg in
    let front = name ++ b':' ∷ b in
    let new = paste (c.rows (row_id j)) (length front) (32 ∷ msg ++ b'`' ∷ []) in
    let message = copied_message s buf name msg in
    let e : 0 + j ≡ j = omega arith in
    let kept = TopicsFrom-at c 0 before t after holds.topics in
    let size = length-append before (t ∷ after) in
    let size' = length-append name (32 ∷ msg) in
    let mstr = message-Str s buf name msg str in
    let text_t : text t ≡ front ++ last ∷ [] = sym (append_assoc name (b':' ∷ b) (last ∷ [])) in
    let old : Str (c.rows (row_id j)) 0 (front ++ last ∷ []) =
      subst (λ x. Str (c.rows (row_id j)) 0 x) text_t
        (subst (λ k. Str (c.rows (row_id k)) 0 (text t)) e kept.2) in
    let found : index_of name ts 0 ≡ some j =
      index_of-first name (b ++ last ∷ []) before after 0 first ∙ ap some e in
    let known : d.already_exists ≡ true =
      ap (λ (o : Option ℕ). elim o [ none ↦ c.already_exists | some _ ↦ true ]) found in
    let index : d.index ≡ j = ap (λ (o : Option ℕ). elim o [ none ↦ c.index | some k ↦ k ]) found in
    let pointer : c.all_server_data j ≡ some (row_id j) =
      subst (λ k. c.all_server_data k ≡ some (row_id k)) e kept.0 in
    let row = row_of_lem d j (row_id j) (omega arith) pointer in
    let msize = publish_sizes name b msg last fits fits' in
    let made : append_message message (d.rows (row_id j)) ≡ ok new =
      ap (append_message message) (
        looked_up-row c ts name msg j (omega (arith, holds.counted))
          (omega (arith, holds.counted, holds.started)))
      ∙ append_message_lem message (c.rows (row_id j)) front msg last old mstr msize.0 msize.1 in
    (
      record (appended c ts name b msg j) { already_exists = false; index = d.index },
      publish_steps s c ts buf name msg holds str word kept.1.short room fits
          ∙ ap (λ r. r >>= λ e. ok (post msg_ack_notification e))
              (commit_known message new d j (row_id j) known index row made),
      appended-Holds c before after name b msg last holds
          (Free-right 0 name (32 ∷ msg) str.1.1.1.1.1).1 fits' ends,
      refl,
      refl,
    )
