-- ===== src/Channel/Store/Appended.antt =====
-- The topics that the server keeps after a message is put behind one of them.
use publisher_subscriber_ser.Base.{
  ℕ, ◌+◌, ◌<◌, ◌≤◌, ◌≡◌, ◌≢◌, refl, ap, sym, ◌∙◌, false, List, [], ◌∷◌, ◌++◌, length, arith,
  length-append, inl, inr,
}
use mathlib.Core.Path.{subst}
use mathlib.Core.List.{append_assoc}
use publisher_subscriber_ser.Memory.{Bytes, update}
use publisher_subscriber_ser.Text.{At, Free, Str, paste}
use publisher_subscriber_ser.Text.Paste.{At-paste, At-left, At-append, At-paste_frame, paste-frame}
use publisher_subscriber_ser.Channel.{Channel, post, msg_ack_notification}
use publisher_subscriber_ser.Channel.Topics.{Topic, text, row_id, IsTopic, Holds}
use publisher_subscriber_ser.Channel.Topics.Frame.{TopicsFrom-replace, TopicsFrom-at}
use publisher_subscriber_ser.Channel.Store.Lookup.{Free-left, Free-append}
use publisher_subscriber_ser.Channel.Store.Requests.{looked_up}

-- The channel after a publication on the topic with index `j`.
abbrev pub appended : Channel → List Topic → (name b msg : List ℕ) (j : ℕ) → Channel
appended c ts name b msg j =
    let d = looked_up c ts name msg in
    post msg_ack_notification (record d {
      rows =
          update d.rows (row_id j)
            (paste (c.rows (row_id j)) (length (name ++ b':' ∷ b)) (32 ∷ msg ++ b'`' ∷ []));
      already_exists = false;
    })

-- The old text from its start up to its last character, the message and its back quote, and the
-- end of the string.
appended-Str :
    (row : Bytes) (front msg : List ℕ) (last : ℕ)
    → Str row 0 (front ++ last ∷ [])
    → Free 0 msg
    → row (length (front ++ last ∷ []) + length msg + 1) ≡ 0
    → Str (paste row (length front) (32 ∷ msg ++ b'`' ∷ [])) 0 (front ++ (32 ∷ msg ++ b'`' ∷ []))
appended-Str row front msg last str free ends =
    let n = length front in
    let new = 32 ∷ msg ++ b'`' ∷ [] in
    let row' = paste row n new in
    let size = length-append front (last ∷ []) in
    let size' = length-append msg (b'`' ∷ []) in
    let kept : At row 0 front =
      At-left row 0 front (last ∷ []) (At-left row 0 (front ++ last ∷ []) (0 ∷ []) str.0) in
    let first : At row' 0 front = At-paste_frame row n new 0 front kept (inl (omega arith)) in
    let end : row' (n + length new) ≡ 0 =
      paste-frame row n new (n + length new) (inr (omega arith)) ∙ (ap row (omega arith) ∙ ends) in
    let second : At row' n (new ++ 0 ∷ []) =
      At-append row' n new (0 ∷ []) (At-paste row n new) (end, tt) in
    let at : At row' 0 (front ++ (new ++ 0 ∷ [])) =
      At-append row' 0 front (new ++ 0 ∷ []) first
        (subst (λ k. At row' k (new ++ 0 ∷ [])) (omega arith) second) in
    (
      rw (append_assoc front new (0 ∷ [])) at,
      Free-append 0 front new (Free-left 0 front (last ∷ []) str.1) (
        (λ q. absurd (omega arith)),
        Free-append 0 msg (b'`' ∷ []) free ((λ q. absurd (omega arith)), tt),
      ),
    )

-- The row of an old topic is not the row of the new entry, nor that of another topic.
row_id-ne : (j n : ℕ) → j < n → 4 ≤ n → row_id j ≢ 4 + n
row_id-ne j n h h' = ground arith

row_id-injective : (j k : ℕ) → j ≢ k → row_id j ≢ row_id k
row_id-injective j k h = ground arith

pub looked_up-row :
    (c : Channel) (ts : List Topic) (name msg : List ℕ) (j : ℕ)
    → j < c.publisher_counter
    → 4 ≤ c.publisher_counter
    → (looked_up c ts name msg).rows (row_id j) ≡ c.rows (row_id j)
unfolding update
looked_up-row c ts name msg j h h' =
    let other = row_id-ne j c.publisher_counter h h' in ground arith

update_self : (r : ℕ → Bytes) (i : ℕ) (v : Bytes) → update r i v i ≡ v
unfolding update
update_self r i v = ground arith

update-ne : (r : ℕ → Bytes) (i k : ℕ) (v : Bytes) → k ≢ i → update r i v k ≡ r k
unfolding update
update-ne r i k v h = ground arith

pub appended-Holds :
    (c : Channel) (before after : List Topic) (name b msg : List ℕ) (last : ℕ)
    → let t : Topic = record { name = name; body = b ++ last ∷ [] } in
      let t' : Topic = record { name = name; body = b ++ (32 ∷ msg ++ b'`' ∷ []) } in
      let ts = before ++ t ∷ after in
      Holds c ts
      → Free 0 msg
      → length (text t') < 150
      → c.rows (row_id (length before)) (length (text t')) ≡ 0
      → Holds (appended c ts name b msg (length before)) (before ++ t' ∷ after)
appended-Holds c before after name b msg last holds free fits ends =
    let j = length before in
    let t : Topic = record { name = name; body = b ++ last ∷ [] } in
    let new = 32 ∷ msg ++ b'`' ∷ [] in
    let t' : Topic = record { name = name; body = b ++ new } in
    let ts = before ++ t ∷ after in
    let d = appended c ts name b msg j in
    let front = name ++ b':' ∷ b in
    let row = c.rows (row_id j) in
    let size = length-append before (t ∷ after) in
    let size' = length-append before (t' ∷ after) in
    let e : 0 + j ≡ j = omega arith in
    let kept = TopicsFrom-at c 0 before t after holds.topics in
    let text_t : text t ≡ front ++ last ∷ [] = sym (append_assoc name (b':' ∷ b) (last ∷ [])) in
    let text_t' : text t' ≡ front ++ new = sym (append_assoc name (b':' ∷ b) new) in
    let old : Str row 0 (front ++ last ∷ []) =
      subst (λ x. Str row 0 x) text_t (subst (λ k. Str (c.rows (row_id k)) 0 (text t)) e kept.2) in
    let lens = length-append front new in
    let lens' = length-append front (last ∷ []) in
    let lens'' = length-append msg (b'`' ∷ []) in
    let ends' : row (length (front ++ last ∷ []) + length msg + 1) ≡ 0 =
      ap row (omega (arith, ap length text_t')) ∙ ends in
    let str = appended-Str row front msg last old free ends' in
    let str' : Str (paste row (length front) new) 0 (text t') =
      subst (λ x. Str (paste row (length front) new) 0 x) (sym text_t') str in
    let is : IsTopic t' = record {
      colon = kept.1.colon;
      no_nul = str'.1;
      short = kept.1.short;
      fits = fits;
    } in
    let here : d.rows (row_id j) ≡ paste row (length front) new =
      update_self (looked_up c ts name msg).rows (row_id j) (paste row (length front) new) in
    record {
      counted = omega (arith, holds.counted);
      started = omega (arith, holds.started);
      few = omega (arith, holds.few);
      topics =
          TopicsFrom-replace c d 0 before t t' after holds.topics
            (λ k p q. record {
              pointer = refl;
              row =
                  update-ne (looked_up c ts name msg).rows (row_id j) (row_id k)
                    (paste row (length front) new) (row_id-injective k j (omega arith))
                  ∙ looked_up-row c ts name msg k (omega (arith, holds.counted))
                      (omega (arith, holds.counted, holds.started));
            })
            refl is
            (subst (λ k. Str (d.rows (row_id k)) 0 (text t')) (sym e)
              (subst (λ r. Str r 0 (text t')) (sym here) str'));
    }
