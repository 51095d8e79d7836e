-- ===== src/Channel/Share/Data.antt =====
-- The reply to a subscriber: the text of the topic, up to its back quote.
use publisher_subscriber_ser.Base.{
  ℕ, zero, suc, ◌+◌, ◌<◌, ◌≡◌, ◌≢◌, ◌∙◌, ap, sym, List, [], ◌∷◌, some, ◌++◌, length, length-append,
  arith, ok, refl, Bool, true, false,
}
use mathlib.Core.Path.{subst}
use mathlib.Core.List.{append_assoc}
use publisher_subscriber_ser.Memory.{Bytes}
use publisher_subscriber_ser.Text.{At, Free, Str, paste}
use publisher_subscriber_ser.Text.Paste.{At-left, At-paste}
use publisher_subscriber_ser.Text.Loops.{strlen_lem}
use publisher_subscriber_ser.Channel.{Channel, reply, share_data_on_topic}
use publisher_subscriber_ser.Channel.Topics.{Topic, row_id, IsTopic, TopicsFrom, Holds}
use publisher_subscriber_ser.Channel.Topics.Frame.{TopicsFrom-frame}
use publisher_subscriber_ser.Channel.Store.Lookup.{Free-left, row_of_lem}
use publisher_subscriber_ser.Channel.Share.{Scan, scan_topics, start_scan, share_topic_data}
use publisher_subscriber_ser.Channel.Share.Finish.{finish_text_lem}
use publisher_subscriber_ser.Channel.Share.Search.{scan_name, scan_other}

-- The name starts with another character than `ch`.
abbrev pub StartsOther : (ch : ℕ) → List ℕ → Type 0
StartsOther ch [] = ⊥
StartsOther ch (x ∷ name) = x ≢ ch

abbrev pub AllStartOther : (ch : ℕ) → List Topic → Type 0
AllStartOther ch [] = Unit
AllStartOther ch (t ∷ ts) = StartsOther ch t.name × AllStartOther ch ts

scan_done :
    (c : Channel) (rounds i : ℕ) (s : Scan) → s.done ≡ true → scan_topics c rounds i s ≡ ok s
unfolding scan_topics
scan_done c zero i s h = refl
scan_done c (suc rounds) i s h = rw (h) refl

scan_first :
    (c : Channel) (i : ℕ) (name body : List ℕ) (rounds : ℕ) (eq : Bool) (out : Bytes)
    → c.all_server_data i ≡ some (row_id i)
    → IsTopic (record { name = name; body = body })
    → Str (c.rows (row_id i)) 0 (name ++ b':' ∷ body)
    → i < 20
    → StartsOther (c.current_topic 0) name
    → scan_topics c
        (suc rounds)
        i
        (record { done = false; finished = false; eq = eq; k = 0; n = 0; on_topic_data = out })
      ≡ scan_topics c rounds
          (i + 1)
          (record { done = false; finished = false; eq = false; k = 0; n = 0; on_topic_data = out })
unfolding scan_topics
scan_first c i [] body rounds eq out pointer topic row few other = absurd other
scan_first c i (x ∷ name) body rounds eq out pointer topic row few other =
    let a = c.rows (row_id i) in
    rw
      (
        row_of_lem c i (row_id i) few pointer,
        strlen_lem a 150 (x ∷ name ++ b':' ∷ body) row topic.fits,
        scan_other c.current_topic a (length (name ++ b':' ∷ body)) 0 0 eq out
            (λ e. topic.colon.0 (sym row.0.0 ∙ e)) (λ e. other (sym row.0.0 ∙ e)),
      )
      refl

scan_hit :
    (c : Channel) (i : ℕ) (name body rest : List ℕ) (rounds : ℕ) (eq : Bool) (out : Bytes)
    → c.all_server_data i ≡ some (row_id i)
    → IsTopic (record { name = name; body = body ++ b'`' ∷ rest })
    → Str (c.rows (row_id i)) 0 (name ++ b':' ∷ (body ++ b'`' ∷ rest))
    → At c.current_topic 0 name
    → Free b'`' name
    → Free b'`' body
    → i < 20
    → scan_topics c
        (suc rounds)
        i
        (record { done = false; finished = false; eq = eq; k = 0; n = 0; on_topic_data = out })
      ≡ ok (record {
        done = true;
        finished = true;
        eq = true;
        k = 0 + length name;
        n = 0 + length name + 1 + length body;
        on_topic_data = paste out 0 (name ++ b':' ∷ (body ++ b'`' ∷ []));
      })
unfolding scan_topics
scan_hit c i name body rest rounds eq out pointer topic row cur quote quote' few =
    let a = c.rows (row_id i) in
    let all = name ++ b':' ∷ (body ++ b'`' ∷ rest) in
    let size = length-append name (b':' ∷ (body ++ b'`' ∷ rest)) in
    let size' = length-append body (b'`' ∷ rest) in
    let short = topic.short in
    let fits = topic.fits in
    rw
      (
        row_of_lem c i (row_id i) few pointer,
        strlen_lem a 150 all row fits,
        scan_name c.current_topic a name body rest (length all) 0 0 0 eq out
            (At-left a 0 all (0 ∷ []) row.0) cur topic.colon quote quote' (omega arith)
            (omega arith) (omega arith),
      )
      (scan_done c rounds (i + 1)
        (record {
          done = true;
          finished = true;
          eq = true;
          k = 0 + length name;
          n = 0 + length name + 1 + length body;
          on_topic_data = paste out 0 (name ++ b':' ∷ (body ++ b'`' ∷ []));
        })
        refl)

-- The topics before the one that is asked for leave nothing behind; that one is copied.
find_body :
    (c : Channel) (before after : List Topic) (name body rest : List ℕ) (x i : ℕ) (eq : Bool)
    (out : Bytes)
    → TopicsFrom c i (before ++ (record { name = x ∷ name; body = body ++ b'`' ∷ rest }) ∷ after)
    → AllStartOther (c.current_topic 0) before
    → At c.current_topic 0 (x ∷ name)
    → Free b'`' (x ∷ name)
    → Free b'`' body
    → i + length before < 20
    → scan_topics c
        (length (before ++ (record { name = x ∷ name; body = body ++ b'`' ∷ rest }) ∷ after))
        i
        (record { done = false; finished = false; eq = eq; k = 0; n = 0; on_topic_data = out })
      ≡ ok (record {
        done = true;
        finished = true;
        eq = true;
        k = 0 + length (x ∷ name);
        n = 0 + length (x ∷ name) + 1 + length body;
        on_topic_data = paste out 0 (x ∷ name ++ b':' ∷ (body ++ b'`' ∷ []));
      })
find_body c [] after name body rest x i eq out topics other cur quote quote' few =
    scan_hit c i (x ∷ name) body rest (length after) eq out topics.0 topics.1 topics.2 cur quote
      quote' (omega arith)
find_body c (t ∷ before) after name body rest x i eq out topics other cur quote quote' few =
    let more =
      find_body c before after name body rest x (i + 1) false out topics.3 other.1 cur quote quote'
        (omega arith) in
    let here =
      scan_first c i t.name t.body
        (length (before ++ (record { name = x ∷ name; body = body ++ b'`' ∷ rest }) ∷ after)) eq out
        topics.0 topics.1 topics.2 (omega arith) other.0 in
    here ∙ more

pub middle-IsTopic :
    (c : Channel) (j : ℕ) (before : List Topic) (t : Topic) (after : List Topic)
    → TopicsFrom c j (before ++ t ∷ after)
    → IsTopic t
middle-IsTopic c j [] t after topics = topics.1
middle-IsTopic c j (u ∷ before) t after topics = middle-IsTopic c (j + 1) before t after topics.3

-- A subscriber's request for the topic `current_topic` holds, at a server that keeps `before`, then
-- the topic "NAME:body`rest" with that name, then `after`: the reply is "NAME:body`", and the topics
-- stay as they are. No name before it may start with the character the topic starts with, since the
-- handler does not take back what it copied on a partial match; `name` and `body` hold no back quote.
pub share_topic_data_lem :
    (junk : Bytes) (success : Bool) (c : Channel) (before after : List Topic) (x : ℕ)
    (name body rest : List ℕ)
    → Holds c (before ++ (record { name = x ∷ name; body = body ++ b'`' ∷ rest }) ∷ after)
    → AllStartOther (c.current_topic 0) before
    → At c.current_topic 0 (x ∷ name)
    → Free b'`' (x ∷ name)
    → Free b'`' body
    → share_topic_data junk success c
      ≡ ok (
          reply success
            ((x ∷ name) ++ b':' ∷ (body ++ b'`' ∷ []))
            (record c { state = share_data_on_topic }))
unfolding share_topic_data
share_topic_data_lem junk success c before after x name body rest holds other cur quote quote' =
    let c' : Channel = record c { state = share_data_on_topic } in
    let t : Topic = record { name = x ∷ name; body = body ++ b'`' ∷ rest } in
    let topics : TopicsFrom c' 0 (before ++ t ∷ after) =
      TopicsFrom-frame c c' 0 (before ++ t ∷ after) holds.topics
        (λ k p q. record { pointer = refl; row = refl }) in
    let topic = middle-IsTopic c 0 before t after holds.topics in
    let shown = (x ∷ name) ++ b':' ∷ body in
    let both : (x ∷ name) ++ b':' ∷ (body ++ b'`' ∷ []) ≡ shown ++ b'`' ∷ [] =
      sym (append_assoc (x ∷ name) (b':' ∷ body) (b'`' ∷ [])) in
    let out = paste junk 0 ((x ∷ name) ++ b':' ∷ (body ++ b'`' ∷ [])) in
    let at : At out 0 shown =
      At-left out 0 shown (b'`' ∷ [])
        (subst (At out 0) both (At-paste junk 0 ((x ∷ name) ++ b':' ∷ (body ++ b'`' ∷ [])))) in
    let size = length-append (x ∷ name) (b':' ∷ body) in
    let size1 = length-append (x ∷ name) (b':' ∷ (body ++ b'`' ∷ rest)) in
    let size2 = length-append body (b'`' ∷ rest) in
    let size3 = length-append before (t ∷ after) in
    let fits = topic.fits in
    let few = holds.few in
    let nul : Free 0 shown =
      Free-left 0 shown (b'`' ∷ rest)
        (subst (Free 0) (sym (append_assoc (x ∷ name) (b':' ∷ body) (b'`' ∷ rest))) topic.no_nul) in
    let found =
      ap (λ m. scan_topics c' m 0 (start_scan junk)) holds.counted
      ∙ find_body c' before after name body rest x 0 true junk topics other cur quote quote'
          (omega arith) in
    rw
      (
        found,
        finish_text_lem out (0 + length (x ∷ name) + 1 + length body) shown at nul (omega arith)
            (omega arith),
      )
      (ap (λ l. ok (reply success l c')) (sym both))
