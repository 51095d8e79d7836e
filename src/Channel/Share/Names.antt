-- ===== src/Channel/Share/Names.antt =====
-- The list of topics is the name of each, in order, on a line of its own.
use publisher_subscriber_ser.Base.{
  ℕ, zero, suc, ◌+◌, ◌*◌, ◌<◌, ◌≤◌, ◌≡◌, ◌∙◌, ap, List, [], ◌∷◌, ◌++◌, length, length-append, arith,
  ok, refl, Bool,
}
use publisher_subscriber_ser.Memory.{Bytes, update}
use publisher_subscriber_ser.Text.{At, Free, paste, put}
use publisher_subscriber_ser.Text.Paste.{At-left, At-paste, paste-then}
use publisher_subscriber_ser.Text.Loops.{strlen_lem}
use publisher_subscriber_ser.Channel.{Channel, reply, share_all_topics_state}
use publisher_subscriber_ser.Channel.Topics.{Topic, text, row_id, TopicsFrom, Holds}
use publisher_subscriber_ser.Channel.Topics.Frame.{TopicsFrom-frame}
use publisher_subscriber_ser.Channel.Store.Lookup.{Free-left, Free-append, row_of_lem}
use publisher_subscriber_ser.Channel.Share.{copy_name, copy_names, share_all_topics}
use publisher_subscriber_ser.Channel.Share.Finish.{finish_text_lem}

-- The names, each with a newline behind it.
unfoldable pub listing : List Topic → List ℕ
listing [] = []
listing (t ∷ ts) = (t.name ++ 10 ∷ []) ++ listing ts

copy_name_lem :
    (a : Bytes) (rounds j : ℕ) (buffer : Bytes) (k : ℕ) (name rest : List ℕ)
    → At a j (name ++ b':' ∷ rest)
    → Free b':' name
    → length name < rounds
    → k + length name < 1024
    → copy_name a rounds j (record { buffer = buffer; k = k })
      ≡ ok (record { buffer = paste buffer k (name ++ 10 ∷ []); k = k + length name + 1 })
unfolding copy_name put paste
copy_name_lem a zero j buffer k name rest at free h h' = absurd (omega arith)
copy_name_lem a (suc rounds) j buffer k [] rest at free h h' = ground arith
copy_name_lem a (suc rounds) j buffer k (c ∷ name) rest at free h h' =
    let more =
      copy_name_lem a rounds (j + 1) (update buffer k c) (k + 1) name rest at.1 free.1 (omega arith)
        (omega arith) in
    ground arith

length-listing :
    (c : Channel) (j : ℕ) (ts : List Topic)
    → TopicsFrom c j ts
    → length (listing ts) ≤ 50 * length ts
unfolding listing
length-listing c j [] h = omega arith
length-listing c j (t ∷ ts) h =
    let l1 = length-append (t.name ++ 10 ∷ []) (listing ts) in
    let l2 = length-append t.name (10 ∷ []) in
    let more = length-listing c (j + 1) ts h.3 in let short = h.1.short in omega arith

listing-Free : (c : Channel) (j : ℕ) (ts : List Topic) → TopicsFrom c j ts → Free 0 (listing ts)
unfolding listing
listing-Free c j [] h = tt
listing-Free c j (t ∷ ts) h =
    Free-append 0 (t.name ++ 10 ∷ []) (listing ts)
      (Free-append 0 t.name (10 ∷ []) (Free-left 0 t.name (b':' ∷ t.body) h.1.no_nul)
        ((λ q. absurd (omega arith)), tt))
      (listing-Free c (j + 1) ts h.3)

paste-nil : (a : Bytes) (k : ℕ) → paste a k [] ≡ a
unfolding paste
paste-nil a k = refl

copy_names_lem :
    (c : Channel) (ts : List Topic) (j : ℕ) (buffer : Bytes) (k : ℕ)
    → TopicsFrom c j ts
    → j + length ts ≤ 20
    → k + 50 * length ts < 1024
    → copy_names c (length ts) j (record { buffer = buffer; k = k })
      ≡ ok (record { buffer = paste buffer k (listing ts); k = k + length (listing ts) })
unfolding copy_names listing
copy_names_lem c [] j buffer k h few small =
    rw (paste-nil buffer k) (ap (λ n. ok (record { buffer = buffer; k = n })) (omega arith))
copy_names_lem c (t ∷ ts) j buffer k h few small =
    let size = length-append t.name (b':' ∷ t.body) in
    let line = t.name ++ 10 ∷ [] in
    let length_line = length-append t.name (10 ∷ []) in
    let length_all = length-append line (listing ts) in
    let short = h.1.short in
    let at = At-left (c.rows (row_id j)) 0 (text t) (0 ∷ []) h.2.0 in
    let more =
      copy_names_lem c ts (j + 1) (paste buffer k line) (k + length t.name + 1) h.3 (omega arith)
        (omega arith) in
    rw
      (
        row_of_lem c j (row_id j) (omega arith) h.0,
        strlen_lem (c.rows (row_id j)) 150 (text t) h.2 h.1.fits,
        copy_name_lem (c.rows (row_id j)) (length (text t)) 0 buffer k t.name t.body at h.1.colon
            (omega arith) (omega arith),
        more,
        paste-then buffer k line (k + length t.name + 1) (listing ts) (omega arith),
      )
      (ap (λ n. ok (record { buffer = paste buffer k (line ++ listing ts); k = n })) (omega arith))

-- A request for the list, at a server that keeps the topics `ts`: the reply holds the name of each
-- topic with a newline behind it, in the order of the topics, and a back quote at the end; the
-- topics stay as they are. (At most 10 names of at most 49 bytes fit the buffer.)
pub share_all_topics_lem :
    (junk : Bytes) (success : Bool) (c : Channel) (ts : List Topic)
    → Holds c ts
    → share_all_topics junk success c
      ≡ ok (reply success (listing ts ++ b'`' ∷ []) (record c { state = share_all_topics_state }))
unfolding share_all_topics
share_all_topics_lem junk success c ts holds =
    let c' : Channel = record c { state = share_all_topics_state } in
    let topics : TopicsFrom c' 0 ts =
      TopicsFrom-frame c c' 0 ts holds.topics (λ k p q. record { pointer = refl; row = refl }) in
    let out = paste junk 0 (listing ts) in
    let small = length-listing c 0 ts holds.topics in
    let few = holds.few in
    let names : copy_names c' c.publisher_counter 0 (record { buffer = junk; k = 0 })
        ≡ ok (record { buffer = out; k = 0 + length (listing ts) }) =
      ap (λ n. copy_names c' n 0 (record { buffer = junk; k = 0 })) holds.counted
      ∙ copy_names_lem c' ts 0 junk 0 topics (omega arith) (omega arith) in
    rw (
      names,
      finish_text_lem out (0 + length (listing ts)) (listing ts) (At-paste junk 0 (listing ts))
          (listing-Free c 0 ts holds.topics) (omega arith) (omega arith),
    )
