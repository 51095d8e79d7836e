-- ===== src/Channel/Store/Full.antt =====
-- A publication at a server that has 10 topics.
use publisher_subscriber_ser.Base.{
  ℕ, ◌+◌, ◌<◌, ◌≤◌, ◌≡◌, ap, ◌∙◌, false, List, ◌∷◌, length, ok, arith, length-append, ltb, le→ltb,
}
use publisher_subscriber_ser.Memory.{Bytes}
use publisher_subscriber_ser.Text.{Free, Str}
use publisher_subscriber_ser.Text.Paste.{
  bytes_from, length-bytes_from, At-bytes_from, string_in, string_in-Str,
}
use publisher_subscriber_ser.Text.Loops.{copy_string_lem, strlen_lem, copy_count_lem}
use publisher_subscriber_ser.Channel.{Channel}
use publisher_subscriber_ser.Channel.Topics.{Topic, Holds, index_of}
use publisher_subscriber_ser.Channel.Store.{Stack, find_topic, publish}
use publisher_subscriber_ser.Channel.Store.Lookup.{find_topic_lem, Free-left, At-upto}
use publisher_subscriber_ser.Base.{fault}
use publisher_subscriber_ser.Channel.Store.Requests.{pub_request}

-- A publication at a server that keeps 10 topics, on a new topic or on one it has, writes beyond
-- the array `tmpOnCurrentTopicData`, if the request is short enough to be copied.
pub publish_full :
    (s : Stack) (c : Channel) (ts : List Topic) (buf : Bytes) (name msg : List ℕ)
    → Holds c ts
    → Str buf 0 (pub_request name msg)
    → Free 32 name
    → length name < 50
    → length ts ≡ 10
    → 5 + length name + length (pub_request name msg) ≤ 1024
    → publish s c buf ≡ fault
unfolding publish
publish_full s c ts buf name msg holds str word short full fits =
    let request = pub_request name msg in
    let size = length-append name (32 ∷ msg) in
    let topic_at = At-upto buf 4 32 name msg str.0.1.1.1.1 in
    let current = string_in c.current_topic name in
    let nul_free : Free 0 name = Free-left 0 name (32 ∷ msg) str.1.1.1.1.1 in
    let current_str = string_in-Str c.current_topic name nul_free in
    let found : find_topic s.topic_tmp current c c.publisher_counter 0 ≡ ok (index_of name ts 0) =
      ap (λ k. find_topic s.topic_tmp current c k 0) holds.counted
      ∙ find_topic_lem s.topic_tmp current c ts 0 name holds.topics current_str short
          (omega arith) in
    let n = length request in
    let i : ℕ = 4 + length name + 1 in
    let copied =
      copy_count_lem n buf 1024 i s.publish_message_tmp 1024 0 (bytes_from buf i n)
        (At-bytes_from buf i n) (length-bytes_from buf i n) (omega arith) (omega arith) in
    let counter : ltb c.publisher_counter 10 ≡ false =
      le→ltb c.publisher_counter 10 (omega (arith, holds.counted)) in
    rw (
      copy_string_lem 32 buf 1024 4 c.current_topic 50 name topic_at word (omega arith) short,
      found,
      strlen_lem buf 1024 request str (omega arith),
      copied,
      counter,
    )
