-- ===== src/Channel/Store/Requests.antt =====
-- What a datagram does, from the first word on.
use publisher_subscriber_ser.Base.{
  ℕ, ◌+◌, ◌<◌, ◌≡◌, ap, ◌∙◌, Bool, true, false, none, some, List, [], ◌∷◌, ◌++◌, length, ok, arith,
  length-append, if◌then◌else◌, ltb, lt→ltb, ◌==◌, ◌>>=◌,
}
use mathlib.Core.List.{append_assoc}
use publisher_subscriber_ser.Memory.{Bytes, update}
use publisher_subscriber_ser.Text.{At, Free, Str, paste}
use publisher_subscriber_ser.Text.Paste.{
  At-right, At-shift, bytes_from, length-bytes_from, At-bytes_from, paste-bytes_from, string_in,
  string_in-Str,
}
use publisher_subscriber_ser.Text.Loops.{copy_string_lem, strlen_lem, copy_count_lem}
use publisher_subscriber_ser.Channel.{
  Channel, store_data, post, msg_ack_notification, msg_share_data_on_topic, msg_share_all_topics,
}
use publisher_subscriber_ser.Channel.Topics.{Topic, Holds, index_of}
use publisher_subscriber_ser.Channel.Store.{
  Stack, find_topic, commit, publish, subscribe, is_pub, is_sub, is_list, store_data_sub_pub,
}
use publisher_subscriber_ser.Channel.Store.Lookup.{find_topic_lem, Free-left, Free-right, At-upto}
use publisher_subscriber_ser.Channel.Store.Entries.{capitals, entry, make_entry_lem}

-- Whether a text begins with a word.
unfoldable pub begins : (word s : List ℕ) → Bool
begins [] s = true
begins (w ∷ word) [] = false
begins (w ∷ word) (c ∷ s) = if c == w then begins word s else false

abbrev pub pub_word : List ℕ
pub_word = b'P' ∷ b'U' ∷ b'B' ∷ []

abbrev pub sub_word : List ℕ
sub_word = b'S' ∷ b'U' ∷ b'B' ∷ []

abbrev pub list_word : List ℕ
list_word = b'L' ∷ b'I' ∷ b'S' ∷ b'T' ∷ []

is_pub_lem : (a : Bytes) (s : List ℕ) → Str a 0 s → is_pub a ≡ begins pub_word s
unfolding is_pub begins
is_pub_lem a [] h = ground arith
is_pub_lem a (x ∷ []) h = ground arith
is_pub_lem a (x ∷ y ∷ []) h = ground arith
is_pub_lem a (x ∷ y ∷ z ∷ s) h = ground arith

is_sub_lem : (a : Bytes) (s : List ℕ) → Str a 0 s → is_sub a ≡ begins sub_word s
unfolding is_sub begins
is_sub_lem a [] h = ground arith
is_sub_lem a (x ∷ []) h = ground arith
is_sub_lem a (x ∷ y ∷ []) h = ground arith
is_sub_lem a (x ∷ y ∷ z ∷ s) h = ground arith

is_list_lem : (a : Bytes) (s : List ℕ) → Str a 0 s → is_list a ≡ begins list_word s
unfolding is_list begins
is_list_lem a [] h = ground arith
is_list_lem a (x ∷ []) h = ground arith
is_list_lem a (x ∷ y ∷ []) h = ground arith
is_list_lem a (x ∷ y ∷ z ∷ []) h = ground arith
is_list_lem a (x ∷ y ∷ z ∷ w ∷ s) h = ground arith

-- A datagram of fewer than 1024 bytes goes by its first word to the branch of the publisher, of
-- the subscriber or of the list, and any other leaves the machine in the state that waits for
-- their messages with no message posted.
pub store_data_sub_pub_lem :
    (s : Stack) (c : Channel) (request : List ℕ)
    → Str c.data_buffer 0 request
    → length request < 1024
    → let c' : Channel = record c { state = store_data } in
      let data_from_client = string_in s.data_from_client request in
      store_data_sub_pub s c ≡ (
        if begins pub_word request
        then publish s c' data_from_client
        else if begins sub_word request
        then subscribe c' data_from_client
        else if begins list_word request
        then ok (post msg_share_all_topics c')
        else ok c')
unfolding store_data_sub_pub
store_data_sub_pub_lem s c request str short =
    let data_str = string_in-Str s.data_from_client request str.1 in
    rw (
      copy_string_lem 0 c.data_buffer 1024 0 s.data_from_client 1024 request str.0 str.1
          (omega arith) short,
      is_pub_lem (string_in s.data_from_client request) request data_str,
      is_sub_lem (string_in s.data_from_client request) request data_str,
      is_list_lem (string_in s.data_from_client request) request data_str,
    )

-- A subscriber's topic is all that follows "SUB ".
pub subscribe_lem :
    (c : Channel) (buf : Bytes) (topic : List ℕ)
    → Str buf 0 (b'S' ∷ b'U' ∷ b'B' ∷ 32 ∷ topic)
    → length topic < 50
    → subscribe c buf
      ≡ ok (
          post msg_share_data_on_topic
            (record c { current_topic = string_in c.current_topic topic }))
unfolding subscribe
subscribe_lem c buf topic str short = rw (
    copy_string_lem 0 buf 1024 4 c.current_topic 50 topic str.0.1.1.1.1 str.1.1.1.1.1 (omega arith)
      short)

-- The request of a publisher.
abbrev pub pub_request : (name msg : List ℕ) → List ℕ
pub_request name msg = b'P' ∷ b'U' ∷ b'B' ∷ 32 ∷ name ++ 32 ∷ msg

-- The channel as `publish` leaves it for the end of the branch.
abbrev pub looked_up : Channel → List Topic → (name msg : List ℕ) → Channel
looked_up c ts name msg = record c {
  current_topic = string_in c.current_topic name;
  rows =
      update c.rows (4 + c.publisher_counter)
        (paste (c.rows (4 + c.publisher_counter)) 0 (entry name msg ++ 0 ∷ []));
  already_exists = elim (index_of name ts 0) [ none ↦ c.already_exists | some _ ↦ true ];
  index = elim (index_of name ts 0) [ none ↦ c.index | some j ↦ j ];
}

-- What `publishMessageTmp` holds after the copy.
abbrev pub copied_message : Stack → Bytes → (name msg : List ℕ) → Bytes
copied_message s buf name msg =
    paste s.publish_message_tmp 0
      (bytes_from buf (4 + length name + 1) (length (pub_request name msg)))

pub message-Str :
    (s : Stack) (buf : Bytes) (name msg : List ℕ)
    → Str buf 0 (pub_request name msg)
    → Str (copied_message s buf name msg) 0 msg
message-Str s buf name msg str =
    let n = length (pub_request name msg) in
    let size = length-append name (32 ∷ msg) in
    let size' = length-append msg (0 ∷ []) in
    let i : ℕ = 4 + length name + 1 in
    let there : At buf i (msg ++ 0 ∷ []) =
      (At-right buf 4 name ((32 ∷ msg) ++ 0 ∷ []) (rw append_assoc at (str.0.1.1.1.1))).1 in
    (
      At-shift buf (copied_message s buf name msg) i 0 (msg ++ 0 ∷ [])
          (λ k h. paste-bytes_from s.publish_message_tmp 0 buf i n k (omega arith)) there,
      (Free-right 0 name (32 ∷ msg) str.1.1.1.1.1).1,
    )

-- The branch of a publisher up to its end: the topic is looked up, and the new entry is written
-- behind the last topic whether or not the topic exists.
pub publish_steps :
    (s : Stack) (c : Channel) (ts : List Topic) (buf : Bytes) (name msg : List ℕ)
    → Holds c ts
    → Str buf 0 (pub_request name msg)
    → Free 32 name
    → length name < 50
    → length ts < 10
    → length (entry name msg) < 150
    → publish s c buf ≡ (do
      c' ← commit (copied_message s buf name msg) (looked_up c ts name msg)
      ok (post msg_ack_notification c'))
unfolding publish
publish_steps s c ts buf name msg holds str word short room fits =
    let request = pub_request name msg in
    let size = length-append name (32 ∷ msg) in
    let esize = length-append (capitals name) (b':' ∷ 32 ∷ msg) in
    let topic_at = At-upto buf 4 32 name msg str.0.1.1.1.1 in
    let current = string_in c.current_topic name in
    let nul_free : Free 0 name = Free-left 0 name (32 ∷ msg) str.1.1.1.1.1 in
    let current_str = string_in-Str c.current_topic name nul_free in
    let found : find_topic s.topic_tmp current c c.publisher_counter 0 ≡ ok (index_of name ts 0) =
      ap (λ k. find_topic s.topic_tmp current c k 0) holds.counted
      ∙ find_topic_lem s.topic_tmp current c ts 0 name holds.topics current_str short
          (omega arith) in
    let n = length request in
    let i : ℕ = 4 + length name + 1 in
    let copied =
      copy_count_lem n buf 1024 i s.publish_message_tmp 1024 0 (bytes_from buf i n)
        (At-bytes_from buf i n) (length-bytes_from buf i n) (omega arith) (omega arith) in
    let row = c.rows (4 + c.publisher_counter) in
    let made =
      make_entry_lem current (copied_message s buf name msg) row name msg current_str short
        (message-Str s buf name msg str) (omega arith) fits in
    let counter : ltb c.publisher_counter 10 ≡ true = lt→ltb c.publisher_counter 10 (omega arith) in
    rw (
      copy_string_lem 32 buf 1024 4 c.current_topic 50 name topic_at word (omega arith) short,
      found,
      strlen_lem buf 1024 request str (omega arith),
      copied,
      counter,
      made,
    )
