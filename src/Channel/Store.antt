-- ===== src/Channel/Store.antt =====
-- `FSM_Ch_Store_Data_SubPub`: what the server does with a datagram. `Stack` is what the
-- handler's arrays hold before they are written.
pub mod Lookup
pub mod Entries
pub mod Requests
pub mod Full
pub mod Added
pub mod Appended
pub mod Known
use publisher_subscriber_ser.Base.{
  ℕ, zero, suc, ◌+◌, ◌-◌, Bool, true, false, Option, none, some, ◌==◌, ◌||◌, ◌&&◌, ltb,
  if◌then◌else◌, Run, ok, fault, ◌>>=◌, ◌>>◌, in_bounds,
}
use publisher_subscriber_ser.Memory.{Bytes, update}
use publisher_subscriber_ser.Text.{copy_until, copy_string, put, strlen, str_eq, copy_count}
use publisher_subscriber_ser.Channel.{
  Channel, store_data, post, msg_ack_notification, msg_share_data_on_topic, msg_share_all_topics,
  buffer_size, topic_buffer_size, published_data, number_of_topics, max_publishers,
  first_letter_of_topic,
}

pub record Stack : Type 0 where
  pub data_from_client : Bytes
  pub publish_message_tmp : Bytes
  pub topic_tmp : Bytes

-- The row that `allServerData[j]` points to; a null pointer has none.
unfoldable pub row_of : Channel → ℕ → Run ℕ
row_of c j = do
  in_bounds (ltb j number_of_topics)
  elim (c.all_server_data j) [ none ↦ fault | some r ↦ ok r ]

-- `getTopic`: the bytes before the colon.
unfoldable pub get_topic : (server_data junk : Bytes) → Run Bytes
unfolding copy_string
get_topic server_data junk = do
  t ← copy_string b':' server_data published_data 0 junk topic_buffer_size
  ok t.array

-- The loop that looks for the topic, with `n` rounds left: the first index that has it.
unfoldable pub find_topic : (junk current : Bytes) (c : Channel) (n j : ℕ) → Run (Option ℕ)
find_topic junk current c zero j = ok none
find_topic junk current c (suc n) j = do
  r ← row_of c j
  topic ← get_topic (c.rows r) junk
  same ← str_eq current topic_buffer_size topic topic_buffer_size
  elim same [ true ↦ ok (some j) | false ↦ find_topic junk current c n (j + 1) ]

abbrev pub is_capital : ℕ → Bool
is_capital ch = if ltb ch b'A' || ltb b'Z' ch then false else true

pub record Entry : Type 0 where
  pub text : Bytes
  pub tmp : ℕ

-- The loop that copies the capitals which the topic begins with, with `n` rounds left.
unfoldable pub copy_capitals : (current : Bytes) (n j : ℕ) → Entry → Run Entry
unfolding put
copy_capitals current zero j e = ok e
copy_capitals current (suc n) j e = do
  in_bounds (ltb j topic_buffer_size)
  elim (is_capital (current j)) [
    | false ↦ ok e
    | true ↦ do
      text ← put e.text published_data e.tmp (current j)
      copy_capitals current n (j + 1) (record { text = text; tmp = e.tmp + 1 })
  ]

-- The new entry "TOPIC: message" in its row.
unfoldable pub make_entry : (current message row : Bytes) → Run Bytes
make_entry current message row = do
  n ← strlen current topic_buffer_size
  e ← copy_capitals current n 0 (record { text = row; tmp = 0 })
  text ← put e.text published_data e.tmp b':'
  text ← put text published_data (e.tmp + 1) b' '
  d ← copy_until buffer_size 0 message buffer_size 0 text published_data (e.tmp + 2)
  put d.array published_data d.target 0

-- A topic that exists gets the message behind its text.
unfoldable pub append_message : (message row : Bytes) → Run Bytes
append_message message row = do
  data_size ← strlen message buffer_size
  existing_size ← strlen row published_data
  in_bounds (ltb 0 existing_size)
  text ← put row published_data (existing_size - 1) b' '
  text ← copy_count data_size message buffer_size 0 text published_data existing_size
  put text published_data (existing_size + data_size) b'`'

-- The end of the branch: the entry becomes a topic, or the message goes to the topic that exists.
unfoldable pub commit : (message : Bytes) → Channel → Run Channel
commit message c = elim c.already_exists [
  | false ↦ do
    in_bounds (ltb c.publisher_counter number_of_topics)
    ok (record c {
      all_server_data =
          update c.all_server_data c.publisher_counter (some (4 + c.publisher_counter));
      publisher_counter = c.publisher_counter + 1;
    })
  | true ↦ do
    r ← row_of c c.index
    text ← append_message message (c.rows r)
    ok (record c { rows = update c.rows r text; already_exists = false })
]

-- The branch of a PUBLISHER.
unfoldable pub publish : Stack → Channel → (data_from_client : Bytes) → Run Channel
publish s c data_from_client = do
  t ←
      copy_string b' ' data_from_client buffer_size first_letter_of_topic c.current_topic
        topic_buffer_size
  let current = t.array
  found ← find_topic s.topic_tmp current c c.publisher_counter 0
  n ← strlen data_from_client buffer_size
  message ←
      copy_count n data_from_client buffer_size (t.source + 1) s.publish_message_tmp buffer_size 0
  in_bounds (ltb c.publisher_counter max_publishers)
  text ← make_entry current message (c.rows (4 + c.publisher_counter))
  let c' = record c {
    current_topic = current;
    rows = update c.rows (4 + c.publisher_counter) text;
    already_exists = elim found [ none ↦ c.already_exists | some _ ↦ true ];
    index = elim found [ none ↦ c.index | some j ↦ j ];
  }
  c' ← commit message c'
  ok (post msg_ack_notification c')

-- The branch of a SUBSCRIBER.
unfoldable pub subscribe : Channel → (data_from_client : Bytes) → Run Channel
subscribe c data_from_client = do
  t ←
      copy_string 0 data_from_client buffer_size first_letter_of_topic c.current_topic
        topic_buffer_size
  ok (post msg_share_data_on_topic (record c { current_topic = t.array }))

unfoldable pub is_pub : Bytes → Bool
is_pub a = a 0 == b'P' && a 1 == b'U' && a 2 == b'B'

unfoldable pub is_sub : Bytes → Bool
is_sub a = a 0 == b'S' && a 1 == b'U' && a 2 == b'B'

unfoldable pub is_list : Bytes → Bool
is_list a = a 0 == b'L' && a 1 == b'I' && a 2 == b'S' && a 3 == b'T'

-- The handler: `strcpy`, and the branch for the first word. Any other datagram has no branch.
unfoldable pub store_data_sub_pub : Stack → Channel → Run Channel
store_data_sub_pub s c = do
  let c' = record c { state = store_data }
  d ← copy_string 0 c.data_buffer buffer_size 0 s.data_from_client buffer_size
  let data_from_client = d.array
  if is_pub data_from_client
      then publish s c' data_from_client
      else if is_sub data_from_client
      then subscribe c' data_from_client
      else if is_list data_from_client
      then ok (post msg_share_all_topics c')
      else ok c'
