-- ===== src/Channel/Share.antt =====
-- The replies: `FSM_Ch_Share_Topic_Data`, `FSM_Ch_Share_All_Topics` and `FSM_Ch_Publish_ACK`.
-- `junk` is what the handler's array on the stack holds before it is written, and `success` whether
-- sendto accepts the datagram.
pub mod Finish
pub mod Names
pub mod Search
pub mod Data
pub mod Ack
use publisher_subscriber_ser.Base.{
  ℕ, zero, suc, ◌+◌, Bool, true, false, not, List, [], ◌∷◌, ◌==◌, ◌&&◌, ltb, if◌then◌else◌, Run, ok,
  out_of_fuel, ◌>>=◌, ◌>>◌, in_bounds,
}
use publisher_subscriber_ser.Memory.{Bytes}
use publisher_subscriber_ser.Text.{put, strlen}
use publisher_subscriber_ser.Text.Paste.{bytes_from}
use publisher_subscriber_ser.Channel.{
  Channel, share_data_on_topic, share_all_topics_state, publish_ack_state, reply, buffer_size,
  topic_buffer_size, published_data,
}
use publisher_subscriber_ser.Channel.Store.{row_of}

-- The end of a reply: the back quote, the terminator, and the bytes of the string for sendto.
unfoldable pub finish_text : (out : Bytes) (n : ℕ) → Run (List ℕ)
finish_text out n = do
  out ← put out buffer_size n b'`'
  out ← put out buffer_size (n + 1) 0
  size ← strlen out buffer_size
  ok (bytes_from out 0 size)

-- The locals of `FSM_Ch_Share_Topic_Data`.
pub record Scan : Type 0 where
  pub done : Bool
  pub finished : Bool
  pub eq : Bool
  pub k : ℕ
  pub n : ℕ
  pub on_topic_data : Bytes

-- The comparison of one character with the topic: `true` if the inner loop breaks.
unfoldable pub compare_char : (current : Bytes) (ch : ℕ) → Scan → Run (Scan × Bool)
compare_char current ch s =
    if not (ch == b':') && not s.finished
    then (do
      in_bounds (ltb s.k topic_buffer_size)
      if not (ch == current s.k)
          then ok (record s { eq = false; k = 0 }, true)
          else ok (record s { eq = true; k = s.k + 1 }, false))
    else if ch == b':'
    then ok (record s { eq = true; finished = true }, false)
    else ok (s, false)

-- The character goes to the reply, if the topic is still the one asked for.
unfoldable pub emit_char : (ch : ℕ) → Scan → Run (Scan × Bool)
unfolding put
emit_char ch s =
    if s.eq
    then (do
      out ← put s.on_topic_data buffer_size s.n ch
      if ch == b'`'
          then ok (record s { on_topic_data = out; done = true }, true)
          else ok (record s { on_topic_data = out; n = s.n + 1 }, false))
    else ok (s, false)

-- The inner loop, over one text, with `rounds` characters left.
unfoldable pub scan_text : (current text : Bytes) (rounds j : ℕ) → Scan → Run Scan
scan_text current text zero j s = ok s
scan_text current text (suc rounds) j s = do
  r ← compare_char current (text j) s
  elim r.1 [
    | true ↦ ok r.0
    | false ↦ do
      e ← emit_char (text j) r.0
      elim e.1 [ true ↦ ok e.0 | false ↦ scan_text current text rounds (j + 1) e.0 ]
  ]

-- The outer loop, over the topics, with `rounds` topics left.
unfoldable pub scan_topics : (c : Channel) (rounds i : ℕ) → Scan → Run Scan
scan_topics c zero i s = ok s
scan_topics c (suc rounds) i s = elim s.done [
  | true ↦ ok s
  | false ↦ do
    r ← row_of c i
    size ← strlen (c.rows r) published_data
    s' ← scan_text c.current_topic (c.rows r) size 0 s
    scan_topics c rounds (i + 1) s'
]

abbrev pub start_scan : Bytes → Scan
start_scan junk = record {
  done = false;
  finished = false;
  eq = true;
  k = 0;
  n = 0;
  on_topic_data = junk;
}

unfoldable pub share_topic_data : (junk : Bytes) (success : Bool) → Channel → Run Channel
share_topic_data junk success c = do
  let c' = record c { state = share_data_on_topic }
  s ← scan_topics c' c.publisher_counter 0 (start_scan junk)
  text ← finish_text s.on_topic_data s.n
  ok (reply success text c')

pub record NameList : Type 0 where
  pub buffer : Bytes
  pub k : ℕ

-- One text's name and a newline, with `rounds` characters left.
unfoldable pub copy_name : (text : Bytes) (rounds j : ℕ) → NameList → Run NameList
unfolding put
copy_name text zero j s = ok s
copy_name text (suc rounds) j s = elim (text j == b':') [
  | true ↦ do buffer ← put s.buffer buffer_size s.k 10; ok (record { buffer = buffer; k = s.k + 1 })
  | false ↦ do
    buffer ← put s.buffer buffer_size s.k (text j)
    copy_name text rounds (j + 1) (record { buffer = buffer; k = s.k + 1 })
]

unfoldable pub copy_names : (c : Channel) (rounds i : ℕ) → NameList → Run NameList
copy_names c zero i s = ok s
copy_names c (suc rounds) i s = do
  r ← row_of c i
  size ← strlen (c.rows r) published_data
  s' ← copy_name (c.rows r) size 0 s
  copy_names c rounds (i + 1) s'

unfoldable pub share_all_topics : (junk : Bytes) (success : Bool) → Channel → Run Channel
share_all_topics junk success c = do
  let c' = record c { state = share_all_topics_state }
  s ← copy_names c' c.publisher_counter 0 (record { buffer = junk; k = 0 })
  text ← finish_text s.buffer s.k
  ok (reply success text c')

-- "Topic added successfully!`"
abbrev pub ack_text : List ℕ
ack_text =
    b'T' ∷ b'o' ∷ b'p' ∷ b'i' ∷ b'c' ∷ 32 ∷ b'a' ∷ b'd' ∷ b'd' ∷ b'e' ∷ b'd' ∷ 32 ∷ b's' ∷ b'u'
    ∷ b'c' ∷ b'c' ∷ b'e' ∷ b's' ∷ b's' ∷ b'f' ∷ b'u' ∷ b'l' ∷ b'l' ∷ b'y' ∷ b'!' ∷ b'`' ∷ []

-- `ackMessage`, whose bytes behind the text are 0.
unfoldable pub nth_or_zero : List ℕ → Bytes
nth_or_zero [] i = 0
nth_or_zero (x ∷ xs) zero = x
nth_or_zero (x ∷ xs) (suc i) = nth_or_zero xs i

abbrev pub ack_message : Bytes
ack_message = nth_or_zero ack_text

-- The loop over the local copy of the acknowledgement, which measures that copy in each round.
unfoldable pub copy_ack : (fuel : ℕ) (tmp : Bytes) (i : ℕ) → Run (Bytes × ℕ)
copy_ack zero tmp i = out_of_fuel
copy_ack (suc fuel) tmp i = do
  size ← strlen tmp buffer_size
  elim (ltb i size) [
    | false ↦ ok (tmp, i)
    | true ↦ do
      in_bounds (ltb i published_data)
      tmp ← put tmp buffer_size i (ack_message i)
      copy_ack fuel tmp (i + 1)
  ]

-- The copy is made and terminated, and the global text is what is sent.
unfoldable pub publish_ack : (junk : Bytes) (success : Bool) → Channel → Run Channel
publish_ack junk success c = do
  let c' = record c { state = publish_ack_state }
  r ← copy_ack (buffer_size + 1) junk 0
  _ ← put r.0 buffer_size (r.1 + 1) 0
  size ← strlen ack_message published_data
  ok (reply success (bytes_from ack_message 0 size) c')
