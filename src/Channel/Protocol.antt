-- ===== src/Channel/Protocol.antt =====
-- The service that the channel offers, without the memory and the messages it is made of: what
-- each request is answered and what topics the server then has.
use publisher_subscriber_ser.Base.{ℕ, ◌<◌, ◌≡◌, none, List, [], ◌∷◌, ◌++◌, length}
use publisher_subscriber_ser.Text.{Free}
use publisher_subscriber_ser.Channel.Topics.{Topic, index_of}
use publisher_subscriber_ser.Channel.Store.Entries.{entry}
use publisher_subscriber_ser.Channel.Store.Requests.{pub_request}
use publisher_subscriber_ser.Channel.Store.Added.{new_topic}
use publisher_subscriber_ser.Channel.Share.{ack_text}
use publisher_subscriber_ser.Channel.Share.Names.{listing}
use publisher_subscriber_ser.Channel.Share.Data.{AllStartOther}

-- A request for the list (and what the client sends behind the word), for a topic, and of a
-- publisher.
pub data Request : Type 0 where
  list_of : List ℕ → Request
  topic_of : List ℕ → Request
  publication : (name msg : List ℕ) → Request

-- The request as the client sends it.
abbrev pub encode : Request → List ℕ
encode (list_of rest) = b'L' ∷ b'I' ∷ b'S' ∷ b'T' ∷ rest
encode (topic_of name) = b'S' ∷ b'U' ∷ b'B' ∷ 32 ∷ name
encode (publication name msg) = pub_request name msg

-- `Served ts r reply ts'`: with the topics `ts`, the request is answered by `reply`, and then the
-- topics are `ts'`.
pub data Served : List Topic → Request → List ℕ → List Topic → Type 0 where
  all_listed :
      (ts : List Topic) (rest : List ℕ)
      → Free 0 rest
      → length rest < 1000
      → Served ts (list_of rest) (listing ts ++ b'`' ∷ []) ts
  topic_shared :
      (before after : List Topic) (x : ℕ) (name body rest : List ℕ)
      → AllStartOther x before
      → Free b'`' (x ∷ name)
      → Free b'`' body
      → Served
          (before ++ (record { name = x ∷ name; body = body ++ b'`' ∷ rest }) ∷ after)
          (topic_of (x ∷ name))
          ((x ∷ name) ++ b':' ∷ (body ++ b'`' ∷ []))
          (before ++ (record { name = x ∷ name; body = body ++ b'`' ∷ rest }) ∷ after)
  topic_added :
      (ts : List Topic) (name msg : List ℕ)
      → Free 0 (name ++ 32 ∷ msg)
      → Free 32 name
      → length name < 50
      → length ts < 10
      → length (entry name msg) < 150
      → index_of name ts 0 ≡ none
      → Served ts (publication name msg) ack_text (ts ++ new_topic name msg ∷ [])

-- A sequence of requests with their replies.
pub data Session : List Topic → List Request → List (List ℕ) → List Topic → Type 0 where
  over : (ts : List Topic) → Session ts [] [] ts
  next :
      (ts ts' ts'' : List Topic) (r : Request) (rs : List Request) (reply : List ℕ)
      (replies : List (List ℕ))
      → Served ts r reply ts'
      → Session ts' rs replies ts''
      → Session ts (r ∷ rs) (reply ∷ replies) ts''
