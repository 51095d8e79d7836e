-- ===== src/Examples/Given.antt =====
-- The data of the examples: the server as it starts, and requests.
use publisher_subscriber_ser.Base.{ℕ, ◌≡◌, true, List, [], ◌∷◌, ok, refl, arith}
use publisher_subscriber_ser.Memory.{Bytes}
use publisher_subscriber_ser.Fsm.{FsmTable}
use publisher_subscriber_ser.Channel.{Channel}
use publisher_subscriber_ser.Channel.Store.{Stack}
use publisher_subscriber_ser.Channel.Share.Ack.{Ends}
use publisher_subscriber_ser.Channel.Machine.{Handler, Outside, initialize, start}
use publisher_subscriber_ser.Channel.Machine.Dispatch.{built}
use publisher_subscriber_ser.Channel.Machine.Initial.{initial}

abbrev pub server : Channel
server = start true true true initial

abbrev pub table : FsmTable Handler
table = built.0

pub table_made : initialize ≡ ok table
table_made = built.1

abbrev pub zeros : Bytes
zeros = λ _. 0

pub zeros-Ends : Ends zeros 0
zeros-Ends = record { nul = refl; before = λ k p. absurd (omega arith) }

abbrev pub stack : Stack
stack = record { data_from_client = zeros; publish_message_tmp = zeros; topic_tmp = zeros }

-- What is outside when the client 7 sends `bytes`.
abbrev pub outside : List ℕ → Outside
outside bytes = record {
  datagram = record { from = 7; bytes = bytes };
  stack = stack;
  junk = zeros;
  success = true;
}

abbrev pub news : List ℕ
news = b'N' ∷ b'E' ∷ b'W' ∷ b'S' ∷ []

abbrev pub hello : List ℕ
hello = b'H' ∷ b'E' ∷ b'L' ∷ b'L' ∷ b'O' ∷ []

abbrev pub news_text : List ℕ
news_text = b'h' ∷ b'i' ∷ b'`' ∷ []

abbrev pub weather_name : List ℕ
weather_name = b'W' ∷ b'E' ∷ b'A' ∷ b'T' ∷ b'H' ∷ b'E' ∷ b'R' ∷ []

abbrev pub weather_text : List ℕ
weather_text =
    32 ∷ b'B' ∷ b'e' ∷ b'l' ∷ b'g' ∷ b'r' ∷ b'a' ∷ b'c' ∷ b'e' ∷ 32 ∷ b'8' ∷ b'C' ∷ 32 ∷ 32 ∷ b'N'
    ∷ b'e' ∷ b'w' ∷ 32 ∷ b'Y' ∷ b'o' ∷ b'r' ∷ b'k' ∷ 32 ∷ b'3' ∷ b'C' ∷ 32 ∷ 32 ∷ b'L' ∷ b'o' ∷ b'n'
    ∷ b'd' ∷ b'o' ∷ b'n' ∷ 32 ∷ b'9' ∷ b'C' ∷ 32 ∷ 32 ∷ b'T' ∷ b'o' ∷ b'k' ∷ b'y' ∷ b'o' ∷ 32 ∷ b'5'
    ∷ b'C' ∷ 32 ∷ 32 ∷ b'M' ∷ b'o' ∷ b's' ∷ b'c' ∷ b'o' ∷ b'w' ∷ 32 ∷ b'-' ∷ b'9' ∷ b'C' ∷ []

abbrev pub football_name : List ℕ
football_name = b'O' ∷ b'O' ∷ b'T' ∷ b'B' ∷ b'A' ∷ b'L' ∷ b'L' ∷ []

abbrev pub football_text : List ℕ
football_text =
    32 ∷ b'F' ∷ b'r' ∷ b'a' ∷ b'n' ∷ b'c' ∷ b'e' ∷ 32 ∷ b'4' ∷ b':' ∷ b'2' ∷ 32 ∷ b'C' ∷ b'r' ∷ b'o'
    ∷ b'a' ∷ b't' ∷ b'i' ∷ b'a' ∷ 32 ∷ 32 ∷ b'B' ∷ b'e' ∷ b'l' ∷ b'g' ∷ b'i' ∷ b'u' ∷ b'm' ∷ 32
    ∷ b'2' ∷ b':' ∷ b'0' ∷ 32 ∷ b'E' ∷ b'n' ∷ b'g' ∷ b'l' ∷ b'a' ∷ b'n' ∷ b'd' ∷ 32 ∷ 32 ∷ b'G'
    ∷ b'e' ∷ b'r' ∷ b'm' ∷ b'a' ∷ b'n' ∷ b'y' ∷ 32 ∷ b'2' ∷ b':' ∷ b'1' ∷ 32 ∷ b'S' ∷ b'w' ∷ b'e'
    ∷ b'd' ∷ b'e' ∷ b'n' ∷ 32 ∷ 32 ∷ b'J' ∷ b'a' ∷ b'p' ∷ b'a' ∷ b'n' ∷ 32 ∷ b'2' ∷ b':' ∷ b'2' ∷ 32
    ∷ b'S' ∷ b'e' ∷ b'n' ∷ b'e' ∷ b'g' ∷ b'a' ∷ b'l' ∷ []
