-- ===== src/Examples/Service.antt =====
-- Rounds of the machine, from its start on.
use publisher_subscriber_ser.Base.{
  ℕ, ◌≡◌, true, some, List, [], ◌∷◌, ◌++◌, ok, refl, arith, release, ◌>>=◌,
}
use publisher_subscriber_ser.Fsm.{get_procedure}
use publisher_subscriber_ser.Text.Loops.{same}
use publisher_subscriber_ser.Channel.{
  Channel, connected, store_data, state_code, msg_store_data_on_topic,
}
use publisher_subscriber_ser.Channel.Topics.{Topic, index_of}
use publisher_subscriber_ser.Channel.Store.Requests.{begins}
use publisher_subscriber_ser.Channel.Store.Entries.{capitals}
use publisher_subscriber_ser.Channel.Store.Added.{new_topic}
use publisher_subscriber_ser.Channel.Share.{nth_or_zero, ack_text}
use publisher_subscriber_ser.Channel.Share.Names.{listing}
use publisher_subscriber_ser.Channel.Protocol.{
  Request, list_of, topic_of, publication, encode, all_listed, topic_shared, topic_added, Session,
  over, next,
}
use publisher_subscriber_ser.Channel.Machine.{Outside, initialize, start}
use publisher_subscriber_ser.Channel.Machine.Dispatch.{transition, initialize_lem}
use publisher_subscriber_ser.Channel.Machine.Rounds.{rounds, rounds-Unknown}
use publisher_subscriber_ser.Channel.Machine.Cycles.{Serves}
use publisher_subscriber_ser.Channel.Machine.Refines.{Exchange, Answers, served}
use publisher_subscriber_ser.Channel.Machine.Sessions.{
  Exchanges, quiet, exchanged, addressed, session, start-Session,
}
use publisher_subscriber_ser.Channel.Machine.Initial.{
  initial, initial_topics, has, has-Free, literal-Str, start-Serves,
}
use publisher_subscriber_ser.Examples.Given.{
  server, table, table_made, zeros-Ends, outside, news, hello, news_text,
}

initialize_lem_example :
    (do t ← initialize; get_procedure release t (state_code connected) 0x0019)
    ≡ ok (some (transition connected 0x0019))
initialize_lem_example = initialize_lem release connected 0x0019

abbrev confused : Channel
confused = record server {
  state = connected;
  posted = msg_store_data_on_topic ∷ [];
  data_buffer = nth_or_zero hello;
}

rounds-Unknown_example :
    rounds release table (outside [] ∷ outside [] ∷ outside hello ∷ []) confused
    ≡ ok (record confused { state = store_data; posted = [] })
unfolding has begins
rounds-Unknown_example =
    rounds-Unknown release table (outside []) (outside [] ∷ outside hello ∷ []) confused hello
      table_made refl refl (literal-Str hello refl) (omega arith) (refl, refl, refl)

exchange : (r : Request) → Exchange r (outside (encode r)) (outside [])
exchange r = record {
  delivered = refl;
  accepted = refl;
  size = 0;
  ends = zeros-Ends;
  small = omega arith;
}

served_example :
    Answers release table
      (outside (encode (list_of [])))
      (outside [])
      (outside [])
      server
      (listing initial_topics ++ b'`' ∷ [])
      initial_topics
served_example =
    served release table (outside (encode (list_of []))) (outside []) (outside []) server
      initial_topics initial_topics (list_of []) (listing initial_topics ++ b'`' ∷ []) table_made
      start-Serves (exchange (list_of [])) (all_listed initial_topics [] tt (omega arith))

-- A publisher adds a topic, a subscriber asks for it, and another client for the list.
abbrev requests : List Request
requests = publication news news_text ∷ topic_of news ∷ list_of [] ∷ []

abbrev more_topics : List Topic
more_topics = initial_topics ++ new_topic news news_text ∷ []

abbrev replies : List (List ℕ)
replies =
    ack_text
    ∷ (news ++ b':' ∷ (32 ∷ b'h' ∷ b'i' ∷ b'`' ∷ []))
    ∷ (listing more_topics ++ b'`' ∷ [])
    ∷ []

abbrev outsides : List Request → List Outside
outsides [] = []
outsides (r ∷ rs) = outside (encode r) ∷ outside [] ∷ outside [] ∷ outsides rs

exchanges : (rs : List Request) → Exchanges rs (outsides rs)
exchanges [] = quiet
exchanges (r ∷ rs) =
    exchanged r rs (outside (encode r)) (outside []) (outside []) (outsides rs) (exchange r)
      (exchanges rs)

news-Session : Session initial_topics requests replies more_topics
unfolding index_of same has capitals
news-Session =
    next initial_topics more_topics more_topics (publication news news_text)
      (topic_of news ∷ list_of [] ∷ []) ack_text
      ((news ++ b':' ∷ (32 ∷ b'h' ∷ b'i' ∷ b'`' ∷ [])) ∷ (listing more_topics ++ b'`' ∷ []) ∷ [])
      (topic_added initial_topics news news_text (has-Free 0 (news ++ 32 ∷ news_text) refl)
        (has-Free 32 news refl) (omega arith) (omega arith) (omega arith) refl)
      (next more_topics more_topics more_topics (topic_of news) (list_of [] ∷ [])
        (news ++ b':' ∷ (32 ∷ b'h' ∷ b'i' ∷ b'`' ∷ [])) ((listing more_topics ++ b'`' ∷ []) ∷ [])
        (topic_shared initial_topics [] b'N' (b'E' ∷ b'W' ∷ b'S' ∷ []) (32 ∷ b'h' ∷ b'i' ∷ []) []
          (
            (λ e. absurd (omega arith)),
            (
              (λ e. absurd (omega arith)),
              ((λ e. absurd (omega arith)), ((λ e. absurd (omega arith)), tt)),
            ),
          )
          (has-Free b'`' news refl) (has-Free b'`' (32 ∷ b'h' ∷ b'i' ∷ []) refl))
        (next more_topics more_topics more_topics (list_of []) [] (listing more_topics ++ b'`' ∷ [])
          [] (all_listed more_topics [] tt (omega arith)) (over more_topics)))

session_example :
    (c' : Channel) × (rounds release table (outsides requests) server ≡ ok c')
    × Serves c' more_topics
    × (c'.sent ≡ server.sent ++ addressed (outsides requests) replies)
session_example =
    session release table (outsides requests) server initial_topics more_topics requests replies
      table_made start-Serves (exchanges requests) news-Session

start-Session_example :
    (c' : Channel) × (rounds release table (outsides requests) (start true true true initial)
      ≡ ok c')
    × Serves c' more_topics
    × (c'.sent ≡ addressed (outsides requests) replies)
start-Session_example =
    start-Session release table (outsides requests) more_topics requests replies table_made
      (exchanges requests) news-Session
