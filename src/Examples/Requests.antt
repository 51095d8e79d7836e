-- ===== src/Examples/Requests.antt =====
-- The handlers on requests to the server as it starts.
use publisher_subscriber_ser.Base.{
  ℕ, zero, suc, ◌+◌, ◌≡◌, true, false, some, List, [], ◌∷◌, ◌++◌, ok, fault, refl, arith,
}
use publisher_subscriber_ser.Text.Paste.{At-left}
use publisher_subscriber_ser.Text.Loops.{same}
use publisher_subscriber_ser.Channel.{
  Channel, reply, store_data, share_all_topics_state, share_data_on_topic, publish_ack_state,
  msg_ack_notification,
}
use publisher_subscriber_ser.Channel.Topics.{Topic, row_id, TopicsFrom, Holds, index_of}
use publisher_subscriber_ser.Channel.Store.{publish, store_data_sub_pub}
use publisher_subscriber_ser.Channel.Store.Requests.{begins, pub_request, store_data_sub_pub_lem}
use publisher_subscriber_ser.Channel.Store.Entries.{capitals}
use publisher_subscriber_ser.Channel.Store.Full.{publish_full}
use publisher_subscriber_ser.Channel.Store.Added.{new_topic, publish_new}
use publisher_subscriber_ser.Channel.Store.Known.{publish_known}
use publisher_subscriber_ser.Channel.Share.{
  nth_or_zero, share_all_topics, share_topic_data, publish_ack, ack_text,
}
use publisher_subscriber_ser.Channel.Share.Names.{listing, share_all_topics_lem}
use publisher_subscriber_ser.Channel.Share.Data.{share_topic_data_lem}
use publisher_subscriber_ser.Channel.Share.Ack.{publish_ack_lem}
use publisher_subscriber_ser.Channel.Machine.{start}
use publisher_subscriber_ser.Channel.Machine.Cycles.{Holds-same}
use publisher_subscriber_ser.Channel.Machine.Initial.{
  initial_topics, initial_rows, weather, football, intel_cpu, colleges_in_america, has, has-Free,
  literal-Str, literal-IsTopic, start-Serves,
}
use publisher_subscriber_ser.Examples.Given.{
  server, zeros, zeros-Ends, stack, news, hello, news_text, weather_name, weather_text,
  football_name, football_text,
}

store_data_sub_pub_lem_example :
    store_data_sub_pub stack (record server { data_buffer = nth_or_zero hello })
    ≡ ok (record server { data_buffer = nth_or_zero hello; state = store_data })
unfolding has begins
store_data_sub_pub_lem_example =
    store_data_sub_pub_lem stack (record server { data_buffer = nth_or_zero hello }) hello
      (literal-Str hello refl) (omega arith)

publish_new_example :
    (c' : Channel) × (publish stack server (nth_or_zero (pub_request news news_text)) ≡ ok c')
    × Holds c' (initial_topics ++ new_topic news news_text ∷ [])
    × (c'.posted ≡ server.posted ++ msg_ack_notification ∷ [])
    × (c'.already_exists ≡ false)
unfolding has index_of same capitals
publish_new_example =
    publish_new stack server initial_topics (nth_or_zero (pub_request news news_text)) news
      news_text start-Serves.holds (literal-Str (pub_request news news_text) refl)
      (has-Free 32 news refl) (omega arith) (omega arith) (omega arith) refl start-Serves.clear

abbrev weather_more : Topic
weather_more = record { name = weather_name; body = weather_text ++ (32 ∷ news_text ++ b'`' ∷ []) }

publish_known_example :
    (c' : Channel) × (publish stack server (nth_or_zero (pub_request weather_name news_text))
      ≡ ok c')
    × Holds c' (weather_more ∷ football ∷ intel_cpu ∷ colleges_in_america ∷ [])
    × (c'.posted ≡ server.posted ++ msg_ack_notification ∷ [])
    × (c'.already_exists ≡ false)
unfolding has capitals start initial_rows nth_or_zero
publish_known_example =
    publish_known stack server [] (football ∷ intel_cpu ∷ colleges_in_america ∷ [])
      (nth_or_zero (pub_request weather_name news_text)) weather_name weather_text news_text b'`'
      start-Serves.holds tt (literal-Str (pub_request weather_name news_text) refl)
      (has-Free 32 weather_name refl) (omega arith) (omega arith) (omega arith) refl

share_all_topics_lem_example :
    share_all_topics zeros true server
    ≡ ok (
        reply true
          (listing initial_topics ++ b'`' ∷ [])
          (record server { state = share_all_topics_state }))
share_all_topics_lem_example =
    share_all_topics_lem zeros true server initial_topics start-Serves.holds

abbrev asked : Channel
asked = record server { current_topic = nth_or_zero (b'F' ∷ football_name) }

share_topic_data_lem_example :
    share_topic_data zeros true asked
    ≡ ok (
        reply true
          ((b'F' ∷ football_name) ++ b':' ∷ (football_text ++ b'`' ∷ []))
          (record asked { state = share_data_on_topic }))
unfolding nth_or_zero has
share_topic_data_lem_example =
    share_topic_data_lem zeros true asked (weather ∷ []) (intel_cpu ∷ colleges_in_america ∷ []) b'F'
      football_name football_text []
      (Holds-same server asked initial_topics refl refl refl start-Serves.holds)
      ((λ e. absurd (omega arith)), tt)
      (At-left (nth_or_zero (b'F' ∷ football_name)) 0 (b'F' ∷ football_name) (0 ∷ [])
        (literal-Str (b'F' ∷ football_name) refl).0)
      (has-Free b'`' (b'F' ∷ football_name) refl) (has-Free b'`' football_text refl)

publish_ack_lem_example :
    publish_ack zeros true server
    ≡ ok (reply true ack_text (record server { state = publish_ack_state }))
publish_ack_lem_example = publish_ack_lem zeros 0 true server zeros-Ends (omega arith)

-- A server with ten topics that are all "A:".
abbrev topic_a : Topic
topic_a = record { name = b'A' ∷ []; body = [] }

abbrev many : ℕ → List Topic
many zero = []
many (suc n) = topic_a ∷ many n

abbrev crowded : Channel
crowded = record server {
  publisher_counter = 10;
  rows = λ _. nth_or_zero (b'A' ∷ b':' ∷ []);
  all_server_data = λ k. some (row_id k);
}

many-TopicsFrom : (j n : ℕ) → TopicsFrom crowded j (many n)
unfolding has
many-TopicsFrom j zero = tt
many-TopicsFrom j (suc n) = (
  refl,
  literal-IsTopic topic_a refl refl (omega arith) (omega arith),
  literal-Str (b'A' ∷ b':' ∷ []) refl,
  many-TopicsFrom (j + 1) n,
)

publish_full_example : publish stack crowded (nth_or_zero (pub_request news news_text)) ≡ fault
unfolding has
publish_full_example =
    publish_full stack crowded (many 10) (nth_or_zero (pub_request news news_text)) news news_text
      (record {
        counted = refl;
        started = omega arith;
        few = omega arith;
        topics = many-TopicsFrom 0 10;
      })
      (literal-Str (pub_request news news_text) refl) (has-Free 32 news refl) (omega arith) refl
      (omega arith)
