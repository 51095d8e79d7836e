-- ===== src/Channel.antt =====
-- ChAuto, the channel automaton of the server (`POP3ClientCppUnit/ChAuto.cpp`, `ChAuto.h`, `const.h`): the
-- topics that it keeps, its requests and its replies. The globals of the file and the state of
-- the machine are the fields of `Channel`. `rows` are the texts that the topics lie in: row 0 to 3
-- are topic1 to topic4, and row 4 + k is tmpOnCurrentTopicData[k]; `all_server_data` points into
-- them. `posted` are the codes of the messages in the machine's own mailbox, oldest first, and
-- `sent` the replies given to sendto, each with the address it goes to.
pub mod Topics
pub mod Store
pub mod Share
pub mod Machine
pub mod Protocol
use publisher_subscriber_ser.Base.{ℕ, Bool, false, Option, List, [], ◌∷◌, ◌++◌, if◌then◌else◌}
use publisher_subscriber_ser.Memory.{Bytes}

pub data ChStates : Type 0 where
  idle connected share_data_on_topic store_data share_all_topics_state publish_ack_state : ChStates

-- `enum ChStates`.
abbrev pub state_code : ChStates → ℕ
state_code idle = 0
state_code connected = 1
state_code share_data_on_topic = 2
state_code store_data = 3
state_code share_all_topics_state = 4
state_code publish_ack_state = 5

pub record Channel : Type 0 where
  pub state : ChStates
  pub data_buffer : Bytes
  pub publisher_counter : ℕ
  pub already_exists : Bool
  pub index : ℕ
  pub rows : ℕ → Bytes
  pub all_server_data : ℕ → Option ℕ
  pub current_topic : Bytes
  pub client_address : ℕ
  pub socket_open : Bool
  pub posted : List ℕ
  pub sent : List (ℕ × List ℕ)

abbrev pub msg_wait_cl_message : ℕ
msg_wait_cl_message = 0x0001

abbrev pub msg_connection_failed : ℕ
msg_connection_failed = 0x0002

abbrev pub msg_ack_notification : ℕ
msg_ack_notification = 0x0016

abbrev pub msg_stay_connected : ℕ
msg_stay_connected = 0x0017

abbrev pub msg_share_data_on_topic : ℕ
msg_share_data_on_topic = 0x0018

abbrev pub msg_store_data_on_topic : ℕ
msg_store_data_on_topic = 0x0019

abbrev pub msg_share_all_topics : ℕ
msg_share_all_topics = 0x0020

abbrev pub buffer_size : ℕ
buffer_size = 1024

abbrev pub topic_buffer_size : ℕ
topic_buffer_size = 50

abbrev pub published_data : ℕ
published_data = 150

abbrev pub number_of_topics : ℕ
number_of_topics = 20

abbrev pub max_publishers : ℕ
max_publishers = 10

abbrev pub first_letter_of_topic : ℕ
first_letter_of_topic = 4

-- `PrepareNewMessage(0x00, code)` to the machine itself, and `SendMessage`.
abbrev pub post : ℕ → Channel → Channel
post code c = record c { posted = c.posted ++ code ∷ [] }

-- `sendto` of a text to the last client: on success the machine tells itself to stay connected,
-- and on an error the socket is closed and nothing is posted.
abbrev pub reply : (success : Bool) → List ℕ → Channel → Channel
reply success text c =
    if success
    then post msg_stay_connected (record c { sent = c.sent ++ (c.client_address, text) ∷ [] })
    else record c { socket_open = false }
