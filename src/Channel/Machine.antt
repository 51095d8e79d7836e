-- ===== src/Channel/Machine.antt =====
-- ChAuto as a machine: its table of procedures (`Initialize`), its start, the handlers that receive
-- and that fail, and one round of the system's loop over the machine's own mailbox. What the
-- network does enters as arguments: the datagram that recvfrom brings, and whether the calls of the
-- socket library succeed.
pub mod Dispatch
pub mod Rounds
pub mod Cycles
pub mod Refines
pub mod Initial
pub mod Sessions
use publisher_subscriber_ser.Base.{
  ℕ, ◌+◌, Bool, true, false, Option, none, some, List, [], ◌∷◌, ◌==◌, if◌then◌else◌, Run, ok, fault,
  ◌>>=◌, Build,
}
use publisher_subscriber_ser.Memory.{Bytes, update}
use publisher_subscriber_ser.Text.{paste}
use publisher_subscriber_ser.Fsm
use publisher_subscriber_ser.Fsm.{FsmTable, init_event_proc, get_procedure}
use publisher_subscriber_ser.Channel.{
  Channel, idle, connected, store_data, share_all_topics_state, share_data_on_topic,
  publish_ack_state, state_code, post, msg_wait_cl_message, msg_connection_failed,
  msg_ack_notification, msg_stay_connected, msg_share_data_on_topic, msg_store_data_on_topic,
  msg_share_all_topics,
}
use publisher_subscriber_ser.Channel.Store.{Stack, store_data_sub_pub}
use publisher_subscriber_ser.Channel.Share.{share_topic_data, share_all_topics, publish_ack}

-- The procedures of the machine.
pub data Handler : Type 0 where
  cl_connected cl_failed all_topics topic_data store ack do_nothing : Handler

-- `Initialize`, on the table that the constructor makes (6 states, 3 procedures in each).
unfoldable pub initialize : Run (FsmTable Handler)
unfolding init_event_proc Fsm.create
initialize = do
  t ← Fsm.create 6 3
  t ← init_event_proc do_nothing t (state_code idle) msg_wait_cl_message cl_connected
  t ← init_event_proc do_nothing t (state_code idle) msg_connection_failed cl_failed
  t ← init_event_proc do_nothing t (state_code connected) msg_stay_connected cl_connected
  t ← init_event_proc do_nothing t (state_code connected) msg_store_data_on_topic store
  t ← init_event_proc do_nothing t (state_code store_data) msg_share_data_on_topic topic_data
  t ← init_event_proc do_nothing t (state_code store_data) msg_share_all_topics all_topics
  t ← init_event_proc do_nothing t (state_code store_data) msg_ack_notification ack
  t ← init_event_proc do_nothing t (state_code publish_ack_state) msg_stay_connected cl_connected
  t ←
      init_event_proc do_nothing t (state_code share_all_topics_state) msg_stay_connected
        cl_connected
  init_event_proc do_nothing t (state_code share_data_on_topic) msg_stay_connected cl_connected

-- `Start`: the four topics are set, the socket is made, and the first message is posted. The
-- arguments are whether WSAStartup, socket and bind succeed.
unfoldable pub start : (startup socket bind : Bool) → Channel → Channel
unfolding update
start startup socket bind c =
    let data0 = update c.all_server_data 0 (some 0) in
    let data1 = update data0 1 (some 1) in
    let data2 = update data1 2 (some 2) in
    let c' = record c {
      state = idle;
      all_server_data = update data2 3 (some 3);
      socket_open = false;
    } in
    if startup
    then if socket
      then if bind
        then post msg_wait_cl_message (record c' { socket_open = true })
        else post msg_connection_failed c'
      else post msg_connection_failed c'
    else c'

-- A datagram: who sent it, and the bytes that recvfrom put into the buffer (none on an error).
pub record Datagram : Type 0 where
  pub from : ℕ
  pub bytes : List ℕ

-- `FSM_Ch_Idle_Cl_Connected`.
unfoldable pub idle_cl_connected : Datagram → Channel → Channel
unfolding paste
idle_cl_connected d c = post msg_store_data_on_topic (record c {
  state = connected;
  client_address = d.from;
  data_buffer = paste (λ _. 0) 0 d.bytes;
})

-- What a handler takes from outside.
pub record Outside : Type 0 where
  pub datagram : Datagram
  pub stack : Stack
  pub junk : Bytes
  pub success : Bool

unfoldable pub run_handler : Handler → Outside → Channel → Run Channel
run_handler cl_connected o c = ok (idle_cl_connected o.datagram c)
run_handler cl_failed o c = ok (record c { state = idle })
run_handler all_topics o c = share_all_topics o.junk o.success c
run_handler topic_data o c = share_topic_data o.junk o.success c
run_handler store o c = store_data_sub_pub o.stack c
run_handler ack o c = publish_ack o.junk o.success c
run_handler do_nothing o c = ok c

-- The procedure for a message, or a call of a null pointer.
unfoldable pub dispatch : Build → FsmTable Handler → Outside → ℕ → Channel → Run Channel
dispatch b t o event c = do
  p ← get_procedure b t (state_code c.state) event
  elim p [ none ↦ fault | some h ↦ run_handler h o c ]

-- One message of the mailbox is processed; with none the machine waits.
unfoldable pub process_next : Build → FsmTable Handler → Outside → Channel → Run Channel
process_next b t o c = elim c.posted [
  | [] ↦ ok c
  | event ∷ rest ↦ dispatch b t o event (record c { posted = rest })
]
