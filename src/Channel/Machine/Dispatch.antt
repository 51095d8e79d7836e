-- ===== src/Channel/Machine/Dispatch.antt =====
-- The table that `Initialize` makes is the transition function of the machine's diagram.
use publisher_subscriber_ser.Base.{
  ℕ, ◌≡◌, Option, none, some, ◌==◌, if◌then◌else◌, ok, refl, Build, debug, release, arith, ◌>>=◌,
  ap, List, [], ◌∷◌,
}
use publisher_subscriber_ser.Fsm.{SBranch, FsmTable, find, get_procedure}
use publisher_subscriber_ser.Channel.{
  ChStates, idle, connected, store_data, share_all_topics_state, share_data_on_topic,
  publish_ack_state, state_code, msg_wait_cl_message, msg_connection_failed, msg_ack_notification,
  msg_stay_connected, msg_share_data_on_topic, msg_store_data_on_topic, msg_share_all_topics,
}
use publisher_subscriber_ser.Channel.Machine.{
  Handler, cl_connected, cl_failed, all_topics, topic_data, store, ack, do_nothing, initialize,
}

-- The diagram: what each state does on each message.
unfoldable pub transition : ChStates → ℕ → Handler
transition idle e =
    if msg_wait_cl_message == e
    then cl_connected
    else if msg_connection_failed == e
    then cl_failed
    else do_nothing
transition connected e =
    if msg_stay_connected == e
    then cl_connected
    else if msg_store_data_on_topic == e
    then store
    else do_nothing
transition store_data e =
    if msg_share_data_on_topic == e
    then topic_data
    else if msg_share_all_topics == e
    then all_topics
    else if msg_ack_notification == e
    then ack
    else do_nothing
transition share_data_on_topic e = if msg_stay_connected == e then cl_connected else do_nothing
transition share_all_topics_state e = if msg_stay_connected == e then cl_connected else do_nothing
transition publish_ack_state e = if msg_stay_connected == e then cl_connected else do_nothing

unexpected : (e : ℕ) → List (SBranch Handler) → Option Handler
unfolding find
unexpected e bs = elim (find e bs) [ some p ↦ some p | none ↦ some do_nothing ]

one :
    (e k : ℕ) (p : Handler)
    → unexpected e (record { event_code = k; proc = p } ∷ [])
      ≡ some (if k == e then p else do_nothing)
unfolding unexpected
one e k p = ground arith

two :
    (e k l : ℕ) (p q : Handler)
    → unexpected e (record { event_code = k; proc = p } ∷ record { event_code = l; proc = q } ∷ [])
      ≡ some (if k == e then p else if l == e then q else do_nothing)
unfolding unexpected
two e k l p q = ground arith

three :
    (e k l m : ℕ) (p q r : Handler)
    → unexpected e (
        record { event_code = k; proc = p }
        ∷ record { event_code = l; proc = q }
        ∷ record { event_code = m; proc = r }
        ∷ [])
      ≡ some (if k == e then p else if l == e then q else if m == e then r else do_nothing)
unfolding unexpected
three e k l m p q r = ground arith

-- `Initialize` succeeds, and in every state every message is dispatched as the diagram says: a
-- message that the state does not expect does nothing.
pub initialize_lem :
    (b : Build) (s : ChStates) (e : ℕ)
    → (do t ← initialize; get_procedure b t (state_code s) e) ≡ ok (some (transition s e))
unfolding initialize get_procedure transition unexpected
initialize_lem debug idle e = ap ok (two e _ _ _ _)
initialize_lem release idle e = ap ok (two e _ _ _ _)
initialize_lem debug connected e = ap ok (two e _ _ _ _)
initialize_lem release connected e = ap ok (two e _ _ _ _)
initialize_lem debug store_data e = ap ok (three e _ _ _ _ _ _)
initialize_lem release store_data e = ap ok (three e _ _ _ _ _ _)
initialize_lem debug share_data_on_topic e = ap ok (one e _ _)
initialize_lem release share_data_on_topic e = ap ok (one e _ _)
initialize_lem debug share_all_topics_state e = ap ok (one e _ _)
initialize_lem release share_all_topics_state e = ap ok (one e _ _)
initialize_lem debug publish_ack_state e = ap ok (one e _ _)
initialize_lem release publish_ack_state e = ap ok (one e _ _)

pub built : (t : FsmTable Handler) × (initialize ≡ ok t)
unfolding initialize
built = (_, refl)
