-- ===== src/Channel/Machine/Cycles.antt =====
-- The three rounds that a request takes: it is received, looked at and answered.
use publisher_subscriber_ser.Base.{
  ℕ, ◌+◌, ◌≡◌, ap, sym, ◌∙◌, Bool, true, false, List, [], ◌∷◌, ◌++◌, length, ok, Build, arith, refl,
  inr,
}
use mathlib.Core.Path.{subst}
use publisher_subscriber_ser.Memory.{Bytes}
use publisher_subscriber_ser.Text.{Free, Str, paste}
use publisher_subscriber_ser.Text.Paste.{At-append, At-paste, paste-frame}
use publisher_subscriber_ser.Fsm.{FsmTable}
use publisher_subscriber_ser.Channel.{
  Channel, connected, post, reply, msg_store_data_on_topic, msg_stay_connected,
}
use publisher_subscriber_ser.Channel.Topics.{Topic, row_id, Holds}
use publisher_subscriber_ser.Channel.Topics.Frame.{TopicsFrom-frame}
use publisher_subscriber_ser.Channel.Machine.{
  Handler, cl_connected, Outside, Datagram, initialize, idle_cl_connected, run_handler,
}
use publisher_subscriber_ser.Channel.Machine.Dispatch.{transition}
use publisher_subscriber_ser.Channel.Machine.Rounds.{rounds, rounds-step}

-- The next round of the machine receives a datagram.
pub record Receives (c : Channel) : Type 0 where
  pub event : ℕ
  pub alone : c.posted ≡ event ∷ []
  pub receiving : transition c.state event ≡ cl_connected

-- The server keeps the topics, no lookup is pending, and the next datagram is received.
pub record Serves (c : Channel) (ts : List Topic) : Type 0 where
  pub holds : Holds c ts
  pub clear : c.already_exists ≡ false
  pub receives : Receives c

pub Holds-same :
    (c d : Channel) (ts : List Topic)
    → d.publisher_counter ≡ c.publisher_counter
    → d.all_server_data ≡ c.all_server_data
    → d.rows ≡ c.rows
    → Holds c ts
    → Holds d ts
Holds-same c d ts counter pointers rows holds = record {
  counted = counter ∙ holds.counted;
  started = holds.started;
  few = holds.few;
  topics =
      TopicsFrom-frame c d 0 ts holds.topics
        (λ k p q. record { pointer = ap (λ f. f k) pointers; row = ap (λ f. f (row_id k)) rows });
}

-- The channel when it has received a datagram.
abbrev pub received : Datagram → Channel → Channel
received d c = record c {
  state = connected;
  client_address = d.from;
  data_buffer = paste (λ _. 0) 0 d.bytes;
  posted = msg_store_data_on_topic ∷ [];
}

pub rounds-received :
    (b : Build) (t : FsmTable Handler) (o : Outside) (os : List Outside) (c : Channel)
    → initialize ≡ ok t
    → Receives c
    → rounds b t (o ∷ os) c ≡ rounds b t os (received o.datagram c)
unfolding run_handler idle_cl_connected
rounds-received b t o os c made r =
    rounds-step b t o os r.event [] c (received o.datagram c) made r.alone
      (ap (λ (h : Handler). run_handler h o (record c { posted = [] })) r.receiving)

-- The buffer is cleared before it is filled, so that the bytes in it are a C string.
pub received-Str : (bytes : List ℕ) → Free 0 bytes → Str (paste (λ _. 0) 0 bytes) 0 bytes
received-Str bytes free =
    let z : Bytes = λ _. 0 in
    (
      At-append (paste z 0 bytes) 0 bytes (0 ∷ []) (At-paste z 0 bytes)
          (paste-frame z 0 bytes (0 + length bytes) (inr (omega arith)), tt),
      free,
    )

-- A reply that goes out leaves a server that receives again.
pub replied-Serves :
    (c : Channel) (text : List ℕ) (ts : List Topic) (success : Bool)
    → success ≡ true
    → Holds c ts
    → c.already_exists ≡ false
    → c.posted ≡ []
    → transition c.state msg_stay_connected ≡ cl_connected
    → Serves (reply success text c) ts
      × ((reply success text c).sent ≡ c.sent ++ (c.client_address, text) ∷ [])
replied-Serves c text ts success e holds clear empty receiving =
    let d : Channel =
      post msg_stay_connected (record c { sent = c.sent ++ (c.client_address, text) ∷ [] }) in
    let is : reply success text c ≡ d = rw e refl in
    let serves : Serves d ts = record {
      holds = Holds-same c d ts refl refl refl holds;
      clear = clear;
      receives = record {
        event = msg_stay_connected;
        alone = ap (λ l. l ++ msg_stay_connected ∷ []) empty;
        receiving = receiving;
      };
    } in
    (subst (λ k. Serves k ts) (sym is) serves, ap (λ k. k.sent) is)
