-- ===== src/Channel/Machine/Refines.antt =====
-- The automaton, its messages and its memory implement the service of `Protocol`.
use publisher_subscriber_ser.Base.{
  ℕ, suc, ◌<◌, ◌≡◌, sym, ◌∙◌, true, none, List, [], ◌∷◌, ◌++◌, length, length-append, ok, Build,
  arith, refl,
}
use mathlib.Core.Path.{subst}
use publisher_subscriber_ser.Text.{At, Free, Str, paste}
use publisher_subscriber_ser.Text.Paste.{At-left, string_in, string_in-Str}
use publisher_subscriber_ser.Fsm.{FsmTable}
use publisher_subscriber_ser.Channel.{
  Channel, store_data, share_all_topics_state, share_data_on_topic, publish_ack_state, post, reply,
  msg_store_data_on_topic, msg_share_all_topics, msg_share_data_on_topic, msg_ack_notification,
}
use publisher_subscriber_ser.Channel.Topics.{Topic, Holds, index_of}
use publisher_subscriber_ser.Channel.Store.{store_data_sub_pub}
use publisher_subscriber_ser.Channel.Store.Entries.{capitals, entry}
use publisher_subscriber_ser.Channel.Store.Requests.{
  begins, pub_request, store_data_sub_pub_lem, subscribe_lem,
}
use publisher_subscriber_ser.Channel.Store.Added.{
  new_topic, added, added-Holds, not_known, publish-added,
}
use publisher_subscriber_ser.Channel.Share.{ack_text}
use publisher_subscriber_ser.Channel.Share.Names.{listing, share_all_topics_lem}
use publisher_subscriber_ser.Channel.Share.Data.{
  AllStartOther, middle-IsTopic, share_topic_data_lem,
}
use publisher_subscriber_ser.Channel.Store.Lookup.{Free-left}
use publisher_subscriber_ser.Channel.Share.Ack.{Ends, publish_ack_lem}
use publisher_subscriber_ser.Channel.Protocol.{
  Request, list_of, topic_of, publication, encode, Served, all_listed, topic_shared, topic_added,
}
use publisher_subscriber_ser.Channel.Machine.{Handler, Outside, initialize, run_handler}
use publisher_subscriber_ser.Channel.Machine.Dispatch.{transition}
use publisher_subscriber_ser.Channel.Machine.Rounds.{rounds, rounds-step, handle-store}
use publisher_subscriber_ser.Channel.Machine.Cycles.{
  Serves, Holds-same, received, rounds-received, received-Str, replied-Serves,
}

-- What happens outside while a request is served: its datagram comes first, the reply is sent, and
-- the array of the acknowledgement holds a string.
pub record Exchange (r : Request) (first third : Outside) : Type 0 where
  pub delivered : first.datagram.bytes ≡ encode r
  pub accepted : third.success ≡ true
  pub size : ℕ
  pub ends : Ends third.junk size
  pub small : size < 1024

-- The rounds of one request give the reply and a server with the topics `ts'`.
abbrev pub Answers :
    (b : Build) (t : FsmTable Handler) (o1 o2 o3 : Outside) (c : Channel) (reply : List ℕ)
    (ts' : List Topic)
    → Type 0
Answers b t o1 o2 o3 c text ts' =
    (c' : Channel) × ((os : List Outside) → rounds b t (o1 ∷ o2 ∷ o3 ∷ os) c ≡ rounds b t os c')
    × Serves c' ts'
    × (c'.sent ≡ c.sent ++ (o1.datagram.from, text) ∷ [])

three_rounds :
    (b : Build) (t : FsmTable Handler) (o1 o2 o3 : Outside) (os : List Outside) (c c2 c3 : Channel)
    (event : ℕ)
    → initialize ≡ ok t
    → (r : (rest : List Outside)
        → rounds b t (o1 ∷ rest) c ≡ rounds b t rest (received o1.datagram c))
    → store_data_sub_pub o2.stack (record (received o1.datagram c) { posted = [] }) ≡ ok c2
    → c2.posted ≡ event ∷ []
    → run_handler (transition c2.state event) o3 (record c2 { posted = [] }) ≡ ok c3
    → rounds b t (o1 ∷ o2 ∷ o3 ∷ os) c ≡ rounds b t os c3
three_rounds b t o1 o2 o3 os c c2 c3 event made first second alone third =
    let c1 = received o1.datagram c in
    first (o2 ∷ o3 ∷ os)
    ∙ rounds-step b t o2 (o3 ∷ os) msg_store_data_on_topic [] c1 c2 made refl
        (handle-store o2 c1 (record c1 { posted = [] }) refl ∙ second)
    ∙ rounds-step b t o3 os event [] c2 c3 made alone third

word-Free :
    (x y z w : ℕ) (rest : List ℕ) → Free 0 rest → Free 0 (suc x ∷ suc y ∷ suc z ∷ suc w ∷ rest)
word-Free x y z w rest free = (
  (λ q. absurd (omega arith)),
  ((λ q. absurd (omega arith)), ((λ q. absurd (omega arith)), ((λ q. absurd (omega arith)), free))),
)

list-Answers :
    (b : Build) (t : FsmTable Handler) (o1 o2 o3 : Outside) (c : Channel) (ts : List Topic)
    (rest : List ℕ)
    → initialize ≡ ok t
    → Serves c ts
    → Exchange (list_of rest) o1 o3
    → Free 0 rest
    → length rest < 1000
    → Answers b t o1 o2 o3 c (listing ts ++ b'`' ∷ []) ts
unfolding run_handler begins transition
list-Answers b t o1 o2 o3 c ts rest made serves x free short =
    let d = o1.datagram in
    let bytes = b'L' ∷ b'I' ∷ b'S' ∷ b'T' ∷ rest in
    let c1 : Channel = record (received d c) { posted = [] } in
    let text = listing ts ++ b'`' ∷ [] in
    let c2 : Channel = post msg_share_all_topics (record c1 { state = store_data }) in
    let c3 : Channel = record c2 { posted = []; state = share_all_topics_state } in
    let str : Str c1.data_buffer 0 bytes =
      subst (λ l. Str (paste (λ _. 0) 0 l) 0 bytes) (sym x.delivered)
        (received-Str bytes (word-Free 75 72 82 83 rest free)) in
    let second : store_data_sub_pub o2.stack c1 ≡ ok c2 =
      store_data_sub_pub_lem o2.stack c1 bytes str (omega arith) in
    let holds : Holds (record c2 { posted = [] }) ts =
      Holds-same c (record c2 { posted = [] }) ts refl refl refl serves.holds in
    let done =
      replied-Serves c3 text ts o3.success x.accepted
        (Holds-same c c3 ts refl refl refl serves.holds) serves.clear refl refl in
    (
      reply o3.success text c3,
      λ os.
          three_rounds b t o1 o2 o3 os c c2 (reply o3.success text c3) msg_share_all_topics made
            (λ more. rounds-received b t o1 more c made serves.receives) second refl
            (share_all_topics_lem o3.junk o3.success (record c2 { posted = [] }) ts holds),
      done.0,
      done.1,
    )

topic-Answers :
    (b : Build) (t : FsmTable Handler) (o1 o2 o3 : Outside) (c : Channel)
    (before after : List Topic) (x : ℕ) (name body rest : List ℕ)
    → initialize ≡ ok t
    → let ts = before ++ (record { name = x ∷ name; body = body ++ b'`' ∷ rest }) ∷ after in
      Serves c ts
      → Exchange (topic_of (x ∷ name)) o1 o3
      → AllStartOther x before
      → Free b'`' (x ∷ name)
      → Free b'`' body
      → Answers b t o1 o2 o3 c ((x ∷ name) ++ b':' ∷ (body ++ b'`' ∷ [])) ts
unfolding run_handler begins transition
topic-Answers b t o1 o2 o3 c before after x name body rest made serves e other quote quote' =
    let d = o1.datagram in
    let topic : Topic = record { name = x ∷ name; body = body ++ b'`' ∷ rest } in
    let ts = before ++ topic ∷ after in
    let is = middle-IsTopic c 0 before topic after serves.holds.topics in
    let bytes = b'S' ∷ b'U' ∷ b'B' ∷ 32 ∷ x ∷ name in
    let c1 : Channel = record (received d c) { posted = [] } in
    let text = (x ∷ name) ++ b':' ∷ (body ++ b'`' ∷ []) in
    let current = string_in c.current_topic (x ∷ name) in
    let c2 : Channel =
      post msg_share_data_on_topic (record c1 { state = store_data; current_topic = current }) in
    let c2' : Channel = record c2 { posted = [] } in
    let c3 : Channel = record c2' { state = share_data_on_topic } in
    let free : Free 0 (x ∷ name) =
      Free-left 0 (x ∷ name) (b':' ∷ (body ++ b'`' ∷ rest)) is.no_nul in
    let str : Str c1.data_buffer 0 bytes =
      subst (λ l. Str (paste (λ _. 0) 0 l) 0 bytes) (sym e.delivered)
        (received-Str bytes (word-Free 82 84 65 31 (x ∷ name) free)) in
    let short = is.short in
    let second : store_data_sub_pub o2.stack c1 ≡ ok c2 =
      store_data_sub_pub_lem o2.stack c1 bytes str (omega arith)
      ∙ subscribe_lem (record c1 { state = store_data }) (string_in o2.stack.data_from_client bytes)
          (x ∷ name) (string_in-Str o2.stack.data_from_client bytes str.1) (omega arith) in
    let holds : Holds c2' ts = Holds-same c c2' ts refl refl refl serves.holds in
    let done =
      replied-Serves c3 text ts o3.success e.accepted
        (Holds-same c c3 ts refl refl refl serves.holds) serves.clear refl refl in
    let at : At current 0 (x ∷ name) =
      At-left current 0 (x ∷ name) (0 ∷ []) (string_in-Str c.current_topic (x ∷ name) free).0 in
    (
      reply o3.success text c3,
      λ os.
          three_rounds b t o1 o2 o3 os c c2 (reply o3.success text c3) msg_share_data_on_topic made
            (λ more. rounds-received b t o1 more c made serves.receives) second refl
            (share_topic_data_lem o3.junk o3.success c2' before after x name body rest holds
              (subst (λ ch. AllStartOther ch before) (sym at.0) other) at quote quote'),
      done.0,
      done.1,
    )

publication-Answers :
    (b : Build) (t : FsmTable Handler) (o1 o2 o3 : Outside) (c : Channel) (ts : List Topic)
    (name msg : List ℕ)
    → initialize ≡ ok t
    → Serves c ts
    → Exchange (publication name msg) o1 o3
    → Free 0 (name ++ 32 ∷ msg)
    → Free 32 name
    → length name < 50
    → length ts < 10
    → length (entry name msg) < 150
    → index_of name ts 0 ≡ none
    → Answers b t o1 o2 o3 c ack_text (ts ++ new_topic name msg ∷ [])
unfolding run_handler begins transition
publication-Answers b t o1 o2 o3 c ts name msg made serves e free word short room fits absent =
    let d = o1.datagram in
    let bytes = pub_request name msg in
    let c1 : Channel = record (received d c) { posted = [] } in
    let c1' : Channel = record c1 { state = store_data } in
    let ts' = ts ++ new_topic name msg ∷ [] in
    let c2 : Channel = added c1' ts name msg in
    let c2' : Channel = record c2 { posted = [] } in
    let c3 : Channel = record c2' { state = publish_ack_state } in
    let str : Str c1.data_buffer 0 bytes =
      subst (λ l. Str (paste (λ _. 0) 0 l) 0 bytes) (sym e.delivered)
        (received-Str bytes (word-Free 79 84 65 31 (name ++ 32 ∷ msg) free)) in
    let size = length-append name (32 ∷ msg) in
    let size' = length-append (capitals name) (b':' ∷ 32 ∷ msg) in
    let holds : Holds c1' ts = Holds-same c c1' ts refl refl refl serves.holds in
    let second : store_data_sub_pub o2.stack c1 ≡ ok c2 =
      store_data_sub_pub_lem o2.stack c1 bytes str (omega arith)
      ∙ publish-added o2.stack c1' ts (string_in o2.stack.data_from_client bytes) name msg holds
          (string_in-Str o2.stack.data_from_client bytes str.1) word short room fits absent
          serves.clear in
    let holds' : Holds c2 ts' = added-Holds c1' ts name msg holds free short room fits in
    let done =
      replied-Serves c3 ack_text ts' o3.success e.accepted
        (Holds-same c2 c3 ts' refl refl refl holds') (not_known c1' ts name msg absent serves.clear)
        refl refl in
    (
      reply o3.success ack_text c3,
      λ os.
          three_rounds b t o1 o2 o3 os c c2 (reply o3.success ack_text c3) msg_ack_notification made
            (λ more. rounds-received b t o1 more c made serves.receives) second refl
            (publish_ack_lem o3.junk e.size o3.success c2' e.ends e.small),
      done.0,
      done.1,
    )

-- A request that the service serves is served by the server: when it keeps the topics `ts` and
-- receives the request's datagram, the three rounds that follow send exactly the reply of the
-- service to the sender, and leave a server that keeps the topics `ts'` and receives again. The
-- reply is accepted by the network, and the acknowledgement's array holds a string.
pub served :
    (b : Build) (t : FsmTable Handler) (o1 o2 o3 : Outside) (c : Channel) (ts ts' : List Topic)
    (r : Request) (text : List ℕ)
    → initialize ≡ ok t
    → Serves c ts
    → Exchange r o1 o3
    → Served ts r text ts'
    → Answers b t o1 o2 o3 c text ts'
served b t o1 o2 o3 c ts ts' r text made serves e (all_listed ts0 rest free short) =
    list-Answers b t o1 o2 o3 c ts0 rest made serves e free short
served b t o1 o2 o3 c ts ts' r text made serves e
      (topic_shared before after x name body rest other quote quote') =
    topic-Answers b t o1 o2 o3 c before after x name body rest made serves e other quote quote'
served b t o1 o2 o3 c ts ts' r text made serves e
      (topic_added ts0 name msg free word short room fits absent) =
    publication-Answers b t o1 o2 o3 c ts0 name msg made serves e free word short room fits absent
