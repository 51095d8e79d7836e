-- ===== src/Channel/Machine/Sessions.antt =====
-- Any number of requests, one after the other.
use publisher_subscriber_ser.Base.{ℕ, ◌≡◌, ap, sym, ◌∙◌, List, [], ◌∷◌, ◌++◌, true, ok, Build, refl}
use mathlib.Core.List.{append_assoc, append-nil}
use publisher_subscriber_ser.Fsm.{FsmTable}
use publisher_subscriber_ser.Channel.{Channel}
use publisher_subscriber_ser.Channel.Topics.{Topic}
use publisher_subscriber_ser.Channel.Protocol.{Request, Session, over, next}
use publisher_subscriber_ser.Channel.Machine.{Handler, Outside, initialize, start}
use publisher_subscriber_ser.Channel.Machine.Initial.{initial, initial_topics, start-Serves}
use publisher_subscriber_ser.Channel.Machine.Rounds.{rounds}
use publisher_subscriber_ser.Channel.Machine.Cycles.{Serves}
use publisher_subscriber_ser.Channel.Machine.Refines.{Exchange, served}

-- Three rounds for each request.
pub data Exchanges : List Request → List Outside → Type 0 where
  quiet : Exchanges [] []
  exchanged :
      (r : Request) (rs : List Request) (o1 o2 o3 : Outside) (os : List Outside)
      → Exchange r o1 o3
      → Exchanges rs os
      → Exchanges (r ∷ rs) (o1 ∷ o2 ∷ o3 ∷ os)

-- Each reply with the address that its request came from.
abbrev pub addressed : List Outside → List (List ℕ) → List (ℕ × List ℕ)
addressed (o1 ∷ o2 ∷ o3 ∷ os) (reply ∷ replies) = (o1.datagram.from, reply) ∷ addressed os replies
addressed _ _ = []

-- A session of the service is carried out by the server: from a server that keeps the topics `ts`
-- and receives, three rounds for each request send exactly the replies of the service, in order,
-- each to the sender of its request, and leave a server that keeps the topics `ts'` and receives.
pub session :
    (b : Build) (t : FsmTable Handler) (os : List Outside) (c : Channel) (ts ts' : List Topic)
    (rs : List Request) (replies : List (List ℕ))
    → initialize ≡ ok t
    → Serves c ts
    → Exchanges rs os
    → Session ts rs replies ts'
    → (c' : Channel) × (rounds b t os c ≡ ok c')
      × Serves c' ts'
      × (c'.sent ≡ c.sent ++ addressed os replies)
unfolding rounds
session b t os c ts ts' rs replies made serves quiet (over ts0) =
    (c, refl, serves, sym (append-nil c.sent))
session b t os c ts ts' rs replies made serves (exchanged r rs0 o1 o2 o3 os0 e es)
      (next u u' u'' r' rs' reply replies0 here later) =
    let first = served b t o1 o2 o3 c u u' r reply made serves e here in
    let rest = session b t os0 first.0 u' u'' rs0 replies0 made first.2 es later in
    (
      rest.0,
      first.1 os0 ∙ rest.1,
      rest.2,
      rest.3
          ∙ ap (λ l. l ++ addressed os0 replies0) first.3
          ∙ append_assoc c.sent ((o1.datagram.from, reply) ∷ []) (addressed os0 replies0),
    )

-- The server, started without an error, carries out every session of the service that begins with
-- the four topics of the source: each three rounds send the reply of one request to its sender.
pub start-Session :
    (b : Build) (t : FsmTable Handler) (os : List Outside) (ts' : List Topic) (rs : List Request)
    (replies : List (List ℕ))
    → initialize ≡ ok t
    → Exchanges rs os
    → Session initial_topics rs replies ts'
    → (c' : Channel) × (rounds b t os (start true true true initial) ≡ ok c')
      × Serves c' ts'
      × (c'.sent ≡ addressed os replies)
unfolding start
start-Session b t os ts' rs replies made exchanges s =
    session b t os (start true true true initial) initial_topics ts' rs replies made start-Serves
      exchanges s
