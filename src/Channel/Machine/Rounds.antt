-- ===== src/Channel/Machine/Rounds.antt =====
-- Rounds of the system's loop: the messages that ChAuto posts to itself, one after the other.
use publisher_subscriber_ser.Base.{
  ℕ, ◌<◌, ◌≡◌, ap, sym, ◌∙◌, false, some, List, [], ◌∷◌, length, Run, ok, ◌>>=◌, Build, refl,
}
use publisher_subscriber_ser.Text.{Str}
use publisher_subscriber_ser.Fsm.{FsmTable, get_procedure}
use publisher_subscriber_ser.Channel.{
  ChStates, Channel, connected, store_data, state_code, msg_store_data_on_topic,
}
use publisher_subscriber_ser.Channel.Store.{store_data_sub_pub}
use publisher_subscriber_ser.Channel.Store.Requests.{
  begins, pub_word, sub_word, list_word, store_data_sub_pub_lem,
}
use publisher_subscriber_ser.Channel.Machine.{
  Handler, Outside, initialize, run_handler, dispatch, process_next,
}
use publisher_subscriber_ser.Channel.Machine.Dispatch.{transition, initialize_lem}

-- The rounds for a list of what happens outside, one for each element.
unfoldable pub rounds : Build → FsmTable Handler → List Outside → Channel → Run Channel
rounds b t [] c = ok c
rounds b t (o ∷ os) c = do c' ← process_next b t o c; rounds b t os c'

pub dispatch_lem :
    (b : Build) (t : FsmTable Handler) (o : Outside) (event : ℕ) (c : Channel)
    → initialize ≡ ok t
    → dispatch b t o event c ≡ run_handler (transition c.state event) o c
unfolding dispatch
dispatch_lem b t o event c made =
    let found : get_procedure b t (state_code c.state) event
        ≡ ok (some (transition c.state event)) =
      sym (ap (λ r. r >>= λ t'. get_procedure b t' (state_code c.state) event) made)
      ∙ initialize_lem b c.state event in
    rw (found) refl

pub process_next_lem :
    (b : Build) (t : FsmTable Handler) (o : Outside) (event : ℕ) (rest : List ℕ) (c : Channel)
    → initialize ≡ ok t
    → c.posted ≡ event ∷ rest
    → process_next b t o c ≡ run_handler (transition c.state event) o (record c { posted = rest })
unfolding process_next
process_next_lem b t o event rest c made posted =
    ap (λ (l : List ℕ). elim l [ [] ↦ ok c | e ∷ es ↦ dispatch b t o e (record c { posted = es }) ])
      posted
    ∙ dispatch_lem b t o event (record c { posted = rest }) made

process_next-empty :
    (b : Build) (t : FsmTable Handler) (o : Outside) (c : Channel)
    → c.posted ≡ []
    → process_next b t o c ≡ ok c
unfolding process_next
process_next-empty b t o c empty =
    ap (λ (l : List ℕ). elim l [ [] ↦ ok c | e ∷ es ↦ dispatch b t o e (record c { posted = es }) ])
      empty

pub rounds-empty :
    (b : Build) (t : FsmTable Handler) (os : List Outside) (c : Channel)
    → c.posted ≡ []
    → rounds b t os c ≡ ok c
unfolding rounds
rounds-empty b t [] c empty = refl
rounds-empty b t (o ∷ os) c empty =
    rw (process_next-empty b t o c empty) (rounds-empty b t os c empty)

pub rounds-step :
    (b : Build) (t : FsmTable Handler) (o : Outside) (os : List Outside) (event : ℕ) (rest : List ℕ)
    (c c' : Channel)
    → initialize ≡ ok t
    → c.posted ≡ event ∷ rest
    → run_handler (transition c.state event) o (record c { posted = rest }) ≡ ok c'
    → rounds b t (o ∷ os) c ≡ rounds b t os c'
unfolding rounds
rounds-step b t o os event rest c c' made posted handled =
    rw (process_next_lem b t o event rest c made posted, handled) refl

-- The handler of a connected machine for a received datagram.
pub handle-store :
    (o : Outside) (c c0 : Channel)
    → c.state ≡ connected
    → run_handler (transition c.state msg_store_data_on_topic) o c0 ≡ store_data_sub_pub o.stack c0
unfolding run_handler transition
handle-store o c c0 state =
    ap (λ (s : ChStates). run_handler (transition s msg_store_data_on_topic) o c0) state

-- Whether a request starts with none of the words of the protocol.
abbrev pub Unknown : List ℕ → Type 0
Unknown request =
    (begins pub_word request ≡ false)
    × (begins sub_word request ≡ false)
    × (begins list_word request ≡ false)

-- A datagram that starts with none of PUB, SUB and LIST stops the server for good: once it has been
-- received, the rest of the mailbox is empty, and whatever arrives and however many rounds the
-- system makes, the machine stays as the one round for the request leaves it.
pub rounds-Unknown :
    (b : Build) (t : FsmTable Handler) (o : Outside) (os : List Outside) (c : Channel)
    (request : List ℕ)
    → initialize ≡ ok t
    → c.state ≡ connected
    → c.posted ≡ msg_store_data_on_topic ∷ []
    → Str c.data_buffer 0 request
    → length request < 1024
    → Unknown request
    → rounds b t (o ∷ os) c ≡ ok (record c { state = store_data; posted = [] })
rounds-Unknown b t o os c request made state posted str short unknown =
    let c0 : Channel = record c { posted = [] } in
    let handled : run_handler (transition c.state msg_store_data_on_topic) o c0
        ≡ ok (record c { state = store_data; posted = [] }) =
      handle-store o c c0 state
      ∙ store_data_sub_pub_lem o.stack c0 request str short
      ∙ rw (unknown.0, unknown.1, unknown.2) refl in
    rounds-step b t o os msg_store_data_on_topic [] c (record c { state = store_data; posted = [] })
      made posted handled
    ∙ rounds-empty b t os (record c { state = store_data; posted = [] }) refl
