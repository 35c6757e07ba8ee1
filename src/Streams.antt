-- ===== src/Streams.antt =====
-- src/stream/listener.rs: the listener that gives each packet to the stream of its sender.
pub mod Serves
pub mod Clients
pub mod Connect
use earendil.Base.{
  ℕ, ◌+◌, ◌≡◌, Option, none, some, List, [], ◌∷◌, ◌++◌, map, Map, get, insert, remove, pair_eq,
  nat_eq, Result, ok, err, panic,
}
use earendil.Crypto.{Bytes}
use earendil.Daemon.State.{Endpoint}
use earendil.Daemon.Action.{Action, ◌>>=◌, ◌>>◌, return, fail, require, modify}

-- What the code tells apart of the messages of the crate sosistab2.
pub data RelKind (Other : Type 0) : Type 0 where
  syn syn_ack rst : RelKind Other
  other_kind : Other → RelKind Other

pub data StreamMessage (Other Unreliable : Type 0) : Type 0 where
  reliable :
      (kind : RelKind Other) (stream_id seqno : ℕ) (payload : Bytes)
      → StreamMessage Other Unreliable
  unreliable : Unreliable → StreamMessage Other Unreliable

-- The crate sosistab2, and stdcode of its messages. `tick` gives what the state sends and, if it lives, when to
-- tick again.
pub record StreamCrate : Type 1 where
  pub Other : Type 0
  pub Unreliable : Type 0
  pub StreamState : Type 0
  pub new_established : (stream_id : ℕ) → StreamState
  pub inject_incoming : StreamMessage Other Unreliable → StreamState → StreamState
  pub tick :
      (now : ℕ) → StreamState → (List (StreamMessage Other Unreliable) × Option ℕ) × StreamState
  pub encode : StreamMessage Other Unreliable → Bytes
  pub decode : Bytes → Option (StreamMessage Other Unreliable)

pub data ListenerError : Type 0 where
  cannot_decode cannot_send : ListenerError

module _ (c : StreamCrate) where
  abbrev pub Msg : Type 0
  Msg = StreamMessage c.Other c.Unreliable

  -- The task of a stream: `outgoing` is sent when it wakes.
  pub record Ticker : Type 0 where
    pub client_ep : Endpoint
    pub outgoing : List Msg

  -- A stream state is shared by the table, its ticker and the stream that `accept` returns: it stands under a
  -- number in `states`. `sent` is what was given to the socket.
  pub record StreamListener : Type 0 where
    pub table : Map Endpoint ℕ
    pub states : Map ℕ c.StreamState
    pub tickers : Map ℕ Ticker
    pub next_state : ℕ
    pub sent : List (Bytes × Endpoint)

  abbrev pub ListenerTask : Type 0 → Type 0
  ListenerTask A = Action StreamListener ListenerError A

  -- A packet of the socket, and the failure of the send that it leads to, if there is one and it fails.
  pub record Arrival : Type 0 where
    pub failure : Option ListenerError
    pub packet : Bytes
    pub client_ep : Endpoint

  -- StreamListener::listen
  unfoldable pub listen : StreamListener
  listen = record { table = []; states = []; tickers = []; next_state = 0; sent = [] }

  -- socket.send_to(..).await?, with what it comes to
  unfoldable pub send_msg : Option ListenerError → Msg → Endpoint → ListenerTask (Unit {0})
  send_msg failure msg ep s =
      let given = record s { sent = s.sent ++ (c.encode msg, ep) ∷ [] } in
      elim failure [ none ↦ (ok tt, given) | some e ↦ (err e, given) ]

  -- The stream of a client that said SYN, with its ticker.
  unfoldable pub open_stream : Endpoint → ℕ → ListenerTask (Option ℕ)
  open_stream client_ep stream_id s = (
    ok (some s.next_state),
    record s {
      table = insert client_ep s.next_state s.table;
      states = insert s.next_state (c.new_established stream_id) s.states;
      tickers = insert s.next_state (record { client_ep = client_ep; outgoing = [] }) s.tickers;
      next_state = s.next_state + 1;
    },
  )

  unfoldable pub to_stream :
      Option ListenerError → RelKind c.Other → ℕ → ℕ → Bytes → Endpoint → ListenerTask (Option ℕ)
  unfolding send_msg
  to_stream failure kind stream_id seqno payload client_ep s = elim (get client_ep s.table) [
    | none ↦ (send_msg failure (reliable rst stream_id seqno payload) client_ep >> return none) s
    | some state ↦ elim (get state s.states) [
      | none ↦ (ok none, s)
      | some st ↦ (
        ok none,
        record s {
          states =
              insert state (c.inject_incoming (reliable kind stream_id seqno payload) st) s.states;
        },
      )
    ]
  ]

  -- `match stream_msg`; the result is the stream that `accept` returns, `none` if it goes on.
  unfoldable pub on_message : Option ListenerError → Endpoint → Msg → ListenerTask (Option ℕ)
  unfolding open_stream to_stream send_msg
  on_message failure client_ep (reliable syn stream_id seqno payload) =
      send_msg failure (reliable syn_ack stream_id seqno payload) client_ep
      >> open_stream client_ep stream_id
  on_message failure client_ep (reliable rst stream_id seqno payload) =
      modify (λ s. record s { table = remove client_ep s.table }) >> return none
  on_message failure client_ep (reliable syn_ack stream_id seqno payload) =
      to_stream failure syn_ack stream_id seqno payload client_ep
  on_message failure client_ep (reliable (other_kind k) stream_id seqno payload) =
      to_stream failure (other_kind k) stream_id seqno payload client_ep
  on_message failure client_ep (unreliable u) = return none

  -- A turn of the loop of `accept`.
  unfoldable pub accept_turn : Arrival → ListenerTask (Option ℕ)
  unfolding on_message
  accept_turn arrival = do
    stream_msg ← require (c.decode arrival.packet) cannot_decode
    on_message arrival.failure arrival.client_ep stream_msg

  -- accept() on what comes in: the stream and what was not yet read, `none` if it still waits.
  unfoldable pub accept : List Arrival → ListenerTask (Option (ℕ × List Arrival))
  unfolding accept_turn
  accept [] = return none
  accept (arrival ∷ arrivals) =
      let rest = accept arrivals in
      accept_turn arrival >>= λ r. elim r [
        | none ↦ rest
        | some state ↦ return (some (state, arrivals))
      ]

  -- A ticker wakes: it sends what it has and ticks its state. If the state is dead it removes the client from
  -- the table and ends.
  unfoldable pub tick_turn : ℕ → ℕ → StreamListener → StreamListener
  tick_turn now state s = elim (get state s.tickers) [
    | none ↦ s
    | some ticker ↦ elim (get state s.states) [
      | none ↦ s
      | some st ↦
          let sent = s.sent ++ map (λ msg. (c.encode msg, ticker.client_ep)) ticker.outgoing in
          let ticked = c.tick now st in
          let states = insert state ticked.1 s.states in
          elim ticked.0.1 [
            | some retick_time ↦ record s {
              states = states;
              tickers = insert state (record ticker { outgoing = ticked.0.0 }) s.tickers;
              sent = sent;
            }
            | none ↦ record s {
              table = remove ticker.client_ep s.table;
              states = states;
              tickers = remove state s.tickers;
              sent = sent;
            }
          ]
    ]
  ]
