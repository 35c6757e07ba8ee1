-- ===== src/Streams/Connect.antt =====
-- src/stream.rs: how a client connects a stream, and what its task does then.
use earendil.Base.{
  ℕ, ◌+◌, ◌*◌, ◌%◌, ◌^◌, ◌≡◌, refl, ap, ◌∙◌, Bool, true, false, Option, none, some, List, [], ◌∷◌,
  ◌++◌, arith, pair_eq, pair_beq, pair_beq_iff, Result, ok, err, if◌then◌else◌, nat_eq, Bool-cases,
  inl, inr, insert, get-insert, nat_beq_iff,
}
use earendil.Crypto.{Bytes}
use earendil.Daemon.State.{Endpoint}
use earendil.Daemon.Action.{Action, ◌>>=◌, require, modify}
use earendil.Streams.{
  syn, syn_ack, rst, other_kind, reliable, unreliable, StreamCrate, ListenerError, cannot_decode,
  Arrival, StreamListener, Msg, accept_turn, on_message, send_msg, open_stream,
}
use earendil.Streams.Serves.{stream_of}

-- A client that waits for a SYNACK: how long it waits after its next SYN, and what was given to its socket.
pub record Connecting : Type 0 where
  pub timeout : ℕ
  pub sent : List (Bytes × Endpoint)

pub data ConnectEvent : Type 0 where
  timer_fires : ConnectEvent
  hears : (msg : Bytes) (ep : Endpoint) → ConnectEvent
  breaks : ListenerError → ConnectEvent

module _ (c : StreamCrate) where
  unfoldable pub syn_message : ℕ → Msg c
  syn_message our_stream_id = reliable syn our_stream_id 0 []

  -- The pattern of `wait_synack`.
  unfoldable pub is_synack : Option (Msg c) → Bool
  is_synack none = false
  is_synack (some (reliable syn_ack stream_id seqno payload)) = true
  is_synack (some (reliable syn stream_id seqno payload)) = false
  is_synack (some (reliable rst stream_id seqno payload)) = false
  is_synack (some (reliable (other_kind k) stream_id seqno payload)) = false
  is_synack (some (unreliable u)) = false

  -- A turn of `send_syn`, and its wait; the timeout is a u64.
  unfoldable pub send_syn : ℕ → Endpoint → Connecting → Connecting
  unfolding syn_message
  send_syn our_stream_id server_endpoint s = record {
    timeout = (s.timeout * 2) % 2 ^ 64;
    sent = s.sent ++ (c.encode (syn_message our_stream_id), server_endpoint) ∷ [];
  }

  -- send_syn.race(wait_synack) on what happens: the events after the handshake, `none` while it goes on. A send or
  -- a receive that fails ends it.
  unfoldable pub shake :
      ℕ
      → Endpoint
      → List ConnectEvent
      → Connecting
      → Result ListenerError (Option (List ConnectEvent)) × Connecting
  unfolding send_syn is_synack
  shake our_stream_id server_endpoint [] s = (ok none, s)
  shake our_stream_id server_endpoint (breaks e ∷ events) s = (err e, s)
  shake our_stream_id server_endpoint (timer_fires ∷ events) s =
      shake our_stream_id server_endpoint events (send_syn our_stream_id server_endpoint s)
  shake our_stream_id server_endpoint (hears msg ep ∷ events) s =
      let rest = shake our_stream_id server_endpoint events s in
      if pair_beq ep server_endpoint
      then if is_synack (c.decode msg) then (ok (some events), s) else rest
      else rest

  unfoldable pub connect :
      ℕ
      → Endpoint
      → List ConnectEvent
      → Result ListenerError (Option (List ConnectEvent)) × Connecting
  unfolding shake
  connect our_stream_id server_endpoint events =
      shake our_stream_id server_endpoint events
        (send_syn our_stream_id server_endpoint (record { timeout = 4; sent = [] }))

  -- The task of an established stream: its state, what is to be sent, and what was given to the socket.
  pub record Established : Type 0 where
    pub state : c.StreamState
    pub outgoing : List (Msg c)
    pub sent : List (Bytes × Endpoint)

  -- A turn of `ticker_task`; the result is when to tick again, `none` if the stream died.
  unfoldable pub ticker_turn : ℕ → Established → Option ℕ × Established
  ticker_turn now s =
      let ticked = c.tick now s.state in
      (ticked.0.1, record s { state = ticked.1; outgoing = s.outgoing ++ ticked.0.0 })

  -- A turn of `up_loop`
  unfoldable pub up_loop_turn : Endpoint → Established → Established
  up_loop_turn server_endpoint s = elim s.outgoing [
    | [] ↦ s
    | smsg ∷ rest ↦ record s {
      outgoing = rest;
      sent = s.sent ++ (c.encode smsg, server_endpoint) ∷ [];
    }
  ]

  -- A turn of `down_loop`, whichever endpoint the message is from
  unfoldable pub down_loop_turn : Bytes × Endpoint → Action Established ListenerError (Unit {0})
  down_loop_turn packet = do
    smsg ← require (c.decode packet.0) cannot_decode
    modify (λ s. record s { state = c.inject_incoming smsg s.state })

  -- The first SYN of a client.
  unfoldable pub first_syn : ℕ → Endpoint → Arrival c
  unfolding syn_message
  first_syn our_stream_id client_ep = record {
    failure = none;
    packet = c.encode (syn_message our_stream_id);
    client_ep = client_ep;
  }

  shake_timers :
      (id : ℕ) (server : Endpoint) (before events : List ConnectEvent) (s : Connecting)
      → (shake id server before s).0 ≡ ok none
      → (later : Connecting) × (shake id server (before ++ events) s ≡ shake id server events later)
  unfolding shake
  shake_timers id server [] events s h = (s, refl)
  shake_timers id server (breaks e ∷ before) events s h = absurd (ground (arith, h))
  shake_timers id server (timer_fires ∷ before) events s h =
      shake_timers id server before events (send_syn id server s) h
  shake_timers id server (hears msg ep ∷ before) events s h =
      elim (Bool-cases (pair_beq ep server)) [
        | inl x ↦ elim (Bool-cases (is_synack (c.decode msg))) [
          | inl y ↦ absurd (ground (arith, h, x, y))
          | inr y ↦
              let later = shake_timers id server before events s (ground (arith, h, x, y)) in
              (later.0, rw (x, y) later.1)
        ]
        | inr x ↦
            let later = shake_timers id server before events s (ground (arith, h, x)) in
            (later.0, rw x later.1)
      ]

  shake_answered :
      (id : ℕ) (server : Endpoint) (msg : Bytes) (events : List ConnectEvent) (s : Connecting)
      → is_synack (c.decode msg) ≡ true
      → shake id server (hears msg server ∷ events) s ≡ (ok (some events), s)
  unfolding shake
  shake_answered id server msg events s y = rw ((pair_beq_iff server server).1 refl, y) refl

  abbrev pub answer_to : ℕ → Bytes
  answer_to our_stream_id = c.encode (reliable syn_ack our_stream_id 0 [])

  accepted : ℕ → Endpoint → StreamListener c → StreamListener c
  accepted id client s = record s {
    table = insert client s.next_state s.table;
    states = insert s.next_state (c.new_established id) s.states;
    tickers = insert s.next_state (record { client_ep = client; outgoing = [] }) s.tickers;
    next_state = s.next_state + 1;
    sent = s.sent ++ (answer_to id, client) ∷ [];
  }

  accept_turn-first_syn :
      ((msg : Msg c) → c.decode (c.encode msg) ≡ some msg)
      → (id : ℕ) (client : Endpoint) (s : StreamListener c)
      → accept_turn c (first_syn id client) s ≡ (ok (some s.next_state), accepted id client s)
  unfolding accept_turn on_message send_msg open_stream ◌>>=◌ first_syn syn_message accepted
  accept_turn-first_syn coded id client s = rw (coded (reliable syn id 0 [])) refl

  accepted-stream_of :
      (id : ℕ) (client : Endpoint) (s : StreamListener c)
      → stream_of c client (accepted id client s) ≡ some (c.new_established id)
  unfolding accepted stream_of
  accepted-stream_of id client s = ground (
    arith,
    get-insert client client s.next_state s.table,
    (pair_beq_iff client client).1 refl,
    get-insert s.next_state s.next_state (c.new_established id) s.states,
    nat_beq_iff s.next_state s.next_state,
  )

  -- If stdcode decodes what it encoded: a listener that a client's SYN reaches returns a new stream with the
  -- client's number, which is then the client's, and sends the client an answer; and a client that has waited,
  -- however often it sent its SYN and whatever it heard, is connected by this answer and by nothing earlier.
  pub connect-accept_turn :
      ((msg : Msg c) → c.decode (c.encode msg) ≡ some msg)
      → (our_stream_id : ℕ) (client server : Endpoint) (before later : List ConnectEvent)
        (s : StreamListener c)
      → (connect our_stream_id server before).0 ≡ ok none
      → let accepted = accept_turn c (first_syn our_stream_id client) s in
        (accepted.0 ≡ ok (some s.next_state))
        × (stream_of c client accepted.1 ≡ some (c.new_established our_stream_id))
        × (accepted.1.sent ≡ s.sent ++ (answer_to our_stream_id, client) ∷ [])
        × ((connect our_stream_id server
              (before ++ hears (answer_to our_stream_id) server ∷ later)).0
            ≡ ok (some later))
  unfolding connect is_synack accepted
  connect-accept_turn coded id client server before later s waits =
      let done = accept_turn-first_syn coded id client s in
      let answer = answer_to id in
      let heard = shake_timers id server before (hears answer server ∷ later) _ waits in
      (
        ap (λ r. r.0) done,
        ap (λ r. stream_of c client r.1) done ∙ accepted-stream_of id client s,
        ap (λ r. r.1.sent) done,
        ap (λ r. r.0)
            (heard.1
              ∙ shake_answered id server answer later heard.0
                  (rw (coded (reliable syn_ack id 0 [])) refl)),
      )
