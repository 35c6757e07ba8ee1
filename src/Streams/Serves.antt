-- ===== src/Streams/Serves.antt =====
-- What the listener does for one client, whatever the others send.
use earendil.Base.{
  ℕ, ◌≡◌, ◌≢◌, ◌<◌, refl, sym, ◌∙◌, Option, none, some, List, [], ◌∷◌, arith, Map, get, insert,
  remove, get-insert, get-remove, pair_eq, nat_eq, nat_beq_iff, pair_beq, pair_beq_iff,
  Option-cases, Bool-cases, inl, inr, if◌then◌else◌,
}
use earendil.Crypto.{Bytes}
use earendil.Daemon.State.{Endpoint}
use earendil.Daemon.Action.{◌>>=◌, return}
use earendil.Streams.{
  RelKind, syn, syn_ack, rst, other_kind, reliable, unreliable, StreamCrate, ListenerError,
  StreamListener, Msg, send_msg, open_stream, to_stream, on_message, accept_turn, tick_turn,
  Arrival, ListenerTask,
}

module _ (c : StreamCrate) where
  -- Each entry of the table has a state, which is of no other client, and numbers are not used again.
  pub record IsWellFormed (s : StreamListener c) : Type 0 where
    pub has_state :
        (ep : Endpoint) (h : ℕ)
        → get ep s.table ≡ some h
        → (st : c.StreamState) × (get h s.states ≡ some st)
    pub below_next : (h : ℕ) (st : c.StreamState) → get h s.states ≡ some st → h < s.next_state
    pub alone :
        (ep other : Endpoint) (h : ℕ)
        → get ep s.table ≡ some h
        → get other s.table ≡ some h
        → ep ≡ other

  -- The state of the stream that a client has.
  unfoldable pub stream_of : Endpoint → StreamListener c → Option c.StreamState
  stream_of ep s = elim (get ep s.table) [ none ↦ none | some h ↦ get h s.states ]

  abbrev pub injected : Msg c → Option c.StreamState → Option c.StreamState
  injected msg none = none
  injected msg (some st) = some (c.inject_incoming msg st)

  -- What one client is served with, its listener apart: a new stream when it says SYN and is answered, none after
  -- RST, and whatever else it sends goes into its stream.
  abbrev pub served : Option ListenerError → Msg c → Option c.StreamState → Option c.StreamState
  served none (reliable syn stream_id seqno payload) old = some (c.new_established stream_id)
  served (some e) (reliable syn stream_id seqno payload) old = old
  served failure (reliable rst stream_id seqno payload) old = none
  served failure (reliable syn_ack stream_id seqno payload) old =
      injected (reliable syn_ack stream_id seqno payload) old
  served failure (reliable (other_kind k) stream_id seqno payload) old =
      injected (reliable (other_kind k) stream_id seqno payload) old
  served failure (unreliable u) old = old

  abbrev pub served_if :
      Option ListenerError → Option (Msg c) → Option c.StreamState → Option c.StreamState
  served_if failure none old = old
  served_if failure (some msg) old = served failure msg old

  -- Packets one after the other, up to a turn that fails: the caller of `accept` then gives up the listener.
  unfoldable pub accept_turns : List (Arrival c) → ListenerTask c (Unit {0})
  accept_turns [] = return tt
  accept_turns (arrival ∷ arrivals) = accept_turn c arrival >>= λ r. accept_turns arrivals

  -- The packets of one client alone.
  unfoldable pub served_all :
      Endpoint → List (Arrival c) → Option c.StreamState → Option c.StreamState
  served_all ep [] old = old
  served_all ep (arrival ∷ arrivals) old = served_all ep arrivals (
      if pair_beq arrival.client_ep ep
      then served_if arrival.failure (c.decode arrival.packet) old
      else old)

  -- The number of the next stream is free.
  pub next_state_new :
      (ep : Endpoint) (s : StreamListener c) → IsWellFormed s → get ep s.table ≢ some s.next_state
  next_state_new ep s wf h =
      let held = wf.has_state ep s.next_state h in
      absurd (omega (arith, wf.below_next s.next_state held.0 held.1))

  open_stream-IsWellFormed :
      (ep : Endpoint) (stream_id : ℕ) (s : StreamListener c)
      → IsWellFormed s
      → IsWellFormed (open_stream c ep stream_id s).1
  unfolding open_stream
  open_stream-IsWellFormed ep stream_id s wf = record {
    has_state = λ e h g. ground (
      arith,
      g,
      pair_beq_iff ep e,
      nat_beq_iff s.next_state h,
      get-insert ep e s.next_state s.table,
      get-insert s.next_state h (c.new_established stream_id) s.states,
      wf.has_state e h,
    );
    below_next = λ h st g. ground (
      arith,
      g,
      nat_beq_iff s.next_state h,
      get-insert s.next_state h (c.new_established stream_id) s.states,
      wf.below_next h st,
    );
    alone = λ e o h g k. elim (Bool-cases (pair_beq ep e)) [
      | inl x ↦ elim (Bool-cases (pair_beq ep o)) [
        | inl y ↦ sym ((pair_beq_iff ep e).0 x) ∙ (pair_beq_iff ep o).0 y
        | inr y ↦ ground (
          arith,
          g,
          k,
          x,
          y,
          get-insert ep e s.next_state s.table,
          get-insert ep o s.next_state s.table,
          next_state_new o s wf,
        )
      ]
      | inr x ↦ elim (Bool-cases (pair_beq ep o)) [
        | inl y ↦ ground (
          arith,
          g,
          k,
          x,
          y,
          get-insert ep e s.next_state s.table,
          get-insert ep o s.next_state s.table,
          next_state_new e s wf,
        )
        | inr y ↦
            wf.alone e o h (ground (arith, g, x, get-insert ep e s.next_state s.table))
              (ground (arith, k, y, get-insert ep o s.next_state s.table))
      ]
    ];
  }

  -- A state is replaced by one that the same stream has then.
  update-IsWellFormed :
      (h : ℕ) (old new : c.StreamState) (s : StreamListener c)
      → get h s.states ≡ some old
      → IsWellFormed s
      → IsWellFormed (record s { states = insert h new s.states })
  update-IsWellFormed h old new s there wf = record {
    has_state = λ e k g.
        ground (arith, g, nat_beq_iff h k, get-insert h k new s.states, wf.has_state e k g);
    below_next = λ k st g. ground (
      arith,
      g,
      there,
      nat_beq_iff h k,
      get-insert h k new s.states,
      wf.below_next k st,
      wf.below_next h old there,
    );
    alone = wf.alone;
  }

  forget-IsWellFormed :
      (ep : Endpoint) (s : StreamListener c)
      → IsWellFormed s
      → IsWellFormed (record s { table = remove ep s.table })
  forget-IsWellFormed ep s wf = record {
    has_state = λ e h g. wf.has_state e h (ground (arith, g, get-remove ep e s.table));
    below_next = wf.below_next;
    alone = λ e o h g k.
        wf.alone e o h (ground (arith, g, get-remove ep e s.table))
          (ground (arith, k, get-remove ep o s.table));
  }

  pub send_msg-IsWellFormed :
      (failure : Option ListenerError) (msg : Msg c) (ep : Endpoint) (s : StreamListener c)
      → IsWellFormed s
      → IsWellFormed (send_msg c failure msg ep s).1
  unfolding send_msg
  send_msg-IsWellFormed none msg ep s wf = record {
    has_state = wf.has_state;
    below_next = wf.below_next;
    alone = wf.alone;
  }
  send_msg-IsWellFormed (some e) msg ep s wf = record {
    has_state = wf.has_state;
    below_next = wf.below_next;
    alone = wf.alone;
  }

  to_stream-IsWellFormed :
      (failure : Option ListenerError) (kind : RelKind c.Other) (stream_id seqno : ℕ)
      (payload : Bytes) (ep : Endpoint) (s : StreamListener c)
      → IsWellFormed s
      → IsWellFormed (to_stream c failure kind stream_id seqno payload ep s).1
  unfolding to_stream ◌>>=◌ send_msg
  to_stream-IsWellFormed failure kind stream_id seqno payload ep s wf =
      elim (Option-cases (get ep s.table)) [
        | inl e ↦ elim (Option-cases failure) [
          | inl f ↦
              rw (to_stream, e, f)
                (record { has_state = wf.has_state; below_next = wf.below_next; alone = wf.alone })
          | inr (x, f) ↦
              rw (to_stream, e, f)
                (record { has_state = wf.has_state; below_next = wf.below_next; alone = wf.alone })
        ]
        | inr (h, e) ↦
            let held = wf.has_state ep h e in
            rw (to_stream, e)
              (rw (held.1) (
                update-IsWellFormed h held.0
                  (c.inject_incoming (reliable kind stream_id seqno payload) held.0) s held.1 wf))
      ]

  on_message-IsWellFormed :
      (failure : Option ListenerError) (ep : Endpoint) (msg : Msg c) (s : StreamListener c)
      → IsWellFormed s
      → IsWellFormed (on_message c failure ep msg s).1
  unfolding on_message ◌>>=◌ send_msg
  on_message-IsWellFormed none ep (reliable syn stream_id seqno payload) s wf =
      open_stream-IsWellFormed ep stream_id _
        (send_msg-IsWellFormed none (reliable syn_ack stream_id seqno payload) ep s wf)
  on_message-IsWellFormed (some e) ep (reliable syn stream_id seqno payload) s wf =
      send_msg-IsWellFormed (some e) (reliable syn_ack stream_id seqno payload) ep s wf
  on_message-IsWellFormed failure ep (reliable rst stream_id seqno payload) s wf =
      forget-IsWellFormed ep s wf
  on_message-IsWellFormed failure ep (reliable syn_ack stream_id seqno payload) s wf =
      to_stream-IsWellFormed failure syn_ack stream_id seqno payload ep s wf
  on_message-IsWellFormed failure ep (reliable (other_kind k) stream_id seqno payload) s wf =
      to_stream-IsWellFormed failure (other_kind k) stream_id seqno payload ep s wf
  on_message-IsWellFormed failure ep (unreliable u) s wf = wf

  pub accept_turn-IsWellFormed :
      (arrival : Arrival c) (s : StreamListener c)
      → IsWellFormed s
      → IsWellFormed (accept_turn c arrival s).1
  unfolding accept_turn ◌>>=◌
  accept_turn-IsWellFormed arrival s wf = elim (Option-cases (c.decode arrival.packet)) [
    | inl e ↦ rw e wf
    | inr (msg, e) ↦ rw e (on_message-IsWellFormed arrival.failure arrival.client_ep msg s wf)
  ]

  -- What a ticker leaves behind, its queue and its log apart.
  ticks-IsWellFormed :
      (h : ℕ) (old new : c.StreamState) (table : Map Endpoint ℕ) (s t : StreamListener c)
      → get h s.states ≡ some old
      → t.table ≡ table
      → t.states ≡ insert h new s.states
      → t.next_state ≡ s.next_state
      → IsWellFormed (record s { table = table })
      → IsWellFormed t
  ticks-IsWellFormed h old new table s t there same_table states next wf =
      let wf_new = update-IsWellFormed h old new (record s { table = table }) there wf in
      record {
        has_state = rw (same_table, states) wf_new.has_state;
        below_next = rw (states, next) wf_new.below_next;
        alone = rw same_table wf_new.alone;
      }

  pub tick_turn-IsWellFormed :
      (now h : ℕ) (s : StreamListener c) → IsWellFormed s → IsWellFormed (tick_turn c now h s)
  unfolding tick_turn
  tick_turn-IsWellFormed now h s wf = elim (Option-cases (get h s.tickers)) [
    | inl e ↦ rw (tick_turn, e) wf
    | inr (ticker, e) ↦ elim (Option-cases (get h s.states)) [
      | inl f ↦ rw (tick_turn, e, f) wf
      | inr (st, f) ↦ elim (Option-cases (c.tick now st).0.1) [
        | inl g ↦
            rw (tick_turn, e, f, g)
              (ticks-IsWellFormed h st (c.tick now st).1 (remove ticker.client_ep s.table) s _ f
                refl refl refl (forget-IsWellFormed ticker.client_ep s wf))
        | inr (retick, g) ↦
            rw (tick_turn, e, f, g)
              (ticks-IsWellFormed h st (c.tick now st).1 s.table s _ f refl refl refl wf)
      ]
    ]
  ]
