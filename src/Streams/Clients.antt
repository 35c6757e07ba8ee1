-- ===== src/Streams/Clients.antt =====
-- Each client of a listener is served as if it were the only one.
use earendil.Base.{
  ℕ, ◌≡◌, refl, sym, ap, ◌∙◌, Option, none, some, List, [], ◌∷◌, arith, get, insert, remove,
  get-insert, get-remove, pair_eq, nat_eq, nat_beq_iff, pair_beq, pair_beq_iff, Option-cases,
  Bool-cases, inl, inr, if◌then◌else◌, subst, Result, ok, err, panic,
}
use earendil.Crypto.{Bytes}
use earendil.Daemon.State.{Endpoint}
use earendil.Daemon.Action.{◌>>=◌, ◌>>◌, return, run-cases, >>=-ok, >>=-err, >>=-panic}
use earendil.Streams.{
  RelKind, syn, syn_ack, rst, other_kind, reliable, unreliable, StreamCrate, ListenerError, Arrival,
  StreamListener, ListenerTask, Msg, listen, send_msg, open_stream, to_stream, on_message,
  accept_turn, tick_turn,
}
use earendil.Streams.Serves.{
  IsWellFormed, stream_of, injected, served, served_if, served_all, accept_turns, next_state_new,
  send_msg-IsWellFormed, accept_turn-IsWellFormed, tick_turn-IsWellFormed,
}

module _ (c : StreamCrate) where
  abbrev either : {A : Type 0} → Endpoint → Endpoint → A → A → A
  either one other x y = if pair_beq one other then x else y

  stream_at :
      (ep : Endpoint) (s : StreamListener c) (h : ℕ)
      → get ep s.table ≡ some h
      → stream_of c ep s ≡ get h s.states
  unfolding stream_of
  stream_at ep s h e = rw (stream_of, e) refl

  no_stream :
      (ep : Endpoint) (s : StreamListener c) → get ep s.table ≡ none → stream_of c ep s ≡ none
  unfolding stream_of
  no_stream ep s e = rw (stream_of, e) refl

  open_stream-stream_of :
      (from ep : Endpoint) (stream_id : ℕ) (s : StreamListener c)
      → IsWellFormed c s
      → stream_of c ep (open_stream c from stream_id s).1
        ≡ either from ep (some (c.new_established stream_id)) (stream_of c ep s)
  unfolding open_stream
  open_stream-stream_of from ep stream_id s wf =
      let t = (open_stream c from stream_id s).1 in
      let new = c.new_established stream_id in
      elim (Bool-cases (pair_beq from ep)) [
        | inl x ↦ rw x (
            stream_at ep t s.next_state (ground (arith, x, get-insert from ep s.next_state s.table))
            ∙ ground (
              arith,
              get-insert s.next_state s.next_state new s.states,
              nat_beq_iff s.next_state s.next_state,
            ))
        | inr x ↦ elim (Option-cases (get ep s.table)) [
          | inl e ↦ rw x (
              no_stream ep t (ground (arith, x, e, get-insert from ep s.next_state s.table))
              ∙ sym (no_stream ep s e))
          | inr (h, e) ↦ rw x (
              stream_at ep t h (ground (arith, x, e, get-insert from ep s.next_state s.table))
              ∙ ground (
                arith,
                e,
                get-insert s.next_state h new s.states,
                nat_beq_iff s.next_state h,
                next_state_new c ep s wf,
              )
              ∙ sym (stream_at ep s h e))
        ]
      ]

  forget-stream_of :
      (from ep : Endpoint) (s : StreamListener c)
      → stream_of c ep (record s { table = remove from s.table })
        ≡ either from ep none (stream_of c ep s)
  unfolding stream_of
  forget-stream_of from ep s = ground (arith, get-remove from ep s.table)

  -- Another state of one client's stream.
  update-stream_of :
      (from ep : Endpoint) (h : ℕ) (new : c.StreamState) (s : StreamListener c)
      → IsWellFormed c s
      → get from s.table ≡ some h
      → stream_of c ep (record s { states = insert h new s.states })
        ≡ either from ep (some new) (stream_of c ep s)
  update-stream_of from ep h new s wf e =
      let t = record s { states = insert h new s.states } in
      elim (Bool-cases (pair_beq from ep)) [
        | inl x ↦ rw x (
            stream_at ep t h (ground (arith, e, x, pair_beq_iff from ep))
            ∙ ground (arith, get-insert h h new s.states, nat_beq_iff h h))
        | inr x ↦ elim (Option-cases (get ep s.table)) [
          | inl f ↦ rw x (no_stream ep t f ∙ sym (no_stream ep s f))
          | inr (k, f) ↦ rw x (
              stream_at ep t k f
              ∙ ground (
                arith,
                e,
                f,
                x,
                get-insert h k new s.states,
                nat_beq_iff h k,
                wf.alone from ep h e,
                pair_beq_iff from ep,
              )
              ∙ sym (stream_at ep s k f))
        ]
      ]

  send_msg-stream_of :
      {A : Type 0} (failure : Option ListenerError) (msg : Msg c) (from ep : Endpoint)
      (s : StreamListener c) (a : A)
      → stream_of c ep ((send_msg c failure msg from >> return a) s).1 ≡ stream_of c ep s
  unfolding send_msg ◌>>=◌ stream_of
  send_msg-stream_of none msg from ep s a = refl
  send_msg-stream_of (some e) msg from ep s a = refl

  to_stream-stream_of :
      (failure : Option ListenerError) (kind : RelKind c.Other) (stream_id seqno : ℕ)
      (payload : Bytes) (from ep : Endpoint) (s : StreamListener c)
      → IsWellFormed c s
      → stream_of c ep (to_stream c failure kind stream_id seqno payload from s).1
        ≡ either from ep
            (injected c (reliable kind stream_id seqno payload) (stream_of c ep s))
            (stream_of c ep s)
  unfolding to_stream
  to_stream-stream_of failure kind stream_id seqno payload from ep s wf =
      elim (Option-cases (get from s.table)) [
        | inl e ↦
            rw (to_stream, e)
              (send_msg-stream_of failure (reliable rst stream_id seqno payload) from ep s none
                ∙ elim (Bool-cases (pair_beq from ep)) [
                  | inl x ↦ rw (x, no_stream ep s (ground (arith, e, x, pair_beq_iff from ep))) refl
                  | inr x ↦ rw x refl
                ])
        | inr (h, e) ↦
            let held = wf.has_state from h e in
            let new = c.inject_incoming (reliable kind stream_id seqno payload) held.0 in
            rw (to_stream, e)
              (rw (held.1) (
                update-stream_of from ep h new s wf e ∙ elim (Bool-cases (pair_beq from ep)) [
                  | inl x ↦
                      rw (x, stream_at ep s h (ground (arith, e, x, pair_beq_iff from ep)) ∙ held.1)
                        refl
                  | inr x ↦ rw x refl
                ]))
      ]

  on_message-stream_of :
      (failure : Option ListenerError) (from ep : Endpoint) (msg : Msg c) (s : StreamListener c)
      → IsWellFormed c s
      → stream_of c ep (on_message c failure from msg s).1
        ≡ either from ep (served c failure msg (stream_of c ep s)) (stream_of c ep s)
  unfolding on_message ◌>>=◌ send_msg stream_of
  on_message-stream_of none from ep (reliable syn stream_id seqno payload) s wf =
      let answer = reliable syn_ack stream_id seqno payload in
      open_stream-stream_of from ep stream_id (send_msg c none answer from s).1
        (send_msg-IsWellFormed c none answer from s wf)
  on_message-stream_of (some e) from ep (reliable syn stream_id seqno payload) s wf = ground arith
  on_message-stream_of failure from ep (reliable rst stream_id seqno payload) s wf =
      forget-stream_of from ep s
  on_message-stream_of failure from ep (reliable syn_ack stream_id seqno payload) s wf =
      to_stream-stream_of failure syn_ack stream_id seqno payload from ep s wf
  on_message-stream_of failure from ep (reliable (other_kind k) stream_id seqno payload) s wf =
      to_stream-stream_of failure (other_kind k) stream_id seqno payload from ep s wf
  on_message-stream_of failure from ep (unreliable u) s wf = ground arith

  accept_turn-stream_of :
      (arrival : Arrival c) (ep : Endpoint) (s : StreamListener c)
      → IsWellFormed c s
      → stream_of c ep (accept_turn c arrival s).1
        ≡ either arrival.client_ep ep
            (served_if c arrival.failure (c.decode arrival.packet) (stream_of c ep s))
            (stream_of c ep s)
  unfolding accept_turn ◌>>=◌
  accept_turn-stream_of arrival ep s wf = elim (Option-cases (c.decode arrival.packet)) [
    | inl e ↦ rw e (ground arith)
    | inr (msg, e) ↦ rw e (on_message-stream_of arrival.failure arrival.client_ep ep msg s wf)
  ]

  failed :
      (x : ListenerError) (u t : StreamListener c)
      → Path (Result ListenerError (Unit {0}) × StreamListener c) (err x, u) (ok tt, t)
      → ⊥
  failed x u t h = cc

  panicked :
      (u t : StreamListener c)
      → Path (Result ListenerError (Unit {0}) × StreamListener c) (panic, u) (ok tt, t)
      → ⊥
  panicked u t h = cc

  served_each :
      (ep : Endpoint) (arrivals : List (Arrival c)) (s t : StreamListener c)
      → IsWellFormed c s
      → accept_turns c arrivals s ≡ (ok tt, t)
      → stream_of c ep t ≡ served_all c ep arrivals (stream_of c ep s)
  unfolding accept_turns served_all
  served_each ep [] s t wf runs = ap (λ p. stream_of c ep p.1) (sym runs)
  served_each ep (arrival ∷ arrivals) s t wf runs =
      let more = λ (r : Option ℕ). accept_turns c arrivals in
      elim (run-cases (accept_turn c arrival) s) [
        | inl (r, u, e) ↦
            served_each ep arrivals u t
              (subst (λ p. IsWellFormed c p.1) e (accept_turn-IsWellFormed c arrival s wf))
              (sym (>>=-ok (accept_turn c arrival) more s u r e) ∙ runs)
            ∙ ap (λ p. served_all c ep arrivals (stream_of c ep p.1)) (sym e)
            ∙ ap (served_all c ep arrivals) (accept_turn-stream_of arrival ep s wf)
        | inr (inl (x, u, e)) ↦
            absurd (failed x u t (sym (>>=-err (accept_turn c arrival) more s u x e) ∙ runs))
        | inr (inr (u, e)) ↦
            absurd (panicked u t (sym (>>=-panic (accept_turn c arrival) more s u e) ∙ runs))
      ]

-- What happens to a listener: a packet comes in, or the ticker of a stream wakes.
pub data Event (c : StreamCrate) : Type 0 where
  arrives : Arrival c → Event c
  wakes : (now state : ℕ) → Event c

-- Up to a turn that fails.
unfoldable pub happens : (c : StreamCrate) → List (Event c) → ListenerTask c (Unit {0})
happens c [] = return tt
happens c (arrives arrival ∷ events) = accept_turn c arrival >>= λ r. happens c events
happens c (wakes now state ∷ events) = λ s. happens c events (tick_turn c now state s)

module _ (c : StreamCrate) where
  happens-IsWellFormed :
      (events : List (Event c)) (s : StreamListener c)
      → IsWellFormed c s
      → IsWellFormed c (happens c events s).1
  unfolding happens
  happens-IsWellFormed [] s wf = wf
  happens-IsWellFormed (arrives arrival ∷ events) s wf =
      let more = λ (r : Option ℕ). happens c events in
      let turned = accept_turn-IsWellFormed c arrival s wf in
      let Holds : Result ListenerError (Unit {0}) × StreamListener c → Type 0 =
        λ p. IsWellFormed c p.1 in
      elim (run-cases (accept_turn c arrival) s) [
        | inl (r, u, e) ↦
            subst Holds (sym (>>=-ok (accept_turn c arrival) more s u r e))
              (happens-IsWellFormed events u (subst (λ p. IsWellFormed c p.1) e turned))
        | inr (inl (x, u, e)) ↦
            subst Holds (sym (>>=-err (accept_turn c arrival) more s u x e))
              (subst (λ p. IsWellFormed c p.1) e turned)
        | inr (inr (u, e)) ↦
            subst Holds (sym (>>=-panic (accept_turn c arrival) more s u e))
              (subst (λ p. IsWellFormed c p.1) e turned)
      ]
  happens-IsWellFormed (wakes now state ∷ events) s wf =
      happens-IsWellFormed events (tick_turn c now state s)
        (tick_turn-IsWellFormed c now state s wf)

  listen-IsWellFormed : IsWellFormed c (listen c)
  unfolding listen get
  listen-IsWellFormed = record {
    has_state = λ ep h g. absurd (cc);
    below_next = λ h st g. absurd (cc);
    alone = λ ep o h g k. absurd (cc);
  }

  -- Whatever came in and whichever tickers woke since a listener was made, and whatever packets come in then, if
  -- all of them could be decoded and answered: the stream that a client has in the end is the one that it would
  -- have if its packets were the only ones, a new one for each SYN, none after RST, with everything else that it
  -- sent injected in order.
  pub accept_turns-served_all :
      (events : List (Event c)) (arrivals : List (Arrival c)) (ep : Endpoint)
      (s t : StreamListener c)
      → happens c events (listen c) ≡ (ok tt, s)
      → accept_turns c arrivals s ≡ (ok tt, t)
      → stream_of c ep t ≡ served_all c ep arrivals (stream_of c ep s)
  accept_turns-served_all events arrivals ep s t before runs =
      served_each c ep arrivals s t
        (subst (λ p. IsWellFormed c p.1) before
          (happens-IsWellFormed events (listen c) listen-IsWellFormed))
        runs
