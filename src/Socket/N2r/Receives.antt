-- ===== src/Socket/N2r/Receives.antt =====
-- `recv_from` of src/socket/n2r_socket.rs behaves as a queue of the pieces of the messages that come in.
use earendil.Base.{
  ℕ, zero, suc, ◌≡◌, ◌<◌, refl, sym, ap, ◌∙◌, ◌⊎◌, inl, inr, none, some, List, [], ◌∷◌, ◌++◌, map,
  arith, length, List-cases, ok, err, if◌then◌else◌,
}
use earendil.Crypto.{Bytes}
use earendil.Packet.Types.{Message}
use earendil.Daemon.External.{Channel, IsChannel}
use earendil.Daemon.State.{Endpoint}
use earendil.Socket.N2r.{n2r_recv_error, Receiver, recv_from}

-- The pieces of messages, each with the endpoint that it comes from.
abbrev pub pieces : List (Message × ℕ) → List (Bytes × Endpoint)
pieces [] = []
pieces ((msg, fp) ∷ messages) = map (λ b. (b, (fp, msg.source_dock))) msg.body ++ pieces messages

module _ (messages : Channel (Message × ℕ)) where
  -- What is still to come out of a socket.
  abbrev pub upcoming : Receiver messages → List (Bytes × Endpoint)
  upcoming self = self.incoming_queue ++ pieces (messages.pending self.recv_incoming)

module _ (messages : Channel (Message × ℕ)) (is : IsChannel messages) where
  -- If nothing is to come the socket waits, or fails if its channel is closed; otherwise it returns the next piece
  -- and leaves the others in their order, closed or not. Its loop looks at most once at each message that is pending.
  pub recv_from_lem :
      (fuel : ℕ) (self : Receiver messages)
      → length (messages.pending self.recv_incoming) < fuel
      → ((after : Receiver messages) × (upcoming messages self ≡ [])
          × (upcoming messages after ≡ [])
          × (recv_from messages fuel self
              ≡ (if self.is_closed then some (err n2r_recv_error, after) else none)))
        ⊎ ((piece : Bytes × Endpoint) × (rest : List (Bytes × Endpoint)) × (after : Receiver
              messages)
            × (upcoming messages self ≡ piece ∷ rest)
            × (recv_from messages fuel self ≡ some (ok piece, after))
            × (upcoming messages after ≡ rest))
  unfolding recv_from
  recv_from_lem zero self enough = absurd (omega arith)
  recv_from_lem (suc fuel) self enough = elim (List-cases self.incoming_queue) [
    | inr (piece, rest, e) ↦
        let after : Receiver messages = record self { incoming_queue = rest } in
        inr (
          piece,
          upcoming messages after,
          after,
          ap (λ q. q ++ pieces (messages.pending self.recv_incoming)) e,
          rw (e, recv_from) refl,
          refl,
        )
    | inl drained ↦ elim (List-cases (messages.pending self.recv_incoming)) [
      | inl idle ↦ inl (
        self,
        rw (drained, idle) refl,
        rw (drained, idle) refl,
        ground (arith, drained, is.recv_empty self.recv_incoming idle),
      )
      | inr ((msg, fp), others, e) ↦
          let (r, taken, left) = is.recv_oldest (msg, fp) others self.recv_incoming e in
          let next : Receiver messages = record self {
            recv_incoming = r;
            incoming_queue = map (λ b. (b, (fp, msg.source_dock))) msg.body;
          } in
          let goes : recv_from messages (suc fuel) self ≡ recv_from messages fuel next =
            rw (drained, taken, recv_from) refl in
          let same : upcoming messages self ≡ upcoming messages next =
            ap (λ q. q ++ pieces (messages.pending self.recv_incoming)) drained
            ∙ ap pieces e
            ∙ ap (λ q. next.incoming_queue ++ pieces q) (sym left) in
          elim (recv_from_lem fuel next (ground (arith, ap length e, ap length left))) [
            | inl (after, quiet, left_quiet, f) ↦ inl (after, same ∙ quiet, left_quiet, goes ∙ f)
            | inr (piece, rest, after, u, f, w) ↦ inr (piece, rest, after, same ∙ u, goes ∙ f, w)
          ]
    ]
  ]
