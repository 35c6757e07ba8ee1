-- ===== src/Havens/Forward.antt =====
-- src/daemon.rs: rendezvous_forward_loop, where a relay forwards between havens and their clients.
use earendil.Base.{
  ℕ, ◌≡◌, inl, inr, ◌⊎◌, ◌||◌, ◌&&◌, Bool, true, false, Option, none, some, List, [], ◌∷◌, arith,
  if◌then◌else◌, Map, get, nat_eq, pair_beq, Option-cases,
}
use earendil.Crypto.{Bytes}
use earendil.Daemon.State.{Endpoint}

-- stdcode of a body with an endpoint.
pub record ForwardCode : Type 0 where
  pub encode_forward : Bytes × Endpoint → Bytes
  pub decode_forward : Bytes → Option (Bytes × Endpoint)

-- The pairs of source and destination that were seen.
abbrev pub SeenSrcs : Type 0
SeenSrcs = List (Endpoint × Endpoint)

unfoldable pub is_seen : Endpoint → Endpoint → SeenSrcs → Bool
is_seen src dest [] = false
is_seen src dest ((a, b) ∷ seen) = pair_beq a src && pair_beq b dest || is_seen src dest seen

-- What a turn of the loop comes to: the loop ends, or it sends a body to an endpoint, or nothing.
pub data Forwarded : Type 0 where
  ends dropped : Forwarded
  sends : Bytes → Endpoint → Forwarded

abbrev pub is_registered : Map ℕ (Unit {0}) → Endpoint → Bool
is_registered havens ep = elim (get ep.0 havens) [ none ↦ false | some u ↦ true ]

module _ (code : ForwardCode) where
  -- A turn of rendezvous_forward_loop on a message and its source. `send_to` puts the body into a queue of
  -- the socket, which is taken to be open.
  unfoldable pub forward_turn :
      Map ℕ (Unit {0}) → Bytes × Endpoint → SeenSrcs → Forwarded × SeenSrcs
  unfolding is_seen
  forward_turn havens (msg, src_ep) seen_srcs = elim (code.decode_forward msg) [
    | none ↦ (ends, seen_srcs)
    | some (inner, dest_ep) ↦
        let is_valid_dest = is_registered havens dest_ep in
        let is_seen_src = is_seen dest_ep src_ep seen_srcs in
        let seen = if is_valid_dest then (src_ep, dest_ep) ∷ seen_srcs else seen_srcs in
        if is_valid_dest || is_seen_src
        then (sends (code.encode_forward (inner, src_ep)) dest_ep, seen)
        else (dropped, seen)
  ]

  -- The turns one after the other, each with the havens that are registered then, and what was seen by the end. A
  -- turn may end the loop: what it has seen is then lost, and so are the messages that are left.
  unfoldable pub forward_turns :
      List (Map ℕ (Unit {0}) × Bytes × Endpoint) → SeenSrcs → List Forwarded × Option SeenSrcs
  unfolding forward_turn
  forward_turns [] seen = ([], some seen)
  forward_turns ((havens, msg, src) ∷ turns) seen =
      let now = forward_turn havens (msg, src) seen in
      let later = forward_turns turns now.1 in
      elim now.0 [
        | ends ↦ (ends ∷ [], none)
        | dropped ↦ (dropped ∷ later.0, later.1)
        | sends body dest ↦ (sends body dest ∷ later.0, later.1)
      ]

  -- A message is sent on only to a registered haven, or as the answer to a source that was seen.
  pub forward_turn_sends :
      (havens : Map ℕ (Unit {0})) (msg body : Bytes) (src dest : Endpoint) (seen : SeenSrcs)
      → (forward_turn havens (msg, src) seen).0 ≡ sends body dest
      → (is_registered havens dest ≡ true) ⊎ (is_seen dest src seen ≡ true)
  unfolding forward_turn
  forward_turn_sends havens msg body src dest seen h =
      elim (Option-cases (code.decode_forward msg)) [
        | inl e ↦ absurd (ground (arith, h, e))
        | inr (packed, e) ↦ ground (arith, h, e)
      ]
