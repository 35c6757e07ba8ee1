-- ===== src/Havens/Sockets/Belongs.antt =====
-- A session keeps the key, the peer and the rendezvous point that it was made with.
use earendil.Base.{ℕ, ◌≡◌, Option, none, some, arith, nat_beq_iff, pair_eq, ok}
use earendil.Crypto.{Bytes, Primitives, verify, fingerprint}
use earendil.Daemon.State.{Endpoint}
use earendil.Daemon.Action.{◌>>=◌}
use earendil.Havens.Session.{
  Handshake, HavenMsg, SessionCode, ReplayFilter, Lookup, Phase, starting, awaiting, running, ended,
  Session, new_session, handshake_to_sign, check_client, send_incoming, send_outgoing,
  send_to_rendezvous, established, become, begin_task, await_turn, down_turn, up_turn, start_task,
  receive, transmit,
}

module _ (prim : Primitives) (code : SessionCode) (rf : ReplayFilter) where
  -- A session that a client began: the client's handshake is signed by the key of its endpoint.
  abbrev pub Admitted : Endpoint → Phase rf → Type 0
  Admitted ep (starting (some hs)) =
      (verify prim hs.id_pk (handshake_to_sign prim code hs) hs.sig ≡ ok tt)
      × (fingerprint prim hs.id_pk ≡ ep.0)
  Admitted ep (starting none) = Unit
  Admitted ep (awaiting osk) = Unit
  Admitted ep (running ek dk nonce seen) = Unit
  Admitted ep (ended e) = Unit

  -- A session for an endpoint, of a socket with this key and rendezvous point.
  pub record Belongs (isk : ℕ) (rendezvous : Option ℕ) (ep : Endpoint) (s : Session rf)
      : Type 0 where
    pub same_isk : s.my_isk ≡ isk
    pub same_remote : s.remote ≡ ep
    pub same_rendezvous : s.rendezvous_fp ≡ rendezvous
    pub admitted : Admitted ep s.phase

  module _ (isk : ℕ) (rendezvous : Option ℕ) (ep : Endpoint) where
    pub start_task-Belongs :
        (osk : ℕ) (lookup : Lookup) (s : Session rf)
        → Belongs isk rendezvous ep s
        → Belongs isk rendezvous ep (start_task prim code rf osk lookup s)
    unfolding start_task begin_task send_to_rendezvous become established ◌>>=◌
    start_task-Belongs osk lookup s b = ground arith

    pub receive-Belongs :
        (s : Session rf)
        → Belongs isk rendezvous ep s
        → Belongs isk rendezvous ep (receive prim code rf s)
    unfolding receive await_turn down_turn established
    receive-Belongs s b = ground arith

    pub transmit-Belongs :
        (lookup : Lookup) (s : Session rf)
        → Belongs isk rendezvous ep s
        → Belongs isk rendezvous ep (transmit prim code rf lookup s)
    unfolding transmit up_turn send_to_rendezvous become ◌>>=◌
    transmit-Belongs lookup s b = ground arith

    pub new_session-Belongs :
        (s : Session rf) (hs : Handshake)
        → new_session prim code rf isk ep rendezvous (some (hs, ep.0)) ≡ ok s
        → Belongs isk rendezvous ep s
    unfolding new_session check_client
    new_session-Belongs s hs h = ground (arith, h, nat_beq_iff (fingerprint prim hs.id_pk) ep.0)

    pub send_incoming-Belongs :
        (msg : HavenMsg) (s : Session rf)
        → Belongs isk rendezvous ep s
        → Belongs isk rendezvous ep (send_incoming prim code rf msg s).1
    unfolding send_incoming
    send_incoming-Belongs msg s b = ground arith

    pub send_outgoing-Belongs :
        (body : Bytes) (s : Session rf)
        → Belongs isk rendezvous ep s
        → Belongs isk rendezvous ep (send_outgoing prim code rf body s).1
    unfolding send_outgoing
    send_outgoing-Belongs body s b = ground arith
