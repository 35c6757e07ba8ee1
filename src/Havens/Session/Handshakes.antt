-- ===== src/Havens/Session/Handshakes.antt =====
-- The handshake of a session: who is let in, and that both ends come to the same keys.
use earendil.Base.{
  ℕ, ◌≡◌, refl, sym, ap, ◌∙◌, Option, none, some, List, [], ◌∷◌, ◌++◌, arith, nat_beq_iff, ok, ◌↔◌,
}
use earendil.Crypto.{Primitives, IsLawful, verify, fingerprint, public, verify-sign}
use earendil.Packet.Crypt.{shared_secret}
use earendil.Daemon.State.{Endpoint}
use earendil.Daemon.Action.{>>=-ok}
use earendil.Havens.Session.{
  Handshake, HavenMsg, client_hs, server_hs, SessionCode, ReplayFilter, Lookup, starting, awaiting,
  Session, handshake_to_sign, new_handshake, check_client, spawned, new_session, rendezvous_ep,
  send_to_rendezvous, established, become, begin_task, await_turn, settle, started, start_task,
  receive,
}
use earendil.Havens.Session.Talk.{send_to_rendezvous_ok, packed}

module _ (prim : Primitives) (code : SessionCode) (rf : ReplayFilter) where
  -- A client's handshake is taken exactly if its signature verifies and the endpoint that it comes from has the
  -- fingerprint of its key.
  pub new_session_iff :
      (my_isk : ℕ) (remote : Endpoint) (rendezvous_fp : Option ℕ) (hs : Handshake) (fp : ℕ)
      → (new_session prim code rf my_isk remote rendezvous_fp (some (hs, fp))
          ≡ ok (spawned prim code rf my_isk remote rendezvous_fp (some hs)))
        ↔ ((verify prim hs.id_pk (handshake_to_sign prim code hs) hs.sig ≡ ok tt)
            × (fingerprint prim hs.id_pk ≡ fp))
  unfolding new_session check_client
  new_session_iff my_isk remote rendezvous_fp hs fp = (
    λ h. ground (arith, h, nat_beq_iff (fingerprint prim hs.id_pk) fp),
    λ (v, same). ground (arith, v, same, nat_beq_iff (fingerprint prim hs.id_pk) fp),
  )

  module _ (lawful : IsLawful prim) where
    new_handshake-verifies :
        (isk osk : ℕ)
        → verify prim
            (new_handshake prim code isk osk).id_pk
            (handshake_to_sign prim code (new_handshake prim code isk osk))
            (new_handshake prim code isk osk).sig
          ≡ ok tt
    unfolding new_handshake handshake_to_sign
    new_handshake-verifies isk osk = verify-sign prim lawful isk _

    pub new_session-new_handshake :
        (my_isk : ℕ) (remote : Endpoint) (rendezvous_fp : Option ℕ) (isk osk : ℕ)
        → remote.0 ≡ fingerprint prim (public prim isk)
        → new_session prim code rf my_isk remote rendezvous_fp
            (some (new_handshake prim code isk osk, remote.0))
          ≡ ok (
              spawned prim code rf my_isk remote rendezvous_fp
                (some (new_handshake prim code isk osk)))
    unfolding new_handshake
    new_session-new_handshake my_isk remote rendezvous_fp isk osk same =
        (new_session_iff my_isk remote rendezvous_fp (new_handshake prim code isk osk) remote.0).1
          (new_handshake-verifies isk osk, sym same)

  -- A client starts: it sends its handshake and waits.
  pub client_starts :
      (s : Session rf) (osk : ℕ) (ep : Endpoint) (lookup : Lookup)
      → s.phase ≡ starting none
      → rendezvous_ep prim code rf lookup s.rendezvous_fp ≡ ok ep
      → start_task prim code rf osk lookup s ≡ record s {
        phase = awaiting osk;
        outbox =
            s.outbox
            ++ packed prim code rf s.remote ep (client_hs (new_handshake prim code s.my_isk osk))
              ∷ [];
      }
  unfolding start_task begin_task become
  client_starts s osk ep lookup p e =
      let msg = client_hs (new_handshake prim code s.my_isk osk) in
      ap (λ ph. started prim code rf osk lookup ph s) p
      ∙ (ap (settle prim code rf) (
          >>=-ok (send_to_rendezvous prim code rf lookup msg) _ s _ tt
            (send_to_rendezvous_ok prim code rf lookup ep msg s e)))

  -- A haven that answers a client starts: it sends its own handshake, and both loops run.
  pub server_starts :
      (s : Session rf) (osk : ℕ) (ep : Endpoint) (lookup : Lookup) (hs : Handshake)
      → s.phase ≡ starting (some hs)
      → rendezvous_ep prim code rf lookup s.rendezvous_fp ≡ ok ep
      → start_task prim code rf osk lookup s ≡ record s {
        phase = established prim code rf s.rendezvous_fp (shared_secret prim osk hs.eph_pk);
        outbox =
            s.outbox
            ++ packed prim code rf s.remote ep (server_hs (new_handshake prim code s.my_isk osk))
              ∷ [];
      }
  unfolding start_task begin_task become
  server_starts s osk ep lookup hs p e =
      let msg = server_hs (new_handshake prim code s.my_isk osk) in
      ap (λ ph. started prim code rf osk lookup ph s) p
      ∙ (ap (settle prim code rf) (
          >>=-ok (send_to_rendezvous prim code rf lookup msg) _ s _ tt
            (send_to_rendezvous_ok prim code rf lookup ep msg s e)))

  -- The client hears the haven's handshake, whoever signed it.
  pub client_hears :
      (s : Session rf) (osk : ℕ) (hs : Handshake) (rest : List HavenMsg)
      → s.phase ≡ awaiting osk
      → s.recv_incoming ≡ server_hs hs ∷ rest
      → receive prim code rf s ≡ record s {
        phase = established prim code rf s.rendezvous_fp (shared_secret prim osk hs.eph_pk);
        recv_incoming = rest;
      }
  unfolding receive await_turn
  client_hears s osk hs rest p q = rw (q, p) refl
