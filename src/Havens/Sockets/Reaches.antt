-- ===== src/Havens/Sockets/Reaches.antt =====
-- How the steps of a haven socket move what is sent: one session, from the body to the N2R socket and back.
use earendil.Base.{
  ℕ, ◌+◌, ◌≡◌, refl, sym, ap, ◌∙◌, Option, none, some, List, [], ◌∷◌, ◌++◌, map, arith, get, insert,
  pair_eq, pair_beq_iff, ok,
}
use mathlib.Core.List.{append-nil, append_assoc}
use earendil.Crypto.{Bytes, Primitives}
use earendil.Daemon.State.{Endpoint}
use earendil.Daemon.Action.{◌>>=◌, >>=-ok, or_fail}
use earendil.Daemon.External.{Channel}
use earendil.Havens.Session.{
  Handshake, HavenMsg, client_hs, server_hs, regular, SessionCode, ReplayFilter, Phase, ended,
  Session, new_session, spawned, send_outgoing, send_incoming,
}
use earendil.Havens.Session.Streams.{sealed}
use earendil.Havens.Session.Talk.{sealed_from}
use earendil.Havens.Sockets.{
  HavenSocket, bind_haven, insert_session, open_session, pass_on, dispatch_msg, recv_turn,
  session_for, queue_body, haven_send_to, push_decrypted, session_step,
}

-- The phase of a task that has not ended.
abbrev pub Lives : {rf : ReplayFilter} → Phase rf → Type 0
Lives (ended e) = ⊥
Lives other = Unit {0}

-- stdcode decodes what it encoded.
pub record IsSessionCode (code : SessionCode) : Type 0 where
  pub decode-encode_forward :
      (body : Bytes) (ep : Endpoint)
      → code.forward.decode_forward (code.forward.encode_forward (body, ep)) ≡ some (body, ep)
  pub decode-encode_msg : (msg : HavenMsg) → code.decode_msg (code.encode_msg msg) ≡ some msg

module _ (prim : Primitives) (code : SessionCode) (rf : ReplayFilter)
    (decrypted : Channel (Bytes × Endpoint)) where
  -- A socket with one session.
  abbrev pub with_one :
      ℕ
      → Option ℕ
      → Endpoint
      → Session rf
      → List (Bytes × Endpoint)
      → decrypted.Queue
      → HavenSocket rf decrypted
  with_one isk rendezvous ep session forwarded incoming = record {
    identity_sk = isk;
    rendezvous_point = rendezvous;
    crypt_sessions = (ep, session) ∷ [];
    forwarded = forwarded;
    incoming = incoming;
  }

  get_one : (ep : Endpoint) (s : Session rf) → get ep ((ep, s) ∷ []) ≡ some s
  unfolding get
  get_one ep s = rw ((pair_beq_iff ep ep).1 refl) refl

  insert_one : (ep : Endpoint) (s t : Session rf) → insert ep t ((ep, s) ∷ []) ≡ (ep, t) ∷ []
  unfolding insert
  insert_one ep s t = rw ((pair_beq_iff ep ep).1 refl) refl

  send_incoming_ok :
      (msg : HavenMsg) (s : Session rf)
      → Lives s.phase
      → send_incoming prim code rf msg s
        ≡ (ok tt, record s { recv_incoming = s.recv_incoming ++ msg ∷ [] })
  unfolding send_incoming
  send_incoming_ok msg s lives = ground arith

  send_outgoing_ok :
      (body : Bytes) (s : Session rf)
      → Lives s.phase
      → send_outgoing prim code rf body s
        ≡ (ok tt, record s { recv_outgoing = s.recv_outgoing ++ body ∷ [] })
  unfolding send_outgoing
  send_outgoing_ok body s lives = ground arith

  module _ (isk : ℕ) (rendezvous : Option ℕ) (ep : Endpoint) (forwarded : List (Bytes × Endpoint))
      (incoming : decrypted.Queue) where
    pub session_step_one :
        (step : Session rf → Session rf) (s : Session rf)
        → session_step prim code rf decrypted step ep
            (with_one isk rendezvous ep s forwarded incoming)
          ≡ with_one isk rendezvous ep
              (record (step s) { outbox = []; inbox = [] })
              (forwarded ++ (step s).outbox)
              (push_decrypted prim code rf decrypted (step s).inbox incoming)
    unfolding session_step
    session_step_one step s = rw (session_step, get_one ep s, insert_one ep s _) refl

    session_for_one :
        (s : Session rf)
        → session_for prim code rf decrypted ep (with_one isk rendezvous ep s forwarded incoming)
          ≡ (ok s, with_one isk rendezvous ep s forwarded incoming)
    unfolding session_for
    session_for_one s = rw (session_for, get_one ep s) refl

    pub haven_send_to_one :
        (body : Bytes) (s : Session rf)
        → Lives s.phase
        → haven_send_to prim code rf decrypted body ep
            (with_one isk rendezvous ep s forwarded incoming)
          ≡ (
            ok tt,
            with_one isk rendezvous ep
                (record s { recv_outgoing = s.recv_outgoing ++ body ∷ [] })
                forwarded
                incoming,
          )
    unfolding haven_send_to queue_body insert_session
    haven_send_to_one body s lives =
        let w = with_one isk rendezvous ep s forwarded incoming in
        >>=-ok (session_for prim code rf decrypted ep) _ w w s (session_for_one s)
        ∙ ground (
          arith,
          send_outgoing_ok body s lives,
          insert_one ep s (record s { recv_outgoing = s.recv_outgoing ++ body ∷ [] }),
        )

    pub pass_on_one :
        (msg : HavenMsg) (s : Session rf)
        → Lives s.phase
        → pass_on prim code rf decrypted ep msg (with_one isk rendezvous ep s forwarded incoming)
          ≡ (
            ok tt,
            with_one isk rendezvous ep
                (record s { recv_incoming = s.recv_incoming ++ msg ∷ [] })
                forwarded
                incoming,
          )
    unfolding pass_on
    pass_on_one msg s lives = ground (
      arith,
      get_one ep s,
      send_incoming_ok msg s lives,
      insert_one ep s (record s { recv_incoming = s.recv_incoming ++ msg ∷ [] }),
    )

  -- Packets for the socket, one after the other.
  unfoldable pub recv_turns : List Bytes → HavenSocket rf decrypted → HavenSocket rf decrypted
  recv_turns [] s = s
  recv_turns (packet ∷ packets) s = recv_turns packets (recv_turn prim code rf decrypted packet s).1

  -- Bodies for the socket to send.
  unfoldable pub haven_sends :
      List Bytes → Endpoint → HavenSocket rf decrypted → HavenSocket rf decrypted
  haven_sends [] ep s = s
  haven_sends (body ∷ bodies) ep s =
      haven_sends bodies ep (haven_send_to prim code rf decrypted body ep s).1

  pub haven_sends_one :
      (isk : ℕ) (rendezvous : Option ℕ) (ep : Endpoint) (forwarded : List (Bytes × Endpoint))
      (incoming : decrypted.Queue) (bodies : List Bytes) (s : Session rf)
      → Lives s.phase
      → haven_sends bodies ep (with_one isk rendezvous ep s forwarded incoming)
        ≡ with_one isk rendezvous ep
            (record s { recv_outgoing = s.recv_outgoing ++ bodies })
            forwarded
            incoming
  unfolding haven_sends
  haven_sends_one isk rendezvous ep forwarded incoming [] s lives = λ i.
      with_one isk rendezvous ep (record s { recv_outgoing = sym (append-nil s.recv_outgoing) i })
        forwarded incoming
  haven_sends_one isk rendezvous ep forwarded incoming (body ∷ bodies) s lives =
      ap (λ r. haven_sends bodies ep r.1)
        (haven_send_to_one isk rendezvous ep forwarded incoming body s lives)
      ∙ haven_sends_one isk rendezvous ep forwarded incoming bodies
          (record s { recv_outgoing = s.recv_outgoing ++ body ∷ [] }) lives
      ∙ ap (λ out. with_one isk rendezvous ep (record s { recv_outgoing = out }) forwarded incoming)
          (append_assoc s.recv_outgoing (body ∷ []) bodies)

  -- The first body opens a session.
  pub haven_send_to_first :
      (isk : ℕ) (rendezvous : Option ℕ) (ep : Endpoint) (body : Bytes)
      → haven_send_to prim code rf decrypted body ep
          (bind_haven prim code rf decrypted isk rendezvous)
        ≡ (
          ok tt,
          with_one isk rendezvous ep
              (record (spawned prim code rf isk ep rendezvous none) { recv_outgoing = body ∷ [] })
              []
              (decrypted.bounded 1000),
        )
  unfolding haven_send_to queue_body session_for open_session insert_session bind_haven new_session
      send_outgoing get insert or_fail ◌>>=◌
  haven_send_to_first isk rendezvous ep body = rw ((pair_beq_iff ep ep).1 refl) refl

  module _ (coded : IsSessionCode code) where
    recv_turn_lem :
        (msg : HavenMsg) (ep : Endpoint) (s : HavenSocket rf decrypted)
        → recv_turn prim code rf decrypted (code.forward.encode_forward (code.encode_msg msg, ep)) s
          ≡ dispatch_msg prim code rf decrypted ep msg s
    unfolding recv_turn ◌>>=◌
    recv_turn_lem msg ep s =
        rw (coded.decode-encode_forward (code.encode_msg msg) ep, coded.decode-encode_msg msg) refl

    -- A client's handshake opens a session too, if it is not spoofed.
    pub recv_turn_first :
        (isk : ℕ) (rendezvous : Option ℕ) (ep : Endpoint) (hs : Handshake)
        → new_session prim code rf isk ep rendezvous (some (hs, ep.0))
          ≡ ok (spawned prim code rf isk ep rendezvous (some hs))
        → recv_turn prim code rf decrypted
            (code.forward.encode_forward (code.encode_msg (client_hs hs), ep))
            (bind_haven prim code rf decrypted isk rendezvous)
          ≡ (
            ok tt,
            with_one isk rendezvous ep
                (spawned prim code rf isk ep rendezvous (some hs))
                []
                (decrypted.bounded 1000),
          )
    unfolding dispatch_msg open_session insert_session bind_haven insert or_fail ◌>>=◌
    recv_turn_first isk rendezvous ep hs fine =
        recv_turn_lem (client_hs hs) ep (bind_haven prim code rf decrypted isk rendezvous)
        ∙ rw fine refl

    module _ (isk : ℕ) (rendezvous : Option ℕ) (ep : Endpoint) (forwarded : List (Bytes × Endpoint))
        (incoming : decrypted.Queue) where
      pub recv_turn_server :
          (hs : Handshake) (s : Session rf)
          → Lives s.phase
          → recv_turn prim code rf decrypted
              (code.forward.encode_forward (code.encode_msg (server_hs hs), ep))
              (with_one isk rendezvous ep s forwarded incoming)
            ≡ (
              ok tt,
              with_one isk rendezvous ep
                  (record s { recv_incoming = s.recv_incoming ++ server_hs hs ∷ [] })
                  forwarded
                  incoming,
            )
      unfolding dispatch_msg
      recv_turn_server hs s lives =
          recv_turn_lem (server_hs hs) ep (with_one isk rendezvous ep s forwarded incoming)
          ∙ pass_on_one isk rendezvous ep forwarded incoming (server_hs hs) s lives

      recv_turn_regular :
          (nonce : ℕ) (inner : Bytes) (s : Session rf)
          → Lives s.phase
          → recv_turn prim code rf decrypted
              (code.forward.encode_forward (code.encode_msg (regular nonce inner), ep))
              (with_one isk rendezvous ep s forwarded incoming)
            ≡ (
              ok tt,
              with_one isk rendezvous ep
                  (record s { recv_incoming = s.recv_incoming ++ regular nonce inner ∷ [] })
                  forwarded
                  incoming,
            )
      unfolding dispatch_msg
      recv_turn_regular nonce inner s lives =
          recv_turn_lem (regular nonce inner) ep (with_one isk rendezvous ep s forwarded incoming)
          ∙ pass_on_one isk rendezvous ep forwarded incoming (regular nonce inner) s lives

      pub recv_turns_sealed :
          (key : Bytes) (n : ℕ) (bodies : List Bytes) (s : Session rf)
          → Lives s.phase
          → recv_turns
              (map
                (λ msg. code.forward.encode_forward (code.encode_msg msg, ep))
                (sealed_from prim code rf key n bodies))
              (with_one isk rendezvous ep s forwarded incoming)
            ≡ with_one isk rendezvous ep
                (record s {
                  recv_incoming = s.recv_incoming ++ sealed_from prim code rf key n bodies;
                })
                forwarded
                incoming
      unfolding recv_turns sealed_from
      recv_turns_sealed key n [] s lives = λ i.
          with_one isk rendezvous ep
            (record s { recv_incoming = sym (append-nil s.recv_incoming) i }) forwarded incoming
      recv_turns_sealed key n (body ∷ bodies) s lives =
          let msg = sealed prim key n body in
          let packets =
            map (λ m. code.forward.encode_forward (code.encode_msg m, ep))
              (sealed_from prim code rf key (n + 1) bodies) in
          ap (λ r. recv_turns packets r.1) (recv_turn_regular n _ s lives)
          ∙ recv_turns_sealed key (n + 1) bodies
              (record s { recv_incoming = s.recv_incoming ++ msg ∷ [] }) lives
          ∙ ap
              (λ inc.
                with_one isk rendezvous ep (record s { recv_incoming = inc }) forwarded incoming)
              (append_assoc s.recv_incoming (msg ∷ [])
                (sealed_from prim code rf key (n + 1) bodies))
