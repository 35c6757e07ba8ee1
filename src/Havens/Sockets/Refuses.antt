-- ===== src/Havens/Sockets/Refuses.antt =====
-- Whose sessions a haven socket has, whatever packets come in.
use earendil.Base.{
  ℕ, ◌≡◌, refl, sym, subst, Option, none, some, [], arith, get, insert, remove, get-insert,
  get-remove, pair_eq, pair_beq, pair_beq_iff, ok, Option-cases, Bool-cases, Result-cases, inl, inr,
}
use earendil.Crypto.{Bytes, Primitives}
use earendil.Daemon.State.{Endpoint}
use earendil.Daemon.Action.{or_fail, ◌>>=◌, >>=-ok}
use earendil.Daemon.External.{Channel}
use earendil.Havens.Session.{
  HavenMsg, client_hs, server_hs, regular, SessionCode, ReplayFilter, Lookup, Session, new_session,
  spawned, send_incoming, send_outgoing, start_task, receive, transmit,
}
use earendil.Havens.Sockets.{
  HavenSocket, bind_haven, insert_session, open_session, pass_on, dispatch_msg, recv_turn,
  session_for, queue_body, haven_send_to, session_step,
}
use earendil.Havens.Sockets.Belongs.{
  Belongs, start_task-Belongs, receive-Belongs, transmit-Belongs, new_session-Belongs,
  send_incoming-Belongs, send_outgoing-Belongs,
}

module _ (prim : Primitives) (code : SessionCode) (rf : ReplayFilter) where
  module _ (decrypted : Channel (Bytes × Endpoint)) where
    -- Every session of the socket is for the endpoint that it stands under.
    abbrev pub OwnsAll : HavenSocket rf decrypted → Type 0
    OwnsAll s =
        (ep : Endpoint) (session : Session rf)
        → get ep s.crypt_sessions ≡ some session
        → Belongs prim code rf s.identity_sk s.rendezvous_point ep session

    insert-OwnsAll :
        (ep : Endpoint) (session : Session rf) (s : HavenSocket rf decrypted)
        → Belongs prim code rf s.identity_sk s.rendezvous_point ep session
        → OwnsAll s
        → OwnsAll (record s { crypt_sessions = insert ep session s.crypt_sessions })
    insert-OwnsAll ep session s b all k t h = elim (Bool-cases (pair_beq ep k)) [
      | inl e ↦
          let same : ep ≡ k = (pair_beq_iff ep k).0 e in
          let it : session ≡ t = ground (arith, h, e, get-insert ep k session s.crypt_sessions) in
          subst (λ x. Belongs prim code rf s.identity_sk s.rendezvous_point x t) same
            (subst (Belongs prim code rf s.identity_sk s.rendezvous_point ep) it b)
      | inr e ↦ all k t (ground (arith, h, e, get-insert ep k session s.crypt_sessions))
    ]

    pass_on-OwnsAll :
        (ep : Endpoint) (msg : HavenMsg) (s : HavenSocket rf decrypted)
        → OwnsAll s
        → OwnsAll (pass_on prim code rf decrypted ep msg s).1
    unfolding pass_on
    pass_on-OwnsAll ep msg s all = elim (Option-cases (get ep s.crypt_sessions)) [
      | inl e ↦ rw (pass_on, e) all
      | inr (enc, e) ↦ elim (Result-cases (send_incoming prim code rf msg enc).0) [
        | inl (u, f) ↦
            rw (pass_on, e)
              (rw f (
                insert-OwnsAll ep (send_incoming prim code rf msg enc).1 s
                  (send_incoming-Belongs prim code rf s.identity_sk s.rendezvous_point ep msg enc
                    (all ep enc e))
                  all))
        | inr (inl (x, f)) ↦ rw (pass_on, e) (rw f all)
        | inr (inr f) ↦ rw (pass_on, e) (rw f all)
      ]
    ]

    dispatch_msg-OwnsAll :
        (ep : Endpoint) (msg : HavenMsg) (s : HavenSocket rf decrypted)
        → OwnsAll s
        → OwnsAll (dispatch_msg prim code rf decrypted ep msg s).1
    unfolding dispatch_msg open_session insert_session or_fail ◌>>=◌
    dispatch_msg-OwnsAll ep (server_hs hs) s all = pass_on-OwnsAll ep (server_hs hs) s all
    dispatch_msg-OwnsAll ep (regular nonce inner) s all =
        pass_on-OwnsAll ep (regular nonce inner) s all
    dispatch_msg-OwnsAll ep (client_hs hs) s all =
        elim (Result-cases
          (new_session prim code rf s.identity_sk ep s.rendezvous_point (some (hs, ep.0)))) [
            | inl (t, e) ↦ rw e (
                insert-OwnsAll ep t s
                  (new_session-Belongs prim code rf s.identity_sk s.rendezvous_point ep t hs e) all)
            | inr (inl (x, e)) ↦ rw e all
            | inr (inr e) ↦ rw e all
          ]

    recv_turn-OwnsAll :
        (packet : Bytes) (s : HavenSocket rf decrypted)
        → OwnsAll s
        → OwnsAll (recv_turn prim code rf decrypted packet s).1
    unfolding recv_turn ◌>>=◌
    recv_turn-OwnsAll packet s all = elim (Option-cases (code.forward.decode_forward packet)) [
      | inl e ↦ rw e all
      | inr (unpacked, e) ↦ elim (Option-cases (code.decode_msg unpacked.0)) [
        | inl f ↦ rw (e, f) all
        | inr (msg, f) ↦ rw (e, f) (dispatch_msg-OwnsAll unpacked.1 msg s all)
      ]
    ]

    session_step-OwnsAll :
        (step : Session rf → Session rf) (ep : Endpoint) (s : HavenSocket rf decrypted)
        → ((t : Session rf)
            → Belongs prim code rf s.identity_sk s.rendezvous_point ep t
            → Belongs prim code rf s.identity_sk s.rendezvous_point ep (step t))
        → OwnsAll s
        → OwnsAll (session_step prim code rf decrypted step ep s)
    unfolding session_step
    session_step-OwnsAll step ep s keeps all = elim (Option-cases (get ep s.crypt_sessions)) [
      | inl e ↦ rw (session_step, e) all
      | inr (enc, e) ↦
          let b = keeps enc (all ep enc e) in
          rw (session_step, e)
            (insert-OwnsAll ep (record (step enc) { outbox = []; inbox = [] }) s
              (record {
                same_isk = b.same_isk;
                same_remote = b.same_remote;
                same_rendezvous = b.same_rendezvous;
                admitted = b.admitted;
              })
              all)
    ]

    remove-OwnsAll :
        (ep : Endpoint) (s : HavenSocket rf decrypted)
        → OwnsAll s
        → OwnsAll (record s { crypt_sessions = remove ep s.crypt_sessions })
    remove-OwnsAll ep s all k t h = all k t (ground (arith, h, get-remove ep k s.crypt_sessions))

    queue_body-OwnsAll :
        (body : Bytes) (ep : Endpoint) (enc : Session rf) (s : HavenSocket rf decrypted)
        → Belongs prim code rf s.identity_sk s.rendezvous_point ep enc
        → OwnsAll s
        → OwnsAll (queue_body prim code rf decrypted body ep enc s).1
    unfolding queue_body insert_session ◌>>=◌
    queue_body-OwnsAll body ep enc s b all =
        elim (Result-cases (send_outgoing prim code rf body enc).0) [
          | inl (u, e) ↦
              rw (queue_body, e)
                (insert-OwnsAll ep (send_outgoing prim code rf body enc).1 s
                  (send_outgoing-Belongs prim code rf s.identity_sk s.rendezvous_point ep body enc
                    b)
                  all)
          | inr (inl (x, e)) ↦ rw (queue_body, e) (remove-OwnsAll ep s all)
          | inr (inr e) ↦ rw (queue_body, e) all
        ]

    session_for-none :
        (ep : Endpoint) (s : HavenSocket rf decrypted)
        → get ep s.crypt_sessions ≡ none
        → session_for prim code rf decrypted ep s ≡ (
          ok (spawned prim code rf s.identity_sk ep s.rendezvous_point none),
          record s {
            crypt_sessions =
                insert ep
                  (spawned prim code rf s.identity_sk ep s.rendezvous_point none)
                  s.crypt_sessions;
          },
        )
    unfolding session_for open_session insert_session new_session or_fail ◌>>=◌
    session_for-none ep s e = rw (session_for, e) refl

    haven_send_to-OwnsAll :
        (body : Bytes) (ep : Endpoint) (s : HavenSocket rf decrypted)
        → OwnsAll s
        → OwnsAll (haven_send_to prim code rf decrypted body ep s).1
    unfolding haven_send_to session_for
    haven_send_to-OwnsAll body ep s all = elim (Option-cases (get ep s.crypt_sessions)) [
      | inl e ↦
          let t = spawned prim code rf s.identity_sk ep s.rendezvous_point none in
          let opened = record s { crypt_sessions = insert ep t s.crypt_sessions } in
          let b : Belongs prim code rf s.identity_sk s.rendezvous_point ep t = record {
            same_isk = refl;
            same_remote = refl;
            same_rendezvous = refl;
            admitted = tt;
          } in
          subst (λ r. OwnsAll r.1) (sym (sends t opened (session_for-none ep s e)))
            (queue_body-OwnsAll body ep t opened b (insert-OwnsAll ep t s b all))
      | inr (enc, e) ↦
          subst (λ r. OwnsAll r.1) (sym (sends enc s (rw (session_for, e) refl)))
            (queue_body-OwnsAll body ep enc s (all ep enc e) all)
    ]
      where
        sends :
            (enc : Session rf) (u : HavenSocket rf decrypted)
            → session_for prim code rf decrypted ep s ≡ (ok enc, u)
            → haven_send_to prim code rf decrypted body ep s
              ≡ queue_body prim code rf decrypted body ep enc u
        sends enc u eq =
            >>=-ok (session_for prim code rf decrypted ep)
              (queue_body prim code rf decrypted body ep) s u enc eq

    -- What can happen to a haven socket: its user sends, a packet comes in, or the task of a session makes a
    -- step; and the cache may drop a session.
    pub data Happens : HavenSocket rf decrypted → HavenSocket rf decrypted → Type 0 where
      sends_body :
          (body : Bytes) (ep : Endpoint) (s : HavenSocket rf decrypted)
          → Happens s (haven_send_to prim code rf decrypted body ep s).1
      gets_packet :
          (packet : Bytes) (s : HavenSocket rf decrypted)
          → Happens s (recv_turn prim code rf decrypted packet s).1
      starts :
          (osk : ℕ) (lookup : Lookup) (ep : Endpoint) (s : HavenSocket rf decrypted)
          → Happens s
              (session_step prim code rf decrypted (start_task prim code rf osk lookup) ep s)
      receives_one :
          (ep : Endpoint) (s : HavenSocket rf decrypted)
          → Happens s (session_step prim code rf decrypted (receive prim code rf) ep s)
      transmits_one :
          (lookup : Lookup) (ep : Endpoint) (s : HavenSocket rf decrypted)
          → Happens s (session_step prim code rf decrypted (transmit prim code rf lookup) ep s)
      forgets :
          (ep : Endpoint) (s : HavenSocket rf decrypted)
          → Happens s (record s { crypt_sessions = remove ep s.crypt_sessions })

    pub data Comes : HavenSocket rf decrypted → HavenSocket rf decrypted → Type 0 where
      here : (s : HavenSocket rf decrypted) → Comes s s
      then_happens : (s t u : HavenSocket rf decrypted) → Comes s t → Happens t u → Comes s u

    Happens-OwnsAll : (s t : HavenSocket rf decrypted) → Happens s t → OwnsAll s → OwnsAll t
    Happens-OwnsAll _ _ (sends_body body ep s) all = haven_send_to-OwnsAll body ep s all
    Happens-OwnsAll _ _ (gets_packet packet s) all = recv_turn-OwnsAll packet s all
    Happens-OwnsAll _ _ (starts osk lookup ep s) all =
        session_step-OwnsAll _ ep s
          (start_task-Belongs prim code rf s.identity_sk s.rendezvous_point ep osk lookup) all
    Happens-OwnsAll _ _ (receives_one ep s) all =
        session_step-OwnsAll _ ep s
          (receive-Belongs prim code rf s.identity_sk s.rendezvous_point ep) all
    Happens-OwnsAll _ _ (transmits_one lookup ep s) all =
        session_step-OwnsAll _ ep s
          (transmit-Belongs prim code rf s.identity_sk s.rendezvous_point ep lookup) all
    Happens-OwnsAll _ _ (forgets ep s) all = remove-OwnsAll ep s all

    -- Whatever packets come in and whatever else happens to a haven socket since it was bound: each session in
    -- its table has the socket's key and rendezvous point and is for the endpoint that it stands under, and one
    -- that a client began and that has not started yet has a handshake that verifies under a key with that
    -- endpoint's fingerprint.
    pub Comes-OwnsAll :
        (isk : ℕ) (rendezvous : Option ℕ) (s : HavenSocket rf decrypted)
        → Comes (bind_haven prim code rf decrypted isk rendezvous) s
        → OwnsAll s
    unfolding bind_haven get
    Comes-OwnsAll isk rendezvous s c =
        go (bind_haven prim code rf decrypted isk rendezvous) s c (λ ep t h. absurd (cc))
      where
        go : (s t : HavenSocket rf decrypted) → Comes s t → OwnsAll s → OwnsAll t
        go _ _ (here s) all = all
        go _ _ (then_happens s t u c step) all = Happens-OwnsAll t u step (go s t c all)
