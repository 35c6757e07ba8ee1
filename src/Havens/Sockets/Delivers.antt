-- ===== src/Havens/Sockets/Delivers.antt =====
-- What a client sends to a haven arrives: the conversation of `Havens.Sockets.Conversation`, step by step.
use earendil.Base.{
  ℕ, ◌^◌, ◌≡◌, ◌<◌, refl, ap, ◌∙◌, true, ◌-◌, take, Option, none, some, List, [], ◌∷◌, ◌++◌, map,
  arith, length, Map, ok,
}
use earendil.Crypto.{Bytes, Primitives, IsLawful, fingerprint, public}
use earendil.Packet.Crypt.{onion_public, shared_secret, shared_secret_comm}
use earendil.Daemon.State.{Endpoint}
use earendil.Daemon.External.{Channel, IsChannel, HasCapacity}
use earendil.Havens.Forward.{is_registered}
use earendil.Havens.Session.{
  Handshake, HavenMsg, client_hs, server_hs, SessionCode, ReplayFilter, Lookup, awaiting, running,
  Session, new_handshake, spawned, rendezvous_ep, up_key, down_key, established, start_task,
  receive, haven_forward_dock,
}
use earendil.Havens.Session.Streams.{IsReplayFilter, receives}
use earendil.Havens.Session.Talk.{sealed_from, packed, transmits, transmits_lem, receives_in_order}
use earendil.Havens.Session.Handshakes.{
  new_session-new_handshake, client_starts, server_starts, client_hears,
}
use earendil.Havens.Sockets.{HavenSocket, push_decrypted, session_step}
use earendil.Havens.Sockets.Reaches.{
  IsSessionCode, with_one, session_step_one, recv_turns, haven_sends, haven_sends_one,
  haven_send_to_first, recv_turn_first, recv_turn_server, recv_turns_sealed,
}
use earendil.Havens.Sockets.Arrives.{push_decrypted_lem}
use earendil.Havens.Sockets.Conversation.{
  relay, relay_registered, relay_first, relay_answer, alice_opens, bob_answers, alice_talks,
  bob_hears, conversation,
}

module _ (prim : Primitives) (lawful : IsLawful prim) (code : SessionCode)
    (coded : IsSessionCode code) (rf : ReplayFilter) (decrypted : Channel (Bytes × Endpoint))
    (isk_a isk_b osk_a osk_b rob : ℕ) (alice bob : Endpoint) (lookup : Lookup)
    (found : rendezvous_ep prim code rf lookup none ≡ ok (rob, haven_forward_dock)) where
  -- Where the loop of the rendezvous point listens.
  abbrev rob_ep : Endpoint
  rob_ep = (rob, haven_forward_dock)

  abbrev hs_a : Handshake
  hs_a = new_handshake prim code isk_a osk_a

  abbrev hs_b : Handshake
  hs_b = new_handshake prim code isk_b osk_b

  abbrev unopened : decrypted.Queue
  unopened = decrypted.bounded 1000

  abbrev settled :
      ℕ → Option ℕ → Endpoint → List (Bytes × Endpoint) → Session rf → HavenSocket rf decrypted
  settled isk rendezvous ep forwarded t =
      with_one prim code rf decrypted isk rendezvous ep (record t { outbox = []; inbox = [] })
        (forwarded ++ t.outbox) (push_decrypted prim code rf decrypted t.inbox unopened)

  opened_lem :
      (body : Bytes) (bodies : List Bytes)
      → alice_opens prim code rf decrypted isk_a isk_b osk_a osk_b rob alice bob lookup body bodies
        ≡ with_one prim code rf decrypted isk_a none bob
            (record (spawned prim code rf isk_a bob none none) {
              phase = awaiting osk_a;
              recv_outgoing = body ∷ bodies;
            })
            (packed prim code rf bob rob_ep (client_hs hs_a) ∷ [])
            unopened
  unfolding alice_opens haven_sends push_decrypted
  opened_lem body bodies =
      let s : Session rf = record (spawned prim code rf isk_a bob none none) {
        recv_outgoing = body ∷ bodies;
      } in
      let step = session_step prim code rf decrypted (start_task prim code rf osk_a lookup) bob in
      ap (λ r. step (haven_sends prim code rf decrypted bodies bob r.1))
        (haven_send_to_first prim code rf decrypted isk_a none bob body)
      ∙ ap step (
          haven_sends_one prim code rf decrypted isk_a none bob [] unopened bodies
            (record (spawned prim code rf isk_a bob none none) { recv_outgoing = body ∷ [] }) tt)
      ∙ session_step_one prim code rf decrypted isk_a none bob [] unopened
          (start_task prim code rf osk_a lookup) s
      ∙ ap (settled isk_a none bob []) (client_starts prim code rf s osk_a rob_ep lookup refl found)

  abbrev packet : HavenMsg → Endpoint → Bytes
  packet msg ep = code.forward.encode_forward (code.encode_msg msg, ep)

  -- The secret that both ends come to.
  abbrev secret : Bytes
  secret = shared_secret prim osk_a (onion_public prim osk_b)

  abbrev answered : HavenSocket rf decrypted
  answered =
      with_one prim code rf decrypted isk_b (some rob) alice
        (record (spawned prim code rf isk_b alice (some rob) (some hs_a)) {
          phase = running (down_key prim code rf secret) (up_key prim code rf secret) 0 rf.fresh;
        })
        (packed prim code rf alice (rob, haven_forward_dock) (server_hs hs_b) ∷ []) unopened

  answered_lem :
      alice.0 ≡ fingerprint prim (public prim isk_a)
      → bob_answers prim code rf decrypted isk_a isk_b osk_a osk_b rob alice bob lookup
          (packet (client_hs hs_a) alice ∷ [])
        ≡ answered
  unfolding bob_answers recv_turns push_decrypted rendezvous_ep established new_handshake
  answered_lem same =
      let s = spawned prim code rf isk_b alice (some rob) (some hs_a) in
      let step = session_step prim code rf decrypted (start_task prim code rf osk_b none) alice in
      ap (λ r. step r.1)
        (recv_turn_first prim code rf decrypted coded isk_b (some rob) alice hs_a
          (new_session-new_handshake prim code rf lawful isk_b alice (some rob) isk_a osk_a same))
      ∙ session_step_one prim code rf decrypted isk_b (some rob) alice [] unopened
          (start_task prim code rf osk_b none) s
      ∙ ap (settled isk_b (some rob) alice [])
          (server_starts prim code rf s osk_b (rob, haven_forward_dock) none hs_a refl refl)
      ∙ ap
          (λ sec.
            with_one prim code rf decrypted isk_b (some rob) alice
              (record s {
                phase = running (down_key prim code rf sec) (up_key prim code rf sec) 0 rf.fresh;
              })
              (packed prim code rf alice (rob, haven_forward_dock) (server_hs hs_b) ∷ []) unopened)
          (shared_secret_comm prim lawful osk_b osk_a)

  talked_lem :
      (bodies : List Bytes) (forwarded : List (Bytes × Endpoint))
      → length bodies < 2 ^ 64
      → (alice_talks prim code rf decrypted isk_a isk_b osk_a osk_b rob alice bob lookup
          (length bodies)
          (packet (server_hs hs_b) bob ∷ [])
          (with_one prim code rf decrypted isk_a none bob
            (record (spawned prim code rf isk_a bob none none) {
              phase = awaiting osk_a;
              recv_outgoing = bodies;
            })
            forwarded
            unopened)).forwarded
        ≡ map
            (packed prim code rf bob rob_ep)
            (sealed_from prim code rf (up_key prim code rf secret) 0 bodies)
  unfolding alice_talks recv_turns push_decrypted established new_handshake
  talked_lem bodies forwarded small =
      let up = up_key prim code rf secret in
      let down = down_key prim code rf secret in
      let waiting : Session rf = record (spawned prim code rf isk_a bob none none) {
        phase = awaiting osk_a;
        recv_outgoing = bodies;
      } in
      let heard : Session rf = record waiting { recv_incoming = server_hs hs_b ∷ [] } in
      let ready : Session rf = record waiting { phase = running up down 0 rf.fresh } in
      let sent =
        transmits_lem prim code rf lookup rob_ep bodies ready up down 0 rf.fresh found
          (omega (arith, small)) refl refl in
      let hear = session_step prim code rf decrypted (receive prim code rf) bob in
      let talk =
        session_step prim code rf decrypted (transmits prim code rf lookup (length bodies)) bob in
      ap (λ (w : HavenSocket rf decrypted). w.forwarded)
        (ap (λ r. talk (hear r.1))
            (recv_turn_server prim code rf decrypted coded isk_a none bob [] unopened hs_b waiting
              tt)
          ∙ ap talk (
              session_step_one prim code rf decrypted isk_a none bob [] unopened
                (receive prim code rf) heard
              ∙ ap (settled isk_a none bob [])
                  (client_hears prim code rf heard osk_a hs_b [] refl refl))
          ∙ session_step_one prim code rf decrypted isk_a none bob [] unopened
              (transmits prim code rf lookup (length bodies)) ready
          ∙ ap (settled isk_a none bob []) sent.1)

  heard_lem :
      IsReplayFilter rf
      → (bodies : List Bytes)
      → (bob_hears prim code rf decrypted isk_a isk_b osk_a osk_b rob alice bob lookup
          (length bodies)
          (map
            (λ msg. packet msg alice)
            (sealed_from prim code rf (up_key prim code rf secret) 0 bodies))
          answered).incoming
        ≡ push_decrypted prim code rf decrypted (map (λ body. (body, alice)) bodies) unopened
  unfolding bob_hears
  heard_lem filter bodies =
      let up = up_key prim code rf secret in
      let down = down_key prim code rf secret in
      let fwd = packed prim code rf alice (rob, haven_forward_dock) (server_hs hs_b) ∷ [] in
      let ready : Session rf = record (spawned prim code rf isk_b alice (some rob) (some hs_a)) {
        phase = running down up 0 rf.fresh;
      } in
      let full : Session rf = record ready {
        recv_incoming = sealed_from prim code rf up 0 bodies;
      } in
      let hear =
        session_step prim code rf decrypted (receives prim code rf (length bodies)) alice in
      ap (λ (w : HavenSocket rf decrypted). w.incoming)
        (ap hear (
            recv_turns_sealed prim code rf decrypted coded isk_b (some rob) alice fwd unopened up 0
              bodies ready tt)
          ∙ session_step_one prim code rf decrypted isk_b (some rob) alice fwd unopened
              (receives prim code rf (length bodies)) full
          ∙ ap (settled isk_b (some rob) alice fwd) (
              receives_in_order prim code rf lawful filter bodies full down up 0 0 rf.fresh
                (λ m h. absurd (ground (arith, h, filter.was_added-fresh m))) refl refl))

  -- The haven's channel was given all of them.
  pushes_all :
      IsReplayFilter rf
      → (havens : Map ℕ (Unit {0})) (body : Bytes) (bodies : List Bytes)
      → alice.0 ≡ fingerprint prim (public prim isk_a)
      → is_registered havens bob ≡ true
      → length (body ∷ bodies) < 2 ^ 64
      → (conversation prim code rf decrypted isk_a isk_b osk_a osk_b rob alice bob lookup havens
          body bodies).incoming
        ≡ push_decrypted prim code rf decrypted
            (map (λ b. (b, alice)) (body ∷ bodies))
            (decrypted.bounded 1000)
  unfolding conversation
  pushes_all filter havens body bodies same there small =
      rw
        (
          opened_lem body bodies,
          relay_first prim code rf coded havens alice bob rob_ep (client_hs hs_a) there,
          answered_lem same,
          relay_answer prim code rf coded [] bob alice (rob, haven_forward_dock) (server_hs hs_b),
          talked_lem (body ∷ bodies) (packed prim code rf bob rob_ep (client_hs hs_a) ∷ []) small,
          relay_registered prim code rf coded havens alice bob rob_ep
              (sealed_from prim code rf (up_key prim code rf secret) 0 (body ∷ bodies))
              (relay code.forward [] rob_ep bob alice answered.forwarded ((alice, bob) ∷ [])).1
              there,
        )
        (heard_lem filter (body ∷ bodies))

  -- A client that sends bodies to a haven, both through the haven's rendezvous point and a network that loses
  -- nothing: the haven has then pending, in their order and with the client's endpoint, the bodies, of which it
  -- loses those beyond 1000 if it receives none in between, although the rendezvous point forgets all registrations
  -- before the haven answers. The client's endpoint has the fingerprint of its key, the haven is registered at
  -- first, the client's lookups find the rendezvous point of the haven, and there are fewer than 2^64 bodies.
  pub haven_delivers :
      IsReplayFilter rf
      → IsChannel decrypted
      → HasCapacity decrypted
      → (havens : Map ℕ (Unit {0})) (body : Bytes) (bodies : List Bytes)
      → alice.0 ≡ fingerprint prim (public prim isk_a)
      → is_registered havens bob ≡ true
      → length (body ∷ bodies) < 2 ^ 64
      → decrypted.pending
          (conversation prim code rf decrypted isk_a isk_b osk_a osk_b rob alice bob lookup havens
            body bodies).incoming
        ≡ take 1000 (map (λ b. (b, alice)) (body ∷ bodies))
  haven_delivers filter is has havens body bodies same there small =
      let items = map (λ b. (b, alice)) (body ∷ bodies) in
      let none_yet = is.pending-bounded 1000 in
      ap decrypted.pending (pushes_all filter havens body bodies same there small)
      ∙ push_decrypted_lem prim code rf decrypted is has items unopened
      ∙ ap (λ xs. xs ++ take (has.capacity unopened - length xs) items) none_yet
      ∙ ap (λ n. take (n - 0) items) (has.capacity-bounded 1000)
