-- ===== src/Havens/Sockets/Conversation.antt =====
-- A client and a haven that talk through their rendezvous point: src/socket/haven_socket.rs and
-- src/socket/crypt_session.rs at both ends, and rendezvous_forward_loop of src/daemon.rs between them.
use earendil.Base.{
  ℕ, ◌≡◌, refl, true, none, some, List, [], ◌∷◌, map, arith, length, Map, pair_eq, pair_beq,
  pair_beq_iff, nat_eq, if◌then◌else◌,
}
use earendil.Crypto.{Bytes, Primitives}
use earendil.Daemon.State.{Endpoint}
use earendil.Daemon.External.{Channel, or_else}
use earendil.Havens.Forward.{
  ForwardCode, Forwarded, ends, dropped, sends, SeenSrcs, is_registered, is_seen, forward_turn,
  forward_turns,
}
use earendil.Havens.Session.{
  HavenMsg, SessionCode, ReplayFilter, Lookup, start_task, receive, haven_forward_dock,
}
use earendil.Havens.Session.Streams.{receives}
use earendil.Havens.Session.Talk.{packed, transmits}
use earendil.Havens.Sockets.{HavenSocket, bind_haven, session_step}
use earendil.Havens.Sockets.Reaches.{IsSessionCode, recv_turns, haven_sends}

-- What goes to one endpoint.
unfoldable pub to_endpoint : Endpoint → List Forwarded → List Bytes
to_endpoint dest [] = []
to_endpoint dest (ends ∷ items) = to_endpoint dest items
to_endpoint dest (dropped ∷ items) = to_endpoint dest items
to_endpoint dest (sends body ep ∷ items) =
    if pair_beq ep dest then body ∷ to_endpoint dest items else to_endpoint dest items

-- What arrives at one endpoint.
unfoldable pub addressed : Endpoint → List (Bytes × Endpoint) → List Bytes
addressed here [] = []
addressed here ((body, ep) ∷ packets) =
    if pair_beq ep here then body ∷ addressed here packets else addressed here packets

-- The loop of a rendezvous point at its endpoint `here` takes what `src` gave to its N2R socket for this endpoint; what
-- it sends on to `dest`, and what it has seen. A loop that has ended starts again and has seen nothing.
unfoldable pub relay :
    ForwardCode
    → Map ℕ (Unit {0})
    → Endpoint
    → Endpoint
    → Endpoint
    → List (Bytes × Endpoint)
    → SeenSrcs
    → List Bytes × SeenSrcs
unfolding addressed to_endpoint
relay code havens here src dest packets seen =
    let done =
      forward_turns code (map (λ body. (havens, body, src)) (addressed here packets)) seen in
    (to_endpoint dest done.0, or_else [] done.1)

module _ (prim : Primitives) (code : SessionCode) (rf : ReplayFilter) where
  module _ (coded : IsSessionCode code) (havens : Map ℕ (Unit {0})) (src dest rob : Endpoint) where
    turn_registered :
        (msg : HavenMsg) (seen : SeenSrcs)
        → is_registered havens dest ≡ true
        → forward_turn code.forward havens
            (code.forward.encode_forward (code.encode_msg msg, dest), src)
            seen
          ≡ (
            sends (code.forward.encode_forward (code.encode_msg msg, src)) dest,
            (src, dest) ∷ seen,
          )
    unfolding forward_turn
    turn_registered msg seen there =
        ground (arith, there, coded.decode-encode_forward (code.encode_msg msg) dest)

    -- Messages to a haven that is registered.
    pub relay_registered :
        (msgs : List HavenMsg) (seen : SeenSrcs)
        → is_registered havens dest ≡ true
        → (relay code.forward havens rob src dest (map (packed prim code rf dest rob) msgs) seen).0
          ≡ map (λ msg. code.forward.encode_forward (code.encode_msg msg, src)) msgs
    unfolding relay forward_turns to_endpoint addressed
    relay_registered [] seen there = refl
    relay_registered (msg ∷ msgs) seen there = ground (
      arith,
      turn_registered msg seen there,
      relay_registered msgs ((src, dest) ∷ seen) there,
      pair_beq_iff dest dest,
      pair_beq_iff rob rob,
    )

    -- A first message to a registered haven.
    pub relay_first :
        (msg : HavenMsg)
        → is_registered havens dest ≡ true
        → relay code.forward havens rob src dest (packed prim code rf dest rob msg ∷ []) []
          ≡ (code.forward.encode_forward (code.encode_msg msg, src) ∷ [], (src, dest) ∷ [])
    unfolding relay forward_turns forward_turn to_endpoint addressed
    relay_first msg there = ground (
      arith,
      there,
      coded.decode-encode_forward (code.encode_msg msg) dest,
      pair_beq_iff dest dest,
      pair_beq_iff rob rob,
    )

    -- An answer to a source that was seen, whoever is registered.
    pub relay_answer :
        (msg : HavenMsg)
        → (relay code.forward havens rob src dest
            (packed prim code rf dest rob msg ∷ [])
            ((dest, src) ∷ [])).0
          ≡ code.forward.encode_forward (code.encode_msg msg, src) ∷ []
    unfolding relay forward_turns forward_turn to_endpoint is_seen addressed
    relay_answer msg = ground (
      arith,
      coded.decode-encode_forward (code.encode_msg msg) dest,
      pair_beq_iff dest dest,
      pair_beq_iff rob rob,
      pair_beq_iff src src,
    )

module _ (prim : Primitives) (code : SessionCode) (rf : ReplayFilter)
    (decrypted : Channel (Bytes × Endpoint)) (isk_a isk_b osk_a osk_b rob : ℕ)
    (alice bob : Endpoint) (lookup : Lookup) where
  -- The client queues its bodies and sends its handshake.
  unfoldable pub alice_opens : Bytes → List Bytes → HavenSocket rf decrypted
  alice_opens body bodies =
      session_step prim code rf decrypted (start_task prim code rf osk_a lookup) bob (
        haven_sends prim code rf decrypted (body ∷ bodies) bob
          (bind_haven prim code rf decrypted isk_a none))

  -- The haven takes what the rendezvous point sends on, and answers a handshake with its own.
  unfoldable pub bob_answers : List Bytes → HavenSocket rf decrypted
  bob_answers packets =
      session_step prim code rf decrypted (start_task prim code rf osk_b none) alice (
        recv_turns prim code rf decrypted packets
          (bind_haven prim code rf decrypted isk_b (some rob)))

  -- The client hears the answer and sends its bodies, as many as `n`.
  unfoldable pub alice_talks : ℕ → List Bytes → HavenSocket rf decrypted → HavenSocket rf decrypted
  alice_talks n packets s =
      session_step prim code rf decrypted (transmits prim code rf lookup n) bob (
        session_step prim code rf decrypted (receive prim code rf) bob
          (recv_turns prim code rf decrypted packets (record s { forwarded = [] })))

  -- The haven hears them.
  unfoldable pub bob_hears : ℕ → List Bytes → HavenSocket rf decrypted → HavenSocket rf decrypted
  bob_hears n packets s =
      session_step prim code rf decrypted (receives prim code rf n) alice
        (recv_turns prim code rf decrypted packets s)

  -- The whole, with the rendezvous point between the two; by the time of the haven's answer it may have
  -- forgotten all registrations.
  unfoldable pub conversation : Map ℕ (Unit {0}) → Bytes → List Bytes → HavenSocket rf decrypted
  conversation havens body bodies =
      let here : Endpoint = (rob, haven_forward_dock) in
      let n = length (body ∷ bodies) in
      let opened = alice_opens body bodies in
      let to_bob = relay code.forward havens here alice bob opened.forwarded [] in
      let answered = bob_answers to_bob.0 in
      let to_alice = relay code.forward [] here bob alice answered.forwarded to_bob.1 in
      let talked = alice_talks n to_alice.0 opened in
      let bodies_to_bob = relay code.forward havens here alice bob talked.forwarded to_alice.1 in
      bob_hears n bodies_to_bob.0 answered
