-- ===== src/Daemon/Peel/Gone.antt =====
-- Once its degarbler is taken, an identifier has none again unless it is drawn again, whatever packets the daemon
-- handles: src/daemon/peel_forward.rs and what it calls.
use earendil.Base.{
  ℕ, zero, suc, ◌≤◌, subst, ◌≡◌, ◌≢◌, sym, ap, ◌∙◌, inl, inr, Bool, true, false, none, List, arith,
  get, insert, remove, get-insert, get-remove, nat_eq, pair_eq, nat_beq_iff, ok, map_err,
  Option-cases, map_err-eq-ok, >>=-eq-ok,
}
use earendil.Crypto.{Bytes, fingerprint, public}
use earendil.Packet.Types.{
  RawPacket, ForwardInstruction, ReplyBlock, ReplyDegarbler, InnerPacket, Message, PeeledPacket,
}
use earendil.Packet.Raw.{new}
use earendil.Packet.Reply.{new_block, placeholder, reply_metadata}
use earendil.Daemon.Action.{
  Action, ◌>>=◌, return, lift, Stays, >>=-Stays, >>=-Stays_of, or_fail-Stays, >>=-ok, >>=-err,
}
use earendil.Daemon.State.{World, State, Draws, Endpoint, SendMessageError, reply_block_failed}
use earendil.Daemon.Send.{
  draw, anon_osk, make_blocks, build_normal, inject, send_reply_blocks, set_balance, rb_balance,
  decrement_rrb_balance, refill, refill_loop, replenish_rrb, below, missing, balance_of,
}
use earendil.Daemon.Neighbors.{lookup}
use earendil.Daemon.Peel.{
  no_degarbler, peel_error, decode_error, send_error, deliver, process_inner_pkt, take_degarbler,
  forward, receive_reply, dispatch, handle,
}

module _ (world : World) (id since : ℕ) where
  -- The identifier has no degarbler, and the draws from this one on are to come.
  abbrev pub IsGone : State world → Type 0
  IsGone s = (since ≤ s.drawn) × (get id s.degarblers ≡ none)

  anon_osk-Stays : (isk : ℕ) → Stays IsGone (anon_osk world isk)
  unfolding anon_osk
  anon_osk-Stays isk s (p, q) =
      elim (Option-cases (get (fingerprint world.prim (public world.prim isk)) s.onion_sk_cache)) [
        | inl e ↦ rw (anon_osk, e) (omega (arith, p), q)
        | inr (osk, e) ↦ rw (anon_osk, e) (p, q)
      ]

  draw-Stays : Stays IsGone (draw world)
  unfolding draw
  draw-Stays s (p, q) = (omega (arith, p), q)

  build_normal-Stays :
      (route : List ForwardInstruction) (opk : ℕ) (inner : InnerPacket) (isk : ℕ)
      → Stays IsGone (build_normal world route opk inner isk)
  unfolding build_normal
  build_normal-Stays route opk inner isk = >>=-Stays IsGone _ _ draw-Stays λ drawn s p. p

  rb_balance-Stays : (isk dst : ℕ) → Stays IsGone (rb_balance world isk dst)
  unfolding rb_balance set_balance
  rb_balance-Stays isk dst s p = p

  deliver-Stays :
      (dest : Endpoint) (m : Message) (src : ℕ) → Stays IsGone (deliver world dest m src)
  unfolding deliver
  deliver-Stays dest m src s p = elim (Option-cases (get dest s.socket_recv_queues)) [
    | inl e ↦ rw (deliver, e) p
    | inr (q, e) ↦ elim (Option-cases (world.messages.try_send (m, src) q)) [
      | inl f ↦ rw (deliver, e, f) p
      | inr (r, f) ↦ rw (deliver, e, f) p
    ]
  ]

  process_inner_pkt-Stays :
      (inner : InnerPacket) (src dest : ℕ) → Stays IsGone (process_inner_pkt world inner src dest)
  unfolding process_inner_pkt
  process_inner_pkt-Stays (InnerPacket.message m) src dest = deliver-Stays (dest, m.dest_dock) m src
  process_inner_pkt-Stays (InnerPacket.reply_blocks rbs) src dest = λ s p. p

  -- A block that is made carries the identifier that was drawn for it.
  made_id :
      (route : List ForwardInstruction) (opk osk isk n : ℕ) (eph : ℕ → ℕ) (garbage : Bytes)
      (built : ReplyBlock × (ℕ × ReplyDegarbler)) (s t : State world)
      → lift
          (map_err
            (λ _. reply_block_failed)
            (new_block world.prim world.codec route opk osk isk n eph garbage))
          s
        ≡ (ok built, t)
      → (built.1).0 ≡ n
  unfolding new_block
  made_id route opk osk isk n eph garbage built s t h =
      let made =
        map_err-eq-ok (λ _. reply_block_failed)
          (new_block world.prim world.codec route opk osk isk n eph garbage) built
          (ap (λ r. r.0) h) in
      let (mid, _, last) =
        >>=-eq-ok
          (new world.prim world.codec route opk (placeholder world.prim world.codec)
            (reply_metadata world.prim world.codec n) isk eph garbage)
          _ made in
      ground (arith, last)

  drawn_eq : (s t : State world) (d : Draws) → draw world s ≡ (ok d, t) → d ≡ world.draws s.drawn
  unfolding draw
  drawn_eq s t d h = ground (arith, h)

  module _ (other : (n : ℕ) → since ≤ n → (world.draws n).id ≢ id) where
    -- A degarbler under another identifier.
    insert-Stays :
        (built : ReplyBlock × (ℕ × ReplyDegarbler))
        → (built.1).0 ≢ id
        → (s : State world) → IsGone s
        → get id (insert (built.1).0 (built.1).1 s.degarblers) ≡ none
    insert-Stays built h s (p, q) = ground (
      arith,
      h,
      q,
      get-insert (built.1).0 id (built.1).1 s.degarblers,
      nat_beq_iff (built.1).0 id,
    )

    make_blocks-Stays :
        (n : ℕ) (route : List ForwardInstruction) (osk isk : ℕ)
        → Stays IsGone (make_blocks world n route osk isk)
    unfolding make_blocks
    make_blocks-Stays zero route osk isk = λ s p. p
    make_blocks-Stays (suc n) route osk isk =
        >>=-Stays_of IsGone _ _ draw-Stays λ s drawn t p e left.
          >>=-Stays IsGone _ _ (λ r q. q)
            (λ my_opk.
              >>=-Stays_of IsGone _ _ (λ r q. q)
                λ r built u q f here.
                  >>=-Stays IsGone _ _
                    (λ x y. (
                      y.0,
                      insert-Stays built
                          (λ same. other s.drawn p.0 (
                            ap (λ d. d.id) (sym (drawn_eq s t drawn e))
                            ∙ sym (
                                made_id route my_opk osk isk drawn.id drawn.eph drawn.garbage built
                                  r u f)
                            ∙ same))
                          x y,
                    ))
                    (λ done. >>=-Stays IsGone _ _ (make_blocks-Stays n route osk isk) λ rbs x y. y)
                    u here)
            t left

    send_reply_blocks-Stays : (n isk dst : ℕ) → Stays IsGone (send_reply_blocks world n isk dst)
    unfolding send_reply_blocks inject
    send_reply_blocks-Stays n isk dst = >>=-Stays IsGone _ _ (anon_osk-Stays isk) λ osk.
        >>=-Stays IsGone _ _ (λ s p. p)
          λ me.
            >>=-Stays IsGone _ _ (λ s p. p)
              λ graph.
                >>=-Stays IsGone _ _ (λ s p. p)
                  λ route.
                    >>=-Stays IsGone _ _ (λ s p. p)
                      λ opk.
                        >>=-Stays IsGone _ _ (λ s p. p)
                          λ instructs.
                            >>=-Stays IsGone _ _ (λ s p. p)
                              λ reverse_route.
                                >>=-Stays IsGone _ _ (λ s p. p)
                                  λ reverse_instructs.
                                    >>=-Stays IsGone _ _
                                      (make_blocks-Stays n reverse_instructs osk isk)
                                      λ rbs.
                                        >>=-Stays IsGone _ _
                                          (build_normal-Stays instructs opk
                                            (InnerPacket.reply_blocks rbs) isk)
                                          λ onion s p. p

    refill-Stays : (isk dst : ℕ) → Stays IsGone (refill world isk dst)
    unfolding refill set_balance
    refill-Stays isk dst =
        >>=-Stays IsGone _ _ (send_reply_blocks-Stays 10 isk dst)
          λ sent. >>=-Stays IsGone _ _ (rb_balance-Stays isk dst) λ balance s p. p

    abbrev branch :
        Action (State world) SendMessageError (Unit {0})
        → Bool
        → Action (State world) SendMessageError (Unit {0})
    branch more short = elim short [ false ↦ return tt | true ↦ more ]

    branch-Stays :
        (more : Action (State world) SendMessageError (Unit {0})) (short : Bool)
        → Stays IsGone more
        → Stays IsGone (branch more short)
    branch-Stays more true h = h
    branch-Stays more false h = λ s p. p

    refill_loop-Stays : (fuel isk dst : ℕ) → Stays IsGone (refill_loop world fuel isk dst)
    unfolding refill_loop
    refill_loop-Stays zero isk dst = λ s p. p
    refill_loop-Stays (suc fuel) isk dst =
        >>=-Stays IsGone _ _ (rb_balance-Stays isk dst) λ balance.
          branch-Stays (refill world isk dst >>= λ _. refill_loop world fuel isk dst)
            (below balance)
            (>>=-Stays IsGone _ _ (refill-Stays isk dst) λ done. refill_loop-Stays fuel isk dst)

    replenish_rrb-Stays : (isk dst : ℕ) → Stays IsGone (replenish_rrb world isk dst)
    unfolding replenish_rrb
    replenish_rrb-Stays isk dst s =
        refill_loop-Stays (suc (missing (balance_of world isk dst s))) isk dst s

    decrement-Stays : (isk dst : ℕ) → Stays IsGone (decrement_rrb_balance world isk dst)
    unfolding decrement_rrb_balance set_balance
    decrement-Stays isk dst = >>=-Stays IsGone _ _ (rb_balance-Stays isk dst) λ balance s p. p

    -- A reply under any identifier, from any state whose degarbler for this one goes first.
    pub receive_reply_takes :
        (j : ℕ) (pkt : Bytes) (s : State world)
        → since ≤ s.drawn
        → get id (remove j s.degarblers) ≡ none
        → (get j s.degarblers ≡ none → get id s.degarblers ≡ none)
        → IsGone (receive_reply world j pkt s).1
    unfolding receive_reply take_degarbler
    receive_reply_takes j pkt s p left none_yet = elim (Option-cases (get j s.degarblers)) [
      | inl gone ↦
          subst (λ r. IsGone r.1)
            (sym (>>=-err (take_degarbler world j) _ s s (no_degarbler j) (ground (arith, gone))))
            (p, none_yet gone)
      | inr (d, e) ↦
          let t : State world = record s { degarblers = remove j s.degarblers } in
          subst (λ r. IsGone r.1)
            (sym (>>=-ok (take_degarbler world j) _ s t d (ground (arith, e))))
            (>>=-Stays IsGone _ _ (or_fail-Stays IsGone decode_error _ (λ u q. q))
              (λ opened.
                >>=-Stays IsGone _ _
                  (or_fail-Stays IsGone send_error _ (decrement-Stays d.my_anon_isk opened.1))
                  λ done.
                    >>=-Stays IsGone _ _
                      (or_fail-Stays IsGone send_error _
                        (replenish_rrb-Stays d.my_anon_isk opened.1))
                      λ done.
                        process_inner_pkt-Stays opened.0 opened.1
                          (fingerprint world.prim (public world.prim d.my_anon_isk)))
              t (p, left))
    ]

    receive_reply-Stays : (j : ℕ) (pkt : Bytes) → Stays IsGone (receive_reply world j pkt)
    receive_reply-Stays j pkt s (p, q) =
        receive_reply_takes j pkt s p (ground (arith, q, get-remove j id s.degarblers)) (λ e. q)

    forward-Stays : (next_hop : ℕ) (inner : RawPacket) → Stays IsGone (forward world next_hop inner)
    unfolding forward
    forward-Stays next_hop inner s p =
        elim (Option-cases (lookup world.packets next_hop s.neigh_table)) [
          | inl e ↦ rw (forward, e) p
          | inr (conn, e) ↦ rw (forward, e) p
        ]

    dispatch-Stays : (peeled : PeeledPacket) → Stays IsGone (dispatch world peeled)
    unfolding dispatch
    dispatch-Stays (PeeledPacket.forward next_hop inner) = forward-Stays next_hop inner
    dispatch-Stays (PeeledPacket.received src_fp inner) =
        >>=-Stays IsGone _ _ (λ s p. p) λ me. process_inner_pkt-Stays inner src_fp me
    dispatch-Stays (PeeledPacket.garbled_reply j pkt) = receive_reply-Stays j pkt

    -- Whatever packet the daemon handles.
    pub handle-Stays : (pkt : RawPacket) → Stays IsGone (handle world pkt)
    unfolding handle
    handle-Stays pkt =
        >>=-Stays IsGone _ _ (λ s p. p)
          λ our_sk.
            >>=-Stays IsGone _ _ (or_fail-Stays IsGone peel_error _ (λ s p. p)) dispatch-Stays
