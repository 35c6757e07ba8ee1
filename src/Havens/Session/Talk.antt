-- ===== src/Havens/Session/Talk.antt =====
-- Bodies that one end of an established session sends, in their order to the other end.
use earendil.Base.{
  ℕ, zero, suc, ◌+◌, ◌%◌, ◌^◌, ◌≡◌, ◌<◌, refl, sym, ap, ◌∙◌, true, List, [], ◌∷◌, ◌++◌, map, arith,
  length, nat_beq_iff, ok,
}
use mathlib.Core.List.{append-nil, append_assoc}
use earendil.Crypto.{Bytes, Primitives, IsLawful}
use earendil.Daemon.State.{Endpoint}
use earendil.Daemon.Action.{>>=-ok}
use earendil.Havens.Session.{
  HavenMsg, SessionCode, ReplayFilter, running, Session, Lookup, rendezvous_ep, send_to_rendezvous,
  up_turn, become, transmit, settle,
}
use earendil.Havens.Session.Streams.{
  IsReplayFilter, receives, sealed, receive-sealed, after_receiving, session_eq,
}

module _ (prim : Primitives) (code : SessionCode) (rf : ReplayFilter) where
  -- Bodies sealed one after the other.
  unfoldable pub sealed_from : Bytes → ℕ → List Bytes → List HavenMsg
  sealed_from key n [] = []
  sealed_from key n (body ∷ bodies) = sealed prim key n body ∷ sealed_from key (n + 1) bodies

  unfoldable pub filter_after : rf.Filter → ℕ → List Bytes → rf.Filter
  filter_after f n [] = f
  filter_after f n (body ∷ bodies) = filter_after (rf.add n f).1 (n + 1) bodies

  -- `transmit` as often as there are bodies, with what the lookups come to.
  unfoldable pub transmits : Lookup → ℕ → Session rf → Session rf
  transmits lookup zero s = s
  transmits lookup (suc n) s = transmits lookup n (transmit prim code rf lookup s)

  -- A message as it goes to the rendezvous point.
  abbrev pub packed : Endpoint → Endpoint → HavenMsg → Bytes × Endpoint
  packed remote ep msg = (code.forward.encode_forward (code.encode_msg msg, remote), ep)

  abbrev pub after_sending :
      Session rf → Bytes → Bytes → ℕ → rf.Filter → List Bytes → List (Bytes × Endpoint) → Session rf
  after_sending s ek dk nonce seen outgoing outbox = record s {
    phase = running ek dk nonce seen;
    recv_outgoing = outgoing;
    outbox = outbox;
  }

  pub send_to_rendezvous_ok :
      (lookup : Lookup) (ep : Endpoint) (msg : HavenMsg) (s : Session rf)
      → rendezvous_ep prim code rf lookup s.rendezvous_fp ≡ ok ep
      → send_to_rendezvous prim code rf lookup msg s
        ≡ (ok tt, record s { outbox = s.outbox ++ packed s.remote ep msg ∷ [] })
  unfolding send_to_rendezvous
  send_to_rendezvous_ok lookup ep msg s e = rw (send_to_rendezvous, e) refl

  transmit_one :
      (lookup : Lookup) (ep : Endpoint) (s : Session rf) (ek dk : Bytes) (nonce : ℕ)
      (seen : rf.Filter) (body : Bytes) (rest : List Bytes)
      → rendezvous_ep prim code rf lookup s.rendezvous_fp ≡ ok ep
      → nonce + 1 < 2 ^ 64
      → s.phase ≡ running ek dk nonce seen
      → s.recv_outgoing ≡ body ∷ rest
      → transmit prim code rf lookup s
        ≡ after_sending s ek dk
            (nonce + 1)
            seen
            rest
            (s.outbox ++ packed s.remote ep (sealed prim ek nonce body) ∷ [])
  unfolding transmit up_turn become
  transmit_one lookup ep s ek dk nonce seen body rest e small p q =
      let next : (nonce + 1) % 2 ^ 64 ≡ nonce + 1 = omega (arith, small) in
      let popped : Session rf = record s { recv_outgoing = rest } in
      let msg = sealed prim ek nonce body in
      rw (q, p)
        (ap (settle prim code rf) (
            >>=-ok (send_to_rendezvous prim code rf lookup msg) _ popped _ tt
              (send_to_rendezvous_ok lookup ep msg popped e))
          ∙ ap (λ n. after_sending s ek dk n seen rest (s.outbox ++ packed s.remote ep msg ∷ []))
              next)

  pub transmits_lem :
      (lookup : Lookup) (ep : Endpoint) (bodies : List Bytes) (s : Session rf) (ek dk : Bytes)
      (nonce : ℕ) (seen : rf.Filter)
      → rendezvous_ep prim code rf lookup s.rendezvous_fp ≡ ok ep
      → nonce + length bodies < 2 ^ 64
      → s.phase ≡ running ek dk nonce seen
      → s.recv_outgoing ≡ bodies
      → (last : ℕ) × (transmits lookup (length bodies) s
          ≡ after_sending s ek dk last seen []
              (s.outbox ++ map (packed s.remote ep) (sealed_from ek nonce bodies)))
  unfolding transmits sealed_from
  transmits_lem lookup ep [] s ek dk nonce seen e small p q = (
    nonce,
    λ i. record s { phase = p i; recv_outgoing = q i; outbox = sym (append-nil s.outbox) i },
  )
  transmits_lem lookup ep (body ∷ bodies) s ek dk nonce seen e small p q =
      let (last, later) =
        transmits_lem lookup ep bodies
          (after_sending s ek dk (nonce + 1) seen bodies
            (s.outbox ++ packed s.remote ep (sealed prim ek nonce body) ∷ []))
          ek dk (nonce + 1) seen e (omega (arith, small)) refl refl in
      (
        last,
        ap (transmits lookup (length bodies))
              (transmit_one lookup ep s ek dk nonce seen body bodies e (omega (arith, small)) p q)
            ∙ later
            ∙ ap (after_sending s ek dk last seen [])
                (append_assoc s.outbox (packed s.remote ep (sealed prim ek nonce body) ∷ []) _),
      )

  module _ (lawful : IsLawful prim) where
    pub receives_in_order :
        (filter : IsReplayFilter rf) (bodies : List Bytes) (s : Session rf) (ek dk : Bytes)
        (nonce n : ℕ) (seen : rf.Filter)
        → ((m : ℕ) → filter.was_added seen m ≡ true → m < n)
        → s.phase ≡ running ek dk nonce seen
        → s.recv_incoming ≡ sealed_from dk n bodies
        → receives prim code rf (length bodies) s
          ≡ after_receiving s ek dk nonce
              (filter_after seen n bodies)
              (s.inbox ++ map (λ body. (body, s.remote)) bodies)
    unfolding receives sealed_from filter_after
    receives_in_order filter [] s ek dk nonce n seen below p q =
        session_eq s ek dk nonce seen (s.inbox ++ []) p q (sym (append-nil s.inbox))
    receives_in_order filter (body ∷ bodies) s ek dk nonce n seen below p q =
        let new : (rf.add n seen).0 ≡ true = filter.add_newest n seen below in
        ap (receives prim code rf (length bodies)) (
          receive-sealed prim lawful code rf s ek dk nonce seen n body
            (sealed_from dk (n + 1) bodies) p q)
        ∙ receives_in_order filter bodies _ ek dk nonce (n + 1) (rf.add n seen).1
            (λ m h. ground (arith, h, new, filter.was_added-add m n seen, below m, nat_beq_iff n m))
            refl refl
        ∙ rw new (
            ap (after_receiving s ek dk nonce (filter_after (rf.add n seen).1 (n + 1) bodies))
              (append_assoc s.inbox ((body, s.remote) ∷ []) _))
