-- ===== src/Daemon/Send/Delivers.antt =====
-- What `send_n2r` of src/daemon/context.rs comes to for a sender under the daemon's own identity: the
-- packet that it injects leads along a shortest route to the destination.
use native.Mathlib.Decide.{dec_le}
use earendil.Base.{
  ℕ, ◌+◌, ◌≡◌, ◌≤◌, refl, sym, ap, ◌∙◌, ◌⊎◌, inl, inr, false, none, some, List, map, arith, length,
  length-map, replicate, length-replicate, nat_eq, nat_beq_iff, Result, ok, err, Option-cases,
  subst,
}
use earendil.Crypto.{Bytes, Primitives, IsLawful, fingerprint, public}
use earendil.Packet.Types.{
  RawPacket, ForwardInstruction, InnerPacket, PacketConstructError, PeeledPacket, IsCodec,
}
use earendil.Packet.Crypt.{onion_public}
use earendil.Packet.Raw.{new_normal}
use earendil.Packet.Raw.Build.{instruct}
use earendil.Packet.Raw.Onion.{secrets, nexts, peel_along}
use earendil.Packet.Raw.Layers.{Hop}
use earendil.Packet.Delivery.{peel_along-new_normal, new_outcome}
use earendil.Topology.Graph.{RelayGraph, IdentityDescriptor, identity}
use earendil.Topology.Invariant.{IsWellFormed}
use earendil.Topology.Search.{Outcome, find_shortest_path}
use earendil.Topology.Search.Correct.{IsAnswer, find_shortest_path-IsAnswer}
use earendil.Daemon.Action.{◌>>=◌, >>=-ok, read}
use earendil.Daemon.Neighbors.{inject_asif_incoming}
use earendil.Daemon.ReplyBlocks.{store_pop}
use earendil.Daemon.State.{
  World, State, SendMessageError, no_route, packet_construct_error, no_onion_public,
}
use earendil.Daemon.Send.{
  route_to_instructs, route_between, onion_key_of, is_anon, draw, my_fingerprint, inject,
  build_normal, pop_anon_dest, send_by_route, send_n2r,
}
use earendil.Daemon.Send.Routes.{
  hops_of, RelaysKnown, last_of-Route, route_to_instructs_lem, hops_of-AreFingerprints,
}

-- A route that no other is shorter than.
abbrev pub IsShortest : RelayGraph → ℕ → ℕ → List ℕ → Type 0
IsShortest g a b fps = IsAnswer g a b (Outcome.found fps)

IsAnswer-cases :
    (g : RelayGraph) (a b : ℕ) (o : Outcome)
    → IsAnswer g a b o
    → ((fps : List ℕ) × (o ≡ Outcome.found fps) × IsShortest g a b fps)
      ⊎ ((o ≡ Outcome.no_path) × IsAnswer g a b Outcome.no_path)
IsAnswer-cases g a b (Outcome.found fps) h = inl (fps, refl, h)
IsAnswer-cases g a b Outcome.no_path h = inr (refl, h)
IsAnswer-cases g a b Outcome.out_of_fuel h = absurd h
IsAnswer-cases g a b Outcome.panicked h = absurd h

pub route_between_lem :
    (prim : Primitives) (g : RelayGraph) (a b dst : ℕ)
    → IsWellFormed prim g
    → ((fps : List ℕ) × (route_between g a b dst ≡ ok fps) × IsShortest g a b fps)
      ⊎ ((route_between g a b dst ≡ err (no_route dst)) × IsAnswer g a b Outcome.no_path)
unfolding route_between
route_between_lem prim g a b dst v =
    elim (IsAnswer-cases g a b (find_shortest_path g a b)
      (find_shortest_path-IsAnswer prim g a b v)) [
        | inl (fps, e, h) ↦ inl (fps, rw (e, route_between) refl, h)
        | inr (e, h) ↦ inr (rw (e, route_between) refl, h)
      ]

module _ (world : World) (isk dst : ℕ) (inner : InnerPacket) (s : State world) where
  abbrev me : ℕ
  me = my_fingerprint world s

  abbrev g : RelayGraph
  g = s.relay_graph

  no_route_lem :
      route_between g me dst dst ≡ err (no_route dst)
      → send_by_route world false isk dst inner s ≡ (err (no_route dst), s)
  unfolding send_by_route ◌>>=◌
  no_route_lem e = rw e refl

  no_relay_key_lem :
      (fps : List ℕ) (e : SendMessageError)
      → route_between g me dst dst ≡ ok fps
      → route_to_instructs fps g ≡ err e
      → send_by_route world false isk dst inner s ≡ (err e, s)
  unfolding send_by_route ◌>>=◌
  no_relay_key_lem fps e r i = rw (r, i) refl

  no_key_lem :
      (fps : List ℕ) (is : List ForwardInstruction)
      → route_between g me dst dst ≡ ok fps
      → route_to_instructs fps g ≡ ok is
      → onion_key_of g dst ≡ err (no_onion_public dst)
      → send_by_route world false isk dst inner s ≡ (err (no_onion_public dst), s)
  unfolding send_by_route ◌>>=◌
  no_key_lem fps is r i k = rw (r, i, k) refl

  -- The state once a packet was drawn for, and once it is injected.
  abbrev drawn_once : State world
  drawn_once = record s { drawn = s.drawn + 1 }

  abbrev pub injected : RawPacket → State world
  injected pkt = record drawn_once {
    neigh_table = inject_asif_incoming world.packets pkt s.neigh_table;
  }

  construct_lem :
      (fps : List ℕ) (is : List ForwardInstruction) (opk : ℕ)
      (r : Result PacketConstructError RawPacket)
      → route_between g me dst dst ≡ ok fps
      → route_to_instructs fps g ≡ ok is
      → onion_key_of g dst ≡ ok opk
      → new_normal world.prim world.codec is opk inner isk
          (world.draws s.drawn).eph
          (world.draws s.drawn).garbage
        ≡ r
      → ((e : PacketConstructError)
          → r ≡ err e
          → send_by_route world false isk dst inner s
            ≡ (err (packet_construct_error e), drawn_once))
        × ((pkt : RawPacket)
            → r ≡ ok pkt
            → send_by_route world false isk dst inner s ≡ (ok tt, injected pkt))
  unfolding send_by_route build_normal draw inject ◌>>=◌
  construct_lem fps is opk res r i k n =
      (λ e h. rw (r, i, k, n ∙ h) refl, λ pkt h. rw (r, i, k, n ∙ h) refl)

onion_key_of_lem :
    (g : RelayGraph) (fp : ℕ)
    → ((identity g fp ≡ none) × (onion_key_of g fp ≡ err (no_onion_public fp)))
      ⊎ ((d : IdentityDescriptor) × (identity g fp ≡ some d) × (onion_key_of g fp ≡ ok d.onion_pk))
unfolding onion_key_of
onion_key_of_lem g fp = elim (Option-cases (identity g fp)) [
  | inl e ↦ inl (e, rw (e, onion_key_of) refl)
  | inr (d, e) ↦ inr (d, e, rw (e, onion_key_of) refl)
]

abbrev pub payload : ℕ → ℕ → List Bytes → InnerPacket
payload src_dock dst_dock content =
    InnerPacket.message (record { source_dock = src_dock; dest_dock = dst_dock; body = content })

module _ (world : World) (isk src_dock dst dst_dock : ℕ) (content : List Bytes)
    (s : State world) where
  popped_none : world.lru.peek dst s.anon_dests ≡ none → pop_anon_dest world dst s ≡ (ok none, s)
  unfolding pop_anon_dest store_pop
  popped_none unseen = ground (arith, unseen)

  -- With no reply block for the destination, the daemon's own messages go by a route.
  by_route :
      world.lru.peek dst s.anon_dests ≡ none
      → is_anon world isk s ≡ false
      → send_n2r world isk src_dock dst dst_dock content s
        ≡ send_by_route world false isk dst (payload src_dock dst_dock content) s
  unfolding send_n2r
  by_route unseen own =
      >>=-ok (read (is_anon world isk)) _ s s false (ap (λ b. (ok b, s)) own)
      ∙ >>=-ok (pop_anon_dest world dst) _ s s none (popped_none unseen)

  own_identity : isk ≡ s.global_identity → is_anon world isk s ≡ false
  unfolding is_anon
  own_identity own = ground (arith, own, nat_beq_iff isk s.global_identity)

module _ (world : World) (sk : ℕ → ℕ) where
  -- The onion keys in the graph are those of the secrets `sk`.
  abbrev pub AreKeys : RelayGraph → Type 0
  AreKeys graph =
      (fp : ℕ) (d : IdentityDescriptor)
      → identity graph fp ≡ some d
      → d.onion_pk ≡ onion_public world.prim (sk fp)

  -- A packet that the relays of a route peel up to the destination, which receives a payload.
  abbrev pub Leads : RawPacket → List ℕ → ℕ → ℕ → InnerPacket → Type 0
  Leads pkt fps dst isk inner =
      peel_along world.prim world.codec pkt (secrets (hops_of sk fps)) (sk dst)
      ≡ ok (
        nexts (hops_of sk fps),
        PeeledPacket.received (fingerprint world.prim (public world.prim isk)) inner,
      )

  -- What becomes of a message of the daemon's own: it is refused for one of three reasons, or the packet
  -- leads along a shortest route.
  abbrev pub IsOutcome :
      ℕ → InnerPacket → State world → Result SendMessageError (Unit {0}) × State world → Type 0
  IsOutcome dst inner s r =
      ((r ≡ (err (no_route dst), s))
        × IsAnswer s.relay_graph (my_fingerprint world s) dst Outcome.no_path)
      ⊎ ((fp : ℕ) × (r ≡ (err (no_onion_public fp), s)) × (identity s.relay_graph fp ≡ none))
      ⊎ ((fps : List ℕ) × IsShortest s.relay_graph (my_fingerprint world s) dst fps
          × (((10 ≤ length (hops_of sk fps))
                × (r.0 ≡ err (packet_construct_error PacketConstructError.too_many_hops)))
              ⊎ ((pkt : RawPacket) × (r ≡ (ok tt, injected world s.global_identity dst inner s pkt))
                  × Leads pkt fps dst s.global_identity inner)))

module _ (world : World) (lawful : IsLawful world.prim) (coded : IsCodec world.codec)
    (noise : (n : ℕ) → length (world.draws n).garbage ≡ 621) (sk : ℕ → ℕ) where
  too_long :
      (hops : List Hop) (opk : ℕ) (inner : InnerPacket) (isk n : ℕ)
      → 10 ≤ length hops
      → new_normal world.prim world.codec
          (map (instruct world.prim world.codec) hops)
          opk
          inner
          isk
          (world.draws n).eph
          (world.draws n).garbage
        ≡ err PacketConstructError.too_many_hops
  unfolding new_normal
  too_long hops opk inner isk n long =
      let route = map (instruct world.prim world.codec) hops in
      let size = length-map hops (instruct world.prim world.codec) in
      elim (new_outcome world.prim world.codec lawful coded (replicate 20 0)
        (length-replicate {A = ℕ} 20 0) inner isk (world.draws n).eph (world.draws n).garbage opk
        route) [
          | inl (_, e) ↦ rw e refl
          | inr (inl (short, _, e)) ↦ absurd (omega (arith, size))
          | inr (inr (short, _, r, e)) ↦ absurd (omega (arith, size))
        ]

  -- What is left once the route and the keys along it are known.
  by_known_route :
      (dst : ℕ) (p : InnerPacket) (s : State world) (fps : List ℕ) (d : IdentityDescriptor)
      → IsWellFormed world.prim s.relay_graph
      → AreKeys world sk s.relay_graph
      → length (world.codec.serialize p) ≤ 8172
      → IsShortest s.relay_graph (my_fingerprint world s) dst fps
      → route_between s.relay_graph (my_fingerprint world s) dst dst ≡ ok fps
      → route_to_instructs fps s.relay_graph
        ≡ ok (map (instruct world.prim world.codec) (hops_of sk fps))
      → RelaysKnown s.relay_graph fps
      → identity s.relay_graph dst ≡ some d
      → onion_key_of s.relay_graph dst ≡ ok d.onion_pk
      → ((10 ≤ length (hops_of sk fps))
          × ((send_by_route world false s.global_identity dst p s).0
              ≡ err (packet_construct_error PacketConstructError.too_many_hops)))
        ⊎ ((pkt : RawPacket) × (send_by_route world false s.global_identity dst p s
              ≡ (ok tt, injected world s.global_identity dst p s pkt))
            × Leads world sk pkt fps dst s.global_identity p)
  by_known_route dst p s fps d v keys fits short e f known there k =
      let isk = s.global_identity in
      let g = s.relay_graph in
      let start_fp = my_fingerprint world s in
      elim (dec_le 10 (length (hops_of sk fps))) [
        | yes long ↦
            let n = too_long (hops_of sk fps) d.onion_pk p isk s.drawn long in
            let (errs, oks) = construct_lem world isk dst p s fps _ d.onion_pk _ e f k n in
            inl (long, ap (λ r. r.0) (errs PacketConstructError.too_many_hops refl))
        | no few ↦
            let named =
              hops_of-AreFingerprints world.prim world.codec sk g keys lawful v fps dst d known
                (last_of-Route g start_fp dst fps short.0) there in
            let (pkt, made, leads) =
              peel_along-new_normal world.prim world.codec lawful coded (hops_of sk fps)
                (omega arith) named (world.draws s.drawn).eph (world.draws s.drawn).garbage
                (noise s.drawn) (sk dst) p isk fits in
            let made_for : new_normal world.prim world.codec
                  (map (instruct world.prim world.codec) (hops_of sk fps)) d.onion_pk p isk
                  (world.draws s.drawn).eph (world.draws s.drawn).garbage
                ≡ ok pkt =
              subst
                (λ key.
                  new_normal world.prim world.codec
                    (map (instruct world.prim world.codec) (hops_of sk fps)) key p isk
                    (world.draws s.drawn).eph (world.draws s.drawn).garbage
                  ≡ ok pkt)
                (sym (keys dst d there)) made in
            let (errs, oks) = construct_lem world isk dst p s fps _ d.onion_pk _ e f k made_for in
            inr (pkt, oks pkt refl, leads)
      ]

  -- A message of at most 8172 encoded bytes, sent under the daemon's own identity to a destination that
  -- gave it no reply block, on a well-formed graph with known onion keys: it is refused for want of a
  -- route only if there is none, for want of an onion key only if one is missing, and as too long a
  -- route only if a shortest route has ten hops and more; otherwise the packet that is injected is
  -- peeled along a shortest route up to the destination, which receives the message.
  pub send_n2r-IsOutcome :
      (src_dock dst dst_dock : ℕ) (content : List Bytes) (s : State world)
      → IsWellFormed world.prim s.relay_graph
      → AreKeys world sk s.relay_graph
      → world.lru.peek dst s.anon_dests ≡ none
      → length (world.codec.serialize (payload src_dock dst_dock content)) ≤ 8172
      → IsOutcome world sk dst
          (payload src_dock dst_dock content)
          s
          (send_n2r world s.global_identity src_dock dst dst_dock content s)
  send_n2r-IsOutcome src_dock dst dst_dock content s v keys unseen fits =
      let isk = s.global_identity in
      let p = payload src_dock dst_dock content in
      let g = s.relay_graph in
      let start_fp = my_fingerprint world s in
      subst (IsOutcome world sk dst p s)
        (sym (
          by_route world isk src_dock dst dst_dock content s unseen
            (own_identity world isk src_dock dst dst_dock content s refl)))
        (elim (route_between_lem world.prim g start_fp dst dst v) [
          | inr (e, none_there) ↦ inl (no_route_lem world isk dst p s e, none_there)
          | inl (fps, e, short) ↦
              elim (route_to_instructs_lem world.prim world.codec sk g keys fps) [
                | inl (fp, gone, f) ↦ inr (
                    inl (fp, no_relay_key_lem world isk dst p s fps (no_onion_public fp) e f, gone))
                | inr (f, known) ↦ elim (onion_key_of_lem g dst) [
                  | inl (gone, k) ↦ inr (inl (dst, no_key_lem world isk dst p s fps _ e f k, gone))
                  | inr (d, there, k) ↦ inr (
                      inr (
                        fps,
                        short,
                        by_known_route dst p s fps d v keys fits short e f known there k,
                      ))
                ]
              ]
        ])
