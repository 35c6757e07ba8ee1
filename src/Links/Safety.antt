-- ===== src/Links/Safety.antt =====
-- Whatever a neighbour answers, a round of gossip leaves the relay graph well formed.
use earendil.Base.{
  ℕ, ◌+◌, ◌-◌, ◌*◌, ◌^◌, ◌<◌, ◌≤◌, sym, inl, inr, Option, none, some, List, [], ◌∷◌, arith, length,
  ltb, Result-cases, Bool-cases, subst,
}
use earendil.Crypto.{Primitives, fingerprint, public}
use earendil.Topology.Graph.{
  RelayGraph, AdjacencyDescriptor, IdentityDescriptor, StdCode, insert_identity, insert_adjacency,
}
use earendil.Topology.Invariant.{IsWellFormed}
use earendil.Topology.Invariant.Insert.{
  insert_identity-IsWellFormed, insert_adjacency-IsWellFormed, insert_identity_next,
  insert_adjacency_next,
}
use earendil.Daemon.Action.{Action, ◌>>=◌, return, require, run-cases, >>=-ok, >>=-err, >>=-panic}
use earendil.Links.Gossip.{
  GossipError, Peer, rpc_failed, refused_identity, refused_signature, add_identity, add_adjacency,
  add_if_some, fetch_identity, request_signature, sign_with_peer, refresh, take_adjacencies,
  gossip_graph, gossip_once,
}

-- The number of adjacencies in an answer.
unfoldable pub adjacencies_in : Option (List AdjacencyDescriptor) → ℕ
adjacencies_in none = 0
adjacencies_in (some adjs) = length adjs

module _ (prim : Primitives) where
  -- A well-formed graph with room for k ids more.
  abbrev pub HasRoom : ℕ → RelayGraph → Type 0
  HasRoom k g = IsWellFormed prim g × (g.unalloc_id + k < 2 ^ 64)

  -- A step that takes at most i ids.
  abbrev pub Takes {ℓ} : {A : Type ℓ} → ℕ → Action RelayGraph GossipError A → Type 0
  Takes i m = (k : ℕ) (g : RelayGraph) → HasRoom (i + k) g → HasRoom k (m g).1

  >>=-Takes {ℓ κ} :
      {A : Type ℓ} {B : Type κ} (i j : ℕ) (m : Action RelayGraph GossipError A)
      (f : A → Action RelayGraph GossipError B)
      → Takes i m
      → ((a : A) → Takes j (f a))
      → Takes (i + j) (m >>= f)
  >>=-Takes i j m f h next k g room =
      let first : HasRoom (i + (j + k)) g = (room.0, omega (arith, room.1)) in
      let left = h (j + k) g first in
      elim (run-cases m g) [
        | inl (a, t, e) ↦
            subst (λ r. HasRoom k r.1) (sym (>>=-ok m f g t a e))
              (next a k t (subst (λ r. HasRoom (j + k) r.1) e left))
        | inr (inl (x, t, e)) ↦
            subst (λ r. HasRoom k r.1) (sym (>>=-err m f g t x e))
              (fewer j k t (subst (λ r. HasRoom (j + k) r.1) e left))
        | inr (inr (t, e)) ↦
            subst (λ r. HasRoom k r.1) (sym (>>=-panic m f g t e))
              (fewer j k t (subst (λ r. HasRoom (j + k) r.1) e left))
      ]
    where
      fewer : (j k : ℕ) (t : RelayGraph) → HasRoom (j + k) t → HasRoom k t
      fewer j k t (v, room) = (v, omega (arith, room))

  require-Takes {ℓ} : {A : Type ℓ} (o : Option A) (e : GossipError) → Takes 0 (require o e)
  require-Takes none e k g room = (room.0, omega (arith, room.1))
  require-Takes (some a) e k g room = (room.0, omega (arith, room.1))

  nothing-Takes : (i : ℕ) → Takes {A = Unit {0}} i (return tt)
  nothing-Takes i k g room = (room.0, omega (arith, room.1))

  module _ (code : StdCode) (now : ℕ) where
    add_identity-Takes : (d : IdentityDescriptor) → Takes 1 (add_identity prim code now d)
    unfolding add_identity
    add_identity-Takes d k g (v, room) = elim (Result-cases (insert_identity prim code g d)) [
      | inl (h, e) ↦ rw e (
        insert_identity-IsWellFormed prim code g h d (omega (arith, room)) v e,
        omega (arith, room, insert_identity_next prim code g h d e),
      )
      | inr (inl (x, e)) ↦ rw e (v, omega (arith, room))
      | inr (inr e) ↦ rw e (v, omega (arith, room))
    ]

    add_adjacency-Takes : (adj : AdjacencyDescriptor) → Takes 0 (add_adjacency prim code now adj)
    unfolding add_adjacency
    add_adjacency-Takes adj k g (v, room) =
        elim (Result-cases (insert_adjacency prim code now g adj)) [
          | inl (h, e) ↦ rw e (
            insert_adjacency-IsWellFormed prim code now g h adj v e,
            omega (arith, room, insert_adjacency_next prim code now g h adj v e),
          )
          | inr (inl (x, e)) ↦ rw e (v, omega (arith, room))
          | inr (inr e) ↦ rw e (v, omega (arith, room))
        ]

    add_if_some-Takes :
        (answer : Option IdentityDescriptor) → Takes 1 (add_if_some prim code now answer)
    unfolding add_if_some
    add_if_some-Takes none = λ k g room. (room.0, omega (arith, room.1))
    add_if_some-Takes (some d) = add_identity-Takes d

    module _ (peer : Peer) (remote_idpk my_identity : ℕ) where
      refresh-Takes : (n fp : ℕ) → Takes 1 (refresh prim code now peer remote_idpk my_identity n fp)
      unfolding refresh
      refresh-Takes n fp =
          >>=-Takes 0 1 (require (peer.identity n fp) rpc_failed) (add_if_some prim code now)
            (require-Takes (peer.identity n fp) rpc_failed) add_if_some-Takes

      take_adjacencies-Takes :
          (n : ℕ) (adjs : List AdjacencyDescriptor)
          → Takes
              (2 * length adjs)
              (take_adjacencies prim code now peer remote_idpk my_identity n adjs)
      unfolding take_adjacencies
      take_adjacencies-Takes n [] = nothing-Takes 0
      take_adjacencies-Takes n (adj ∷ adjs) = λ k g room.
          (>>=-Takes 1 (1 + (0 + 2 * length adjs)) _ _ (refresh-Takes n adj.left) λ one.
              >>=-Takes 1 (0 + 2 * length adjs) _ _ (refresh-Takes (n + 1) adj.right) λ two.
                >>=-Takes 0 (2 * length adjs) _ _ (add_adjacency-Takes adj)
                  λ three. take_adjacencies-Takes (n + 2) adjs)
            k g (room.0, omega (arith, room.1))

      fetch_identity-Takes : Takes 1 (fetch_identity prim code now peer remote_idpk my_identity)
      unfolding fetch_identity
      fetch_identity-Takes =
          >>=-Takes 0 1 _ _
            (require-Takes (peer.identity 0 (fingerprint prim remote_idpk)) rpc_failed)
            λ answer. >>=-Takes 0 1 _ _ (require-Takes answer refused_identity) add_identity-Takes

      request_signature-Takes :
          Takes 0 (request_signature prim code now peer remote_idpk my_identity)
      unfolding request_signature
      request_signature-Takes =
          >>=-Takes 0 0 _ _ (require-Takes _ rpc_failed)
            λ answer. >>=-Takes 0 0 _ _ (require-Takes answer refused_signature) add_adjacency-Takes

      sign_with_peer-Takes : Takes 0 (sign_with_peer prim code now peer remote_idpk my_identity)
      unfolding sign_with_peer
      sign_with_peer-Takes =
          elim (Bool-cases
            (ltb (fingerprint prim (public prim my_identity)) (fingerprint prim remote_idpk))) [
              | inl e ↦ rw e request_signature-Takes
              | inr e ↦ rw e (nothing-Takes 0)
            ]

      gossip_graph-Takes :
          Takes
            (2 * adjacencies_in peer.adjacencies)
            (gossip_graph prim code now peer remote_idpk my_identity)
      unfolding gossip_graph ◌>>=◌ adjacencies_in
      gossip_graph-Takes = graph peer.adjacencies
        where
          graph :
              (o : Option (List AdjacencyDescriptor))
              → Takes (2 * adjacencies_in o) (
                  require o rpc_failed
                  >>= take_adjacencies prim code now peer remote_idpk my_identity 1)
          graph none = λ k g room. (room.0, omega (arith, room.1))
          graph (some adjs) = take_adjacencies-Takes 1 adjs

      -- A round of gossip with one peer, which may answer every call as it likes or let it fail, leaves a
      -- well-formed relay graph well formed, and it takes at most one numeric identifier for the peer and
      -- two for each adjacency that the peer sends. The numeric identifiers have room for these.
      pub gossip_once-IsWellFormed :
          (g : RelayGraph)
          → IsWellFormed prim g
          → (g.unalloc_id + (1 + 2 * adjacencies_in peer.adjacencies) < 2 ^ 64)
          → IsWellFormed prim (gossip_once prim code now peer remote_idpk my_identity g).1
            × (((gossip_once prim code now peer remote_idpk my_identity g).1).unalloc_id
                ≤ g.unalloc_id + (1 + 2 * adjacencies_in peer.adjacencies))
      unfolding gossip_once
      gossip_once-IsWellFormed g v room =
          let spare = 2 ^ 64 - 1 - (g.unalloc_id + (1 + 2 * adjacencies_in peer.adjacencies)) in
          let (u, left) =
            (>>=-Takes 1 (0 + 2 * adjacencies_in peer.adjacencies) _ _ fetch_identity-Takes λ one.
                >>=-Takes 0 (2 * adjacencies_in peer.adjacencies) _ _ sign_with_peer-Takes
                  λ two. gossip_graph-Takes)
              spare g (v, omega (arith, room)) in
          (u, omega (arith, left, room))
