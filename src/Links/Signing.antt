-- ===== src/Links/Signing.antt =====
-- Two neighbours that sign an adjacency between them: the left side asks (src/daemon/gossip.rs), the right
-- side answers (src/daemon/link_connection.rs).
use earendil.Base.{
  ℕ, ◌≡◌, ◌<◌, ◌&&◌, sym, inl, inr, Bool, true, Option, none, some, arith, ltb, nat_beq,
  nat_beq_iff, subst, ok, Result-cases, Bool-cases,
}
use earendil.Crypto.{Bytes, Primitives, IsLawful, fingerprint, public, sign, verify-sign}
use earendil.Topology.Graph.{
  RelayGraph, AdjacencyDescriptor, IdentityDescriptor, StdCode, identity, adjacency_to_sign,
  verify_adjacency, record_adjacency, insert_adjacency, cleanup,
}
use earendil.Topology.Invariant.{IsWellFormed}
use earendil.Topology.Invariant.Insert.{verify_adjacency_iff}
use earendil.Topology.Invariant.Records.{Records, record_adjacency-Records}
use earendil.Links.Protocol.{new_auth, verify_auth, sign_adjacency}
use earendil.Links.Gossip.{left_incomplete}

module _ (prim : Primitives) where
  -- What a peer sends to authenticate is accepted by the neighbour whose link key it was made for.
  pub verify_auth-new_auth :
      IsLawful prim
      → (my_identity : ℕ) (my_pk : Bytes)
      → verify_auth prim (new_auth prim my_identity my_pk) my_pk ≡ ok tt
  unfolding verify_auth new_auth
  verify_auth-new_auth lawful my_identity my_pk = verify-sign prim lawful my_identity _

  module _ (code : StdCode) where
    -- The graph has the identity of this secret key.
    abbrev pub Knows : RelayGraph → ℕ → Type 0
    Knows g sk =
        (d : IdentityDescriptor) × (identity g (fingerprint prim (public prim sk)) ≡ some d)
        × (d.identity_pk ≡ public prim sk)

    -- The descriptor with the signature of its right side.
    abbrev pub completed : ℕ → AdjacencyDescriptor → AdjacencyDescriptor
    completed sk adj = record adj { right_sig = sign prim sk (adjacency_to_sign prim code adj) }

    -- What a relay signs: it is the right side, the left side is smaller and a neighbour of it, and the
    -- completed descriptor verifies.
    abbrev pub MaySign : ℕ → (ℕ → Bool) → RelayGraph → AdjacencyDescriptor → Type 0
    MaySign sk is_neighbor g adj =
        (adj.left < adj.right)
        × (adj.right ≡ fingerprint prim (public prim sk))
        × (is_neighbor adj.left ≡ true)
        × (verify_adjacency prim code g (completed sk adj) ≡ ok tt)

    pub data IsAnswer (now sk : ℕ) (is_neighbor : ℕ → Bool) (g : RelayGraph)
        (adj : AdjacencyDescriptor) : Option AdjacencyDescriptor → RelayGraph → Type 0 where
      signed :
          MaySign sk is_neighbor g adj
          → (h : RelayGraph) → Records prim code now g (completed sk adj) h
          → IsAnswer now sk is_neighbor g adj (some (completed sk adj)) h
      refused : ¬ MaySign sk is_neighbor g adj → IsAnswer now sk is_neighbor g adj none g

    abbrev valid : ℕ → (ℕ → Bool) → AdjacencyDescriptor → Bool
    valid sk is_neighbor adj =
        ltb adj.left adj.right
        && nat_beq adj.right (fingerprint prim (public prim sk))
        && is_neighbor adj.left

    -- A relay with a well-formed graph answers `sign_adjacency` with the completed descriptor if it is the right
    -- side, the left side is smaller and a neighbour of it, and both signatures verify under the identities on
    -- record. Its graph has then this descriptor between the ids of the sides, unless a side or the descriptor is
    -- out of date, and is otherwise the old one without what is out of date. Else it refuses, and its graph is as
    -- before.
    pub sign_adjacency-IsAnswer :
        (now sk : ℕ) (is_neighbor : ℕ → Bool) (g : RelayGraph) (adj : AdjacencyDescriptor)
        → IsWellFormed prim g
        → IsAnswer now sk is_neighbor g adj
            (sign_adjacency prim code now sk is_neighbor g adj).0
            (sign_adjacency prim code now sk is_neighbor g adj).1
    unfolding sign_adjacency insert_adjacency
    sign_adjacency-IsAnswer now sk is_neighbor g adj v =
        let c = completed sk adj in
        let fp_is = nat_beq_iff adj.right (fingerprint prim (public prim sk)) in
        elim (Bool-cases (valid sk is_neighbor adj)) [
          | inr e ↦
              subst Holds (sym (ground (arith, e))) (refused λ may. ground (arith, e, may, fp_is))
          | inl e ↦ elim (Result-cases (verify_adjacency prim code g c)) [
            | inl (u, f) ↦ subst Holds (sym (ground (arith, e, f))) (
                signed (ground (arith, e, f, fp_is)) _
                  (record_adjacency-Records prim code now g c v f))
            | inr (inl (x, f)) ↦ subst Holds (sym (ground (arith, e, f))) (refused λ may. cc)
            | inr (inr f) ↦ subst Holds (sym (ground (arith, e, f))) (refused λ may. cc)
          ]
        ]
      where
        Holds : Option AdjacencyDescriptor × RelayGraph → Type 0
        Holds r = IsAnswer now sk is_neighbor g adj r.0 r.1

    -- What both have signed verifies where both are known.
    completed_verifies :
        IsLawful prim
        → (now left_sk right_sk : ℕ) (g : RelayGraph)
        → (fingerprint prim (public prim left_sk) < fingerprint prim (public prim right_sk))
        → Knows g left_sk
        → Knows g right_sk
        → verify_adjacency prim code g
            (completed right_sk (left_incomplete prim code now (public prim right_sk) left_sk))
          ≡ ok tt
    unfolding left_incomplete adjacency_to_sign
    completed_verifies lawful now left_sk right_sk g lt (l, le, lk) (r, re, rk) =
        (verify_adjacency_iff prim code g _).1 (
          lt,
          l,
          r,
          le,
          re,
          rw lk (verify-sign prim lawful left_sk _),
          rw rk (verify-sign prim lawful right_sk _),
        )

    -- The two sides agree: if the left side knows both identities, and the right side knows both and has the
    -- left side as a neighbour, and the left fingerprint is the smaller, then the right side completes what
    -- the left side signs first, and the left side accepts it.
    pub two_sides_sign :
        IsLawful prim
        → (now later left_sk right_sk : ℕ) (is_neighbor : ℕ → Bool) (g h : RelayGraph)
        → (fingerprint prim (public prim left_sk) < fingerprint prim (public prim right_sk))
        → is_neighbor (fingerprint prim (public prim left_sk)) ≡ true
        → Knows g left_sk
        → Knows g right_sk
        → Knows h left_sk
        → Knows h right_sk
        → let adj = left_incomplete prim code now (public prim right_sk) left_sk in
          ((sign_adjacency prim code later right_sk is_neighbor h adj).0
            ≡ some (completed right_sk adj))
          × (insert_adjacency prim code now g (completed right_sk adj)
              ≡ ok (cleanup now (record_adjacency prim code g (completed right_sk adj))))
    unfolding left_incomplete sign_adjacency insert_adjacency
    two_sides_sign lawful now later left_sk right_sk is_neighbor g h lt is there_gl there_gr
          there_hl there_hr =
        let right_fp = fingerprint prim (public prim right_sk) in
        let e = completed_verifies lawful now left_sk right_sk g lt there_gl there_gr in
        let f = completed_verifies lawful now left_sk right_sk h lt there_hl there_hr in
        (ground (arith, f, is, lt, nat_beq_iff right_fp right_fp), ground (arith, e))
