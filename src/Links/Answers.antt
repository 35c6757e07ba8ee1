-- ===== src/Links/Answers.antt =====
-- What `LinkProtocolImpl::adjacencies` answers (src/daemon/link_connection.rs).
use earendil.Base.{
  ℕ, ◌≡◌, ◌&&◌, subst, inl, inr, true, Option, none, some, List, [], ◌∷◌, ◌++◌, arith, Option-cases,
  Bool-cases,
}
use earendil.Topology.Graph.{RelayGraph, AdjacencyDescriptor, adjacencies}
use earendil.Links.Protocol.{
  is_relay, relays_only, adjacencies_of, push_front, dedup, answer_adjacencies, adjacency_beq,
}

-- Both sides of every descriptor are relays on record.
abbrev pub AreRelays : RelayGraph → List AdjacencyDescriptor → Type 0
AreRelays g [] = Unit
AreRelays g (adj ∷ adjs) =
    (is_relay g adj.left ≡ true) × (is_relay g adj.right ≡ true) × AreRelays g adjs

module _ (g : RelayGraph) where
  AreRelays-append :
      (xs ys : List AdjacencyDescriptor) → AreRelays g xs → AreRelays g ys → AreRelays g (xs ++ ys)
  AreRelays-append [] ys p q = q
  AreRelays-append (a ∷ xs) ys (l, r, p) q = (l, r, AreRelays-append xs ys p q)

  push_front-AreRelays :
      (a : AdjacencyDescriptor) (xs : List AdjacencyDescriptor)
      → AreRelays g (a ∷ xs)
      → AreRelays g (push_front a xs)
  push_front-AreRelays a [] p = p
  push_front-AreRelays a (b ∷ xs) (l, r, p) = elim (Bool-cases (adjacency_beq a b)) [
    | inl e ↦ rw e (l, r, p.2)
    | inr e ↦ rw e (l, r, p)
  ]

  dedup-AreRelays : (xs : List AdjacencyDescriptor) → AreRelays g xs → AreRelays g (dedup xs)
  unfolding dedup
  dedup-AreRelays [] p = tt
  dedup-AreRelays (a ∷ xs) (l, r, p) =
      push_front-AreRelays a (dedup xs) (l, r, dedup-AreRelays xs p)

  relays_only-AreRelays :
      (items : List (Option AdjacencyDescriptor)) (xs : List AdjacencyDescriptor)
      → relays_only g items ≡ some xs
      → AreRelays g xs
  unfolding relays_only
  relays_only-AreRelays [] xs h = subst (AreRelays g) {x = []} (ground (arith, h)) tt
  relays_only-AreRelays (none ∷ items) xs h = absurd (cc)
  relays_only-AreRelays (some adj ∷ items) xs h = elim (Option-cases (relays_only g items)) [
    | inl e ↦ absurd (ground (arith, h, e))
    | inr (rest, e) ↦
        let below = relays_only-AreRelays items rest e in
        elim (Bool-cases (is_relay g adj.left && is_relay g adj.right)) [
          | inl f ↦
              subst (AreRelays g) {x = adj ∷ rest} (ground (arith, h, e, f))
                (ground (arith, f), ground (arith, f), below)
          | inr f ↦ subst (AreRelays g) (ground (arith, h, e, f)) below
        ]
  ]

  adjacencies_of-AreRelays :
      (fps : List ℕ) (xs : List AdjacencyDescriptor)
      → adjacencies_of g fps ≡ some xs
      → AreRelays g xs
  unfolding adjacencies_of
  adjacencies_of-AreRelays [] xs h = subst (AreRelays g) {x = []} (ground (arith, h)) tt
  adjacencies_of-AreRelays (fp ∷ fps) xs h = elim (Option-cases (adjacencies g fp)) [
    | inl e ↦ adjacencies_of-AreRelays fps xs (ground (arith, h, e))
    | inr (items, e) ↦ elim (Option-cases (relays_only g items)) [
      | inl f ↦ absurd (ground (arith, h, e, f))
      | inr (here, f) ↦ elim (Option-cases (adjacencies_of g fps)) [
        | inl k ↦ absurd (ground (arith, h, e, f, k))
        | inr (rest, k) ↦ subst (AreRelays g) (ground (arith, h, e, f, k)) (
            AreRelays-append here rest (relays_only-AreRelays items here f)
              (adjacencies_of-AreRelays fps rest k))
      ]
    ]
  ]

  -- A relay tells a peer only of adjacencies between two relays that are on record, whichever nodes the
  -- peer asks about.
  pub answer_adjacencies-AreRelays :
      (fps : List ℕ) (adjs : List AdjacencyDescriptor)
      → answer_adjacencies g fps ≡ some adjs
      → AreRelays g adjs
  unfolding answer_adjacencies
  answer_adjacencies-AreRelays fps adjs h = elim (Option-cases (adjacencies_of g fps)) [
    | inl e ↦ absurd (ground (arith, h, e))
    | inr (xs, e) ↦
        subst (AreRelays g) (ground (arith, h, e))
          (dedup-AreRelays xs (adjacencies_of-AreRelays fps xs e))
  ]
