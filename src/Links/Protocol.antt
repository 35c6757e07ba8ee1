-- ===== src/Links/Protocol.antt =====
-- src/daemon/link_protocol.rs, and the answers of `LinkProtocolImpl` in src/daemon/link_connection.rs.
use earendil.Base.{
  ℕ, Bool, true, false, not, ◌&&◌, Option, none, some, List, [], ◌∷◌, ◌++◌, ltb, nat_beq,
  if◌then◌else◌, Result, ok, err, panic,
}
use earendil.Crypto.{Bytes, Primitives, VerifyError, ascii, verify, fingerprint, public, sign}
use earendil.Packet.Raw.{bytes_beq}
use earendil.Topology.Graph.{
  RelayGraph, AdjacencyDescriptor, StdCode, identity, adjacencies, adjacency_to_sign,
  insert_adjacency,
}

pub record AuthResponse : Type 0 where
  pub full_pk : ℕ
  pub binding_sig : Bytes

-- MAGIC_VALUE
unfoldable pub magic_value : Bytes
magic_value = ascii "n2n_auth________________________"

abbrev pub ok_some {ℓ} : {A : Type ℓ} → Option A → Bool
ok_some none = false
ok_some (some a) = true

-- Two descriptors are equal.
unfoldable pub adjacency_beq : AdjacencyDescriptor → AdjacencyDescriptor → Bool
unfolding bytes_beq
adjacency_beq a b =
    nat_beq a.left b.left
    && nat_beq a.right b.right
    && bytes_beq a.left_sig b.left_sig
    && bytes_beq a.right_sig b.right_sig
    && nat_beq a.unix_timestamp b.unix_timestamp

-- Iterator::dedup of itertools: of equal neighbours the first is kept.
abbrev pub push_front : AdjacencyDescriptor → List AdjacencyDescriptor → List AdjacencyDescriptor
push_front a [] = a ∷ []
push_front a (b ∷ rest) = if adjacency_beq a b then a ∷ rest else a ∷ b ∷ rest

unfoldable pub dedup : List AdjacencyDescriptor → List AdjacencyDescriptor
unfolding adjacency_beq
dedup [] = []
dedup (a ∷ rest) = push_front a (dedup rest)

module _ (prim : Primitives) where
  -- AuthResponse::new
  unfoldable pub new_auth : ℕ → Bytes → AuthResponse
  new_auth my_identity my_pk = record {
    full_pk = public prim my_identity;
    binding_sig = sign prim my_identity (prim.keyed_hash magic_value my_pk);
  }

  -- AuthResponse::verify
  unfoldable pub verify_auth : AuthResponse → Bytes → Result VerifyError (Unit {0})
  verify_auth self peer_pk =
      verify prim self.full_pk (prim.keyed_hash magic_value peer_pk) self.binding_sig

module _ (prim : Primitives) (code : StdCode) where
  -- LinkProtocolImpl::sign_adjacency: the answer, and the graph after it. `is_neighbor` asks the table of
  -- neighbours.
  unfoldable pub sign_adjacency :
      ℕ
      → ℕ
      → (ℕ → Bool)
      → RelayGraph
      → AdjacencyDescriptor
      → Option AdjacencyDescriptor × RelayGraph
  sign_adjacency now my_identity is_neighbor g left_incomplete =
      let valid =
        ltb left_incomplete.left left_incomplete.right
        && nat_beq left_incomplete.right (fingerprint prim (public prim my_identity))
        && is_neighbor left_incomplete.left in
      let complete = record left_incomplete {
        right_sig = sign prim my_identity (adjacency_to_sign prim code left_incomplete);
      } in
      if not valid then (none, g) else elim (insert_adjacency prim code now g complete) [
        | ok h ↦ (some complete, h)
        | err e ↦ (none, g)
        | panic ↦ (none, g)
      ]

-- Both sides are relays on record.
unfoldable pub is_relay : RelayGraph → ℕ → Bool
is_relay g fp = elim (identity g fp) [ none ↦ false | some descr ↦ descr.is_relay ]

-- The filter of `adjacencies`; an inner `none` is a panic and ends the answer.
unfoldable pub relays_only :
    RelayGraph → List (Option AdjacencyDescriptor) → Option (List AdjacencyDescriptor)
unfolding is_relay
relays_only g [] = some []
relays_only g (none ∷ items) = none
relays_only g (some adj ∷ items) = elim (relays_only g items) [
  | none ↦ none
  | some rest ↦ if is_relay g adj.left && is_relay g adj.right then some (adj ∷ rest) else some rest
]

-- The flat_map of `adjacencies`.
unfoldable pub adjacencies_of : RelayGraph → List ℕ → Option (List AdjacencyDescriptor)
unfolding relays_only
adjacencies_of g [] = some []
adjacencies_of g (fp ∷ fps) = elim (adjacencies g fp) [
  | none ↦ adjacencies_of g fps
  | some items ↦ elim (relays_only g items) [
    | none ↦ none
    | some here ↦ elim (adjacencies_of g fps) [ none ↦ none | some rest ↦ some (here ++ rest) ]
  ]
]

-- LinkProtocolImpl::adjacencies; `none` is a panic.
unfoldable pub answer_adjacencies : RelayGraph → List ℕ → Option (List AdjacencyDescriptor)
unfolding adjacencies_of dedup
answer_adjacencies g fps = elim (adjacencies_of g fps) [
  | none ↦ none
  | some adjs ↦ some (dedup adjs)
]
