-- ===== src/Topology/Graph.antt =====
-- The descriptors and `RelayGraph` of libraries/earendil_topology/src/lib.rs. The clock is an
-- argument, `now`, in seconds. A hash set is a list without order, see `Base.Lists`.
use earendil.Base.{
  ℕ, ◌+◌, ◌-◌, ◌%◌, ◌^◌, Bool, true, false, not, ◌||◌, Option, none, some, List, [], ◌∷◌, map,
  if◌then◌else◌, ltb, leb, Map, get, insert, remove, keys_where, retain, contains, nat_eq, pair_eq,
  set_insert, set_remove, Result, ok, err, ◌>>=◌, is_ok,
}
use earendil.Crypto.{Bytes, Primitives, VerifyError, ascii, verify, fingerprint, public, sign}
use earendil.Packet.Crypt.{onion_public}

pub record AdjacencyDescriptor : Type 0 where
  pub left : ℕ
  pub right : ℕ
  pub left_sig : Bytes
  pub right_sig : Bytes
  pub unix_timestamp : ℕ

pub record IdentityDescriptor : Type 0 where
  pub is_relay : Bool
  pub identity_pk : ℕ
  pub onion_pk : ℕ
  pub sig : Bytes
  pub unix_timestamp : ℕ

pub data AdjacencyError : Type 0 where
  left_not_smaller_than_right left_identity_not_found right_identity_not_found : AdjacencyError
  invalid_signatures : AdjacencyError

-- stdcode's bytes of a descriptor.
pub record StdCode : Type 0 where
  pub adjacency : AdjacencyDescriptor → Bytes
  pub identity : IdentityDescriptor → Bytes

pub record RelayGraph : Type 0 where
  pub unalloc_id : ℕ
  pub fp_to_id : Map ℕ ℕ
  pub id_to_fp : Map ℕ ℕ
  pub id_to_descriptor : Map ℕ IdentityDescriptor
  pub adjacency : Map ℕ (List ℕ)
  pub documents : Map (ℕ × ℕ) AdjacencyDescriptor

unfoldable pub new : RelayGraph
new = record {
  unalloc_id = 0;
  fp_to_id = [];
  id_to_fp = [];
  id_to_descriptor = [];
  adjacency = [];
  documents = [];
}

-- `now - timestamp` of two u64, which wraps in a release build.
unfoldable pub sub_u64 : ℕ → ℕ → ℕ
sub_u64 a b = (a + 2 ^ 64 - b) % 2 ^ 64

abbrev pub route_timeout : ℕ
route_timeout = 3600

unfoldable pub is_outdated : ℕ → ℕ → Bool
unfolding sub_u64
is_outdated now timestamp = ltb route_timeout (sub_u64 now timestamp)

unfoldable pub id_of : RelayGraph → ℕ → Option ℕ
id_of g fp = get fp g.fp_to_id

unfoldable pub alloc_id : RelayGraph → ℕ → RelayGraph × ℕ
alloc_id g fp = elim (get fp g.fp_to_id) [
  | some val ↦ (g, val)
  | none ↦ (
    record g {
      unalloc_id = (g.unalloc_id + 1) % 2 ^ 64;
      fp_to_id = insert fp g.unalloc_id g.fp_to_id;
      id_to_fp = insert g.unalloc_id fp g.id_to_fp;
    },
    g.unalloc_id,
  )
]

-- RelayGraph::identity
unfoldable pub identity : RelayGraph → ℕ → Option IdentityDescriptor
unfolding id_of
identity g fp = elim (id_of g fp) [ none ↦ none | some id ↦ get id g.id_to_descriptor ]

-- The neighbours of an id, none if it has no entry.
unfoldable pub neighbors : Map ℕ (List ℕ) → ℕ → List ℕ
neighbors adjacency id = elim (get id adjacency) [ none ↦ [] | some ids ↦ ids ]

-- entry(id).or_default().insert(neigh)
unfoldable pub link : ℕ → ℕ → Map ℕ (List ℕ) → Map ℕ (List ℕ)
unfolding neighbors
link id neigh adjacency = insert id (set_insert neigh (neighbors adjacency id)) adjacency

-- if let Some(neighbors) = get_mut(&id) { neighbors.remove(&neigh) }
unfoldable pub unlink : ℕ → ℕ → Map ℕ (List ℕ) → Map ℕ (List ℕ)
unlink id neigh adjacency = elim (get id adjacency) [
  | none ↦ adjacency
  | some ids ↦ insert id (set_remove neigh ids) adjacency
]

-- The first loop of `cleanup`.
unfoldable pub forget_identity : RelayGraph → ℕ → RelayGraph
forget_identity g id = elim (get id g.id_to_fp) [
  | none ↦ record g {
    id_to_descriptor = remove id g.id_to_descriptor;
    id_to_fp = remove id g.id_to_fp;
  }
  | some fp ↦ record g {
    id_to_descriptor = remove id g.id_to_descriptor;
    id_to_fp = remove id g.id_to_fp;
    fp_to_id = remove fp g.fp_to_id;
  }
]

unfoldable pub forget_identities : RelayGraph → List ℕ → RelayGraph
unfolding forget_identity
forget_identities g [] = g
forget_identities g (id ∷ ids) = forget_identities (forget_identity g id) ids

-- The second loop of `cleanup`.
unfoldable pub drop_document : RelayGraph → ℕ × ℕ → RelayGraph
unfolding unlink
drop_document g (left_id, right_id) = record g {
  documents = remove (left_id, right_id) g.documents;
  adjacency = unlink right_id left_id (unlink left_id right_id g.adjacency);
}

unfoldable pub drop_documents : RelayGraph → List (ℕ × ℕ) → RelayGraph
unfolding drop_document
drop_documents g [] = g
drop_documents g (key ∷ keys) = drop_documents (drop_document g key) keys

abbrev pub is_nonempty : List ℕ → Bool
is_nonempty [] = false
is_nonempty (x ∷ xs) = true

unfoldable pub outdated_identities : ℕ → RelayGraph → List ℕ
unfolding is_outdated
outdated_identities now g =
    keys_where (λ id descriptor. is_outdated now descriptor.unix_timestamp) g.id_to_descriptor

abbrev pub drops : ℕ → List ℕ → ℕ × ℕ → AdjacencyDescriptor → Bool
drops now ids key descriptor =
    contains key.0 ids || contains key.1 ids || is_outdated now descriptor.unix_timestamp

unfoldable pub cleanup : ℕ → RelayGraph → RelayGraph
unfolding forget_identities drop_documents outdated_identities is_outdated
cleanup now g =
    let ids = outdated_identities now g in
    let known = forget_identities g ids in
    let swept = drop_documents known (keys_where (drops now ids) known.documents) in
    record swept { adjacency = retain is_nonempty swept.adjacency }

module _ (prim : Primitives) (code : StdCode) where
  -- AdjacencyDescriptor::to_sign
  unfoldable pub adjacency_to_sign : AdjacencyDescriptor → Bytes
  adjacency_to_sign self =
      prim.keyed_hash (ascii "adjacency_descriptor____________")
        (code.adjacency (record self { left_sig = []; right_sig = [] }))

  -- IdentityDescriptor::to_sign
  unfoldable pub identity_to_sign : IdentityDescriptor → Bytes
  identity_to_sign self =
      prim.keyed_hash (ascii "identity_descriptor_____________")
        (code.identity (record self { sig = [] }))

  -- IdentityDescriptor::new
  unfoldable pub new_identity : ℕ → ℕ → Bool → ℕ → IdentityDescriptor
  unfolding identity_to_sign
  new_identity my_identity my_onion is_relay now =
      let descr : IdentityDescriptor = record {
        is_relay = is_relay;
        identity_pk = public prim my_identity;
        onion_pk = onion_public prim my_onion;
        sig = [];
        unix_timestamp = now;
      } in
      record descr { sig = sign prim my_identity (identity_to_sign descr) }

  unfoldable pub insert_identity : RelayGraph → IdentityDescriptor → Result VerifyError RelayGraph
  insert_identity g descr = do
    _ ← verify prim descr.identity_pk (identity_to_sign descr) descr.sig
    let allocated = alloc_id g (fingerprint prim descr.identity_pk)
    ok (record (allocated.0) {
      id_to_descriptor = insert allocated.1 descr (allocated.0).id_to_descriptor;
    })

  unfoldable pub verify_adjacency :
      RelayGraph → AdjacencyDescriptor → Result AdjacencyError (Unit {0})
  verify_adjacency g adj =
      if leb adj.right adj.left
      then err left_not_smaller_than_right
      else elim (identity g adj.left) [
        | none ↦ err left_identity_not_found
        | some left ↦ elim (identity g adj.right) [
          | none ↦ err right_identity_not_found
          | some right ↦
              let to_sign = adjacency_to_sign adj in
              let left_valid = is_ok (verify prim left.identity_pk to_sign adj.left_sig) in
              let right_valid = is_ok (verify prim right.identity_pk to_sign adj.right_sig) in
              if not left_valid || not right_valid then err invalid_signatures else ok tt
        ]
      ]

  -- What `insert_adjacency` does once the descriptor is verified.
  unfoldable pub record_adjacency : RelayGraph → AdjacencyDescriptor → RelayGraph
  record_adjacency g adj =
      let left = alloc_id g adj.left in
      let right = alloc_id left.0 adj.right in
      record (right.0) {
        documents = insert (left.1, right.1) adj (right.0).documents;
        adjacency = link right.1 left.1 (link left.1 right.1 (right.0).adjacency);
      }

  unfoldable pub insert_adjacency :
      ℕ → RelayGraph → AdjacencyDescriptor → Result AdjacencyError RelayGraph
  insert_adjacency now g adj = do
    _ ← verify_adjacency g adj
    ok (cleanup now (record_adjacency g adj))

-- `documents[&key]` behind the order of the fingerprints; `none` is a panic.
unfoldable pub document_between : RelayGraph → ℕ → ℕ → ℕ → Option AdjacencyDescriptor
document_between g fp id neigh_id = elim (get neigh_id g.id_to_fp) [
  | none ↦ none
  | some neigh ↦
      if ltb fp neigh then get (id, neigh_id) g.documents else get (neigh_id, id) g.documents
]

-- RelayGraph::adjacencies: the outer `none` is its own, an inner `none` is a panic of the iterator.
unfoldable pub adjacencies : RelayGraph → ℕ → Option (List (Option AdjacencyDescriptor))
unfolding id_of document_between
adjacencies g fp = elim (id_of g fp) [
  | none ↦ none
  | some id ↦ elim (get id g.adjacency) [
    | none ↦ none
    | some ids ↦ some (map (document_between g fp id) ids)
  ]
]

-- RelayGraph::all_adjacencies
unfoldable pub all_adjacencies : RelayGraph → List AdjacencyDescriptor
all_adjacencies g = map (λ e. e.1) g.documents

-- RelayGraph::all_nodes
unfoldable pub all_nodes : RelayGraph → List ℕ
all_nodes g = map (λ e. e.0) g.fp_to_id
