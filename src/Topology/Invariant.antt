-- ===== src/Topology/Invariant.antt =====
-- When a relay graph is well formed: the four maps of ids, descriptors, neighbours and documents of
-- libraries/earendil_topology/src/lib.rs agree. The children prove that every operation keeps it.
pub mod Ids
pub mod Links
pub mod Cleanup
pub mod Insert
pub mod Records
use earendil.Base.{
  ℕ, ◌<◌, ◌≡◌, Bool, true, false, ◌||◌, List, Option, none, some, Map, get, Distinct, contains,
  nat_eq, pair_eq,
}
use earendil.Crypto.{Primitives, fingerprint}
use earendil.Topology.Graph.{RelayGraph, AdjacencyDescriptor, IdentityDescriptor, neighbors}

abbrev pub is_some {ℓ} : {A : Type ℓ} → Option A → Bool
is_some none = false
is_some (some a) = true

-- A document is there for the ids in this order.
abbrev pub has_document : Map (ℕ × ℕ) AdjacencyDescriptor → ℕ → ℕ → Bool
has_document documents a b = is_some (get (a, b) documents)

-- Fingerprints and ids are in bijection, ids are below the next one, and a descriptor stands under
-- the id of its own key.
pub record AreIds (prim : Primitives) (g : RelayGraph) : Type 0 where
  pub to_fp : (fp id : ℕ) → get fp g.fp_to_id ≡ some id → get id g.id_to_fp ≡ some fp
  pub to_id : (id fp : ℕ) → get id g.id_to_fp ≡ some fp → get fp g.fp_to_id ≡ some id
  pub below : (id fp : ℕ) → get id g.id_to_fp ≡ some fp → id < g.unalloc_id
  pub described :
      (id : ℕ) (d : IdentityDescriptor)
      → get id g.id_to_descriptor ≡ some d
      → get id g.id_to_fp ≡ some (fingerprint prim d.identity_pk)
  pub once : Distinct g.id_to_descriptor

-- Two ids are neighbours of one another exactly if there is a document for them, which stands under
-- one order of the two.
pub record AreLinks (documents : Map (ℕ × ℕ) AdjacencyDescriptor) (adjacency : Map ℕ (List ℕ))
    : Type 0 where
  pub linked :
      (a b : ℕ)
      → contains b (neighbors adjacency a)
        ≡ (has_document documents a b || has_document documents b a)
  pub oriented : (a b : ℕ) → has_document documents a b ≡ true → has_document documents b a ≡ false
  pub documents_once : Distinct documents
  pub adjacency_once : Distinct adjacency

-- The sides of a document are known, under the fingerprints that it names, the smaller one left.
abbrev pub AreSides : RelayGraph → Type 0
AreSides g =
    (l r : ℕ) (doc : AdjacencyDescriptor)
    → get (l, r) g.documents ≡ some doc
    → (get l g.id_to_fp ≡ some doc.left)
      × (get r g.id_to_fp ≡ some doc.right)
      × (doc.left < doc.right)

pub record IsWellFormed (prim : Primitives) (g : RelayGraph) : Type 0 where
  pub ids : AreIds prim g
  pub links : AreLinks g.documents g.adjacency
  pub sides : AreSides g
