-- ===== src/Topology/Invariant/Links.antt =====
-- Neighbours and documents under insertion, the second loop of `cleanup`, and its `retain`.
use earendil.Base.{
  ℕ, ◌≡◌, ◌≢◌, refl, inl, inr, true, false, ◌&&◌, ◌||◌, none, List, [], ◌∷◌, arith, Map, get,
  insert, remove, retain, Distinct, get-insert, get-remove, get-retain, retain-Distinct,
  insert-Distinct, remove-Distinct, contains, set_insert, set_remove, contains-set_insert,
  contains-set_remove, nat_eq, pair_eq, nat_beq, nat_beq_iff, if◌then◌else◌, Option-cases,
}
use earendil.Topology.Graph.{
  RelayGraph, AdjacencyDescriptor, neighbors, link, unlink, drop_document, drop_documents,
  is_nonempty,
}
use earendil.Topology.Invariant.{AreLinks, has_document}

-- Neighbours after `link`.
pub contains-link :
    (id neigh a b : ℕ) (m : Map ℕ (List ℕ))
    → contains b (neighbors (link id neigh m) a) ≡ (
        if nat_beq id a
        then (nat_beq neigh b || contains b (neighbors m a))
        else contains b (neighbors m a))
unfolding link neighbors
contains-link id neigh a b m = ground (
  arith,
  get-insert id a (set_insert neigh (neighbors m id)) m,
  contains-set_insert b neigh (neighbors m id),
  nat_beq_iff id a,
)

pub contains-unlink :
    (id neigh a b : ℕ) (m : Map ℕ (List ℕ))
    → contains b (neighbors (unlink id neigh m) a) ≡ (
        if nat_beq id a
        then (if nat_beq neigh b then false else contains b (neighbors m a))
        else contains b (neighbors m a))
unfolding unlink neighbors contains
contains-unlink id neigh a b m = elim (Option-cases (get id m)) [
  | inl e ↦ rw (e, unlink) (ground (arith, nat_beq_iff id a))
  | inr (ids, e) ↦
      rw (e, unlink)
        (ground (
          arith,
          get-insert id a (set_remove neigh ids) m,
          contains-set_remove b neigh ids,
          nat_beq_iff id a,
        ))
]

link-Distinct : (id neigh : ℕ) (m : Map ℕ (List ℕ)) → Distinct m → Distinct (link id neigh m)
unfolding link
link-Distinct id neigh m d = insert-Distinct id _ m d

unlink-Distinct : (id neigh : ℕ) (m : Map ℕ (List ℕ)) → Distinct m → Distinct (unlink id neigh m)
unfolding unlink
unlink-Distinct id neigh m d = elim (Option-cases (get id m)) [
  | inl e ↦ rw (e, unlink) d
  | inr (ids, e) ↦ rw (e, unlink) (insert-Distinct id (set_remove neigh ids) m d)
]

pub has_document-insert :
    (l r a b : ℕ) (doc : AdjacencyDescriptor) (m : Map (ℕ × ℕ) AdjacencyDescriptor)
    → has_document (insert (l, r) doc m) a b ≡ ((nat_beq l a && nat_beq r b) || has_document m a b)
has_document-insert l r a b doc m = ground (arith, get-insert (l, r) (a, b) doc m)

has_document-remove :
    (l r a b : ℕ) (m : Map (ℕ × ℕ) AdjacencyDescriptor)
    → has_document (remove (l, r) m) a b
      ≡ (if nat_beq l a && nat_beq r b then false else has_document m a b)
has_document-remove l r a b m = ground (arith, get-remove (l, r) (a, b) m)

module _ (documents : Map (ℕ × ℕ) AdjacencyDescriptor) (adjacency : Map ℕ (List ℕ)) where
  -- A document between two ids that have none the other way round.
  pub link-AreLinks :
      (l r : ℕ) (doc : AdjacencyDescriptor)
      → l ≢ r
      → has_document documents r l ≡ false
      → AreLinks documents adjacency
      → AreLinks (insert (l, r) doc documents) (link r l (link l r adjacency))
  link-AreLinks l r doc apart free v = record {
    linked = λ a b. ground (
      arith,
      contains-link r l a b (link l r adjacency),
      contains-link l r a b adjacency,
      has_document-insert l r a b doc documents,
      has_document-insert l r b a doc documents,
      v.linked a b,
    );
    oriented = λ a b h. ground (
      arith,
      has_document-insert l r a b doc documents,
      has_document-insert l r b a doc documents,
      v.oriented a b,
      v.oriented b a,
    );
    documents_once = insert-Distinct (l, r) doc documents v.documents_once;
    adjacency_once = link-Distinct r l _ (link-Distinct l r adjacency v.adjacency_once);
  }

  drop-AreLinks :
      (l r : ℕ)
      → AreLinks documents adjacency
      → has_document documents r l ≡ false
      → AreLinks (remove (l, r) documents) (unlink r l (unlink l r adjacency))
  drop-AreLinks l r v free = record {
    linked = λ a b. ground (
      arith,
      contains-unlink r l a b (unlink l r adjacency),
      contains-unlink l r a b adjacency,
      has_document-remove l r a b documents,
      has_document-remove l r b a documents,
      v.linked a b,
    );
    oriented = λ a b h. ground (
      arith,
      has_document-remove l r a b documents,
      has_document-remove l r b a documents,
      v.oriented a b,
    );
    documents_once = remove-Distinct (l, r) documents v.documents_once;
    adjacency_once = unlink-Distinct r l _ (unlink-Distinct l r adjacency v.adjacency_once);
  }

  pub retain-AreLinks :
      AreLinks documents adjacency → AreLinks documents (retain is_nonempty adjacency)
  unfolding neighbors contains
  retain-AreLinks v = record {
    linked =
        λ a b. ground (arith, get-retain is_nonempty a adjacency v.adjacency_once, v.linked a b);
    oriented = v.oriented;
    documents_once = v.documents_once;
    adjacency_once = retain-Distinct is_nonempty adjacency v.adjacency_once;
  }

-- The second loop of `cleanup`, over documents that have none the other way round.
pub drop_documents-AreLinks :
    (keys : List (ℕ × ℕ)) (g : RelayGraph)
    → ((l r : ℕ) → contains (l, r) keys ≡ true → has_document g.documents r l ≡ false)
    → AreLinks g.documents g.adjacency
    → AreLinks (drop_documents g keys).documents (drop_documents g keys).adjacency
unfolding drop_documents drop_document contains
drop_documents-AreLinks [] g free v = v
drop_documents-AreLinks ((l, r) ∷ keys) g free v =
    drop_documents-AreLinks keys (drop_document g (l, r))
      (λ a b h. ground (arith, has_document-remove l r b a g.documents, free a b))
      (drop-AreLinks g.documents g.adjacency l r v (free l r (ground arith)))

-- Besides neighbours it removes those documents, and nothing else.
pub record Drops (keys : List (ℕ × ℕ)) (g h : RelayGraph) : Type 0 where
  pub document_left :
      (k : ℕ × ℕ) → get k h.documents ≡ (if contains k keys then none else get k g.documents)
  pub ids_kept : h.id_to_fp ≡ g.id_to_fp
  pub fps_kept : h.fp_to_id ≡ g.fp_to_id
  pub descriptors_kept : h.id_to_descriptor ≡ g.id_to_descriptor
  pub next_kept : h.unalloc_id ≡ g.unalloc_id

pub drop_documents-Drops :
    (keys : List (ℕ × ℕ)) (g : RelayGraph) → Drops keys g (drop_documents g keys)
unfolding drop_documents drop_document contains
drop_documents-Drops [] g = record {
  document_left = λ k. refl;
  ids_kept = refl;
  fps_kept = refl;
  descriptors_kept = refl;
  next_kept = refl;
}
drop_documents-Drops ((l, r) ∷ keys) g =
    let rest = drop_documents-Drops keys (drop_document g (l, r)) in
    record {
      document_left = λ k. ground (arith, rest.document_left k, get-remove (l, r) k g.documents);
      ids_kept = rest.ids_kept;
      fps_kept = rest.fps_kept;
      descriptors_kept = rest.descriptors_kept;
      next_kept = rest.next_kept;
    }
