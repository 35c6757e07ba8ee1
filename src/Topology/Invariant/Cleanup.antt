-- ===== src/Topology/Invariant/Cleanup.antt =====
-- What `cleanup` removes, and that it leaves a well-formed graph.
use earendil.Base.{
  ℕ, ◌≡◌, ap, ◌∙◌, Bool, not, ◌||◌, none, List, [], ◌∷◌, arith, get, keep_if, Distinct, keys_where,
  contains-keys_where, test_entry, contains, nat_eq, pair_eq, if◌then◌else◌,
}
use earendil.Crypto.{Primitives}
use earendil.Topology.Graph.{
  RelayGraph, AdjacencyDescriptor, IdentityDescriptor, is_outdated, forget_identities,
  drop_documents, outdated_identities, drops, cleanup,
}
use earendil.Topology.Invariant.{AreIds, AreLinks, IsWellFormed, is_some}
use earendil.Topology.Invariant.Ids.{forget_identities-AreIds, forget_identities-Forgets}
use earendil.Topology.Invariant.Links.{
  drop_documents-AreLinks, drop_documents-Drops, retain-AreLinks,
}

-- An identity goes if its descriptor is out of date.
abbrev pub is_forgotten : ℕ → RelayGraph → ℕ → Bool
is_forgotten now g id =
    test_entry (λ (_ : ℕ) (d : IdentityDescriptor). is_outdated now d.unix_timestamp) id
      (get id g.id_to_descriptor)

-- A document goes if it is out of date, or one of its sides goes.
abbrev pub is_dropped : ℕ → RelayGraph → ℕ → ℕ → AdjacencyDescriptor → Bool
is_dropped now g l r doc =
    is_forgotten now g l || is_forgotten now g r || is_outdated now doc.unix_timestamp

pub record Cleans (now : ℕ) (g h : RelayGraph) : Type 0 where
  pub fp_left :
      (j : ℕ) → get j h.id_to_fp ≡ (if is_forgotten now g j then none else get j g.id_to_fp)
  pub descriptor_left :
      (j : ℕ)
      → get j h.id_to_descriptor ≡ (if is_forgotten now g j then none else get j g.id_to_descriptor)
  pub document_left :
      (l r : ℕ)
      → get (l, r) h.documents
        ≡ keep_if (λ doc. not (is_dropped now g l r doc)) (get (l, r) g.documents)
  pub next_kept : h.unalloc_id ≡ g.unalloc_id

drop_documents-AreIds :
    (prim : Primitives) (keys : List (ℕ × ℕ)) (g : RelayGraph)
    → AreIds prim g
    → AreIds prim (drop_documents g keys)
unfolding drop_documents
drop_documents-AreIds prim [] g v = v
drop_documents-AreIds prim (key ∷ keys) g v = drop_documents-AreIds prim keys _ (record {
  to_fp = v.to_fp;
  to_id = v.to_id;
  below = v.below;
  described = v.described;
  once = v.once;
})

module _ (now : ℕ) (g : RelayGraph) where
  forgotten :
      (j : ℕ) (prim : Primitives)
      → AreIds prim g
      → contains j (outdated_identities now g) ≡ is_forgotten now g j
  unfolding outdated_identities
  forgotten j prim v =
      contains-keys_where (λ id d. is_outdated now d.unix_timestamp) j g.id_to_descriptor v.once

  abbrev known : RelayGraph
  known = forget_identities g (outdated_identities now g)

  abbrev swept_keys : List (ℕ × ℕ)
  swept_keys = keys_where (drops now (outdated_identities now g)) known.documents

  known_once : (prim : Primitives) → IsWellFormed prim g → Distinct known.documents
  known_once prim v =
      rw (forget_identities-Forgets (outdated_identities now g) g).documents_kept
        v.links.documents_once

  -- The documents that `cleanup` collects.
  swept :
      (prim : Primitives) (l r : ℕ)
      → IsWellFormed prim g
      → contains (l, r) swept_keys
        ≡ is_some (keep_if (is_dropped now g l r) (get (l, r) g.documents))
  swept prim l r v =
      let left = forget_identities-Forgets (outdated_identities now g) g in
      ground (
        arith,
        contains-keys_where (drops now (outdated_identities now g)) (l, r) known.documents
            (known_once prim v),
        left.documents_kept,
        forgotten l prim v.ids,
        forgotten r prim v.ids,
      )

  -- `cleanup` removes what is out of date, and of the rest only documents of sides that it removed.
  pub cleanup-Cleans : (prim : Primitives) → IsWellFormed prim g → Cleans now g (cleanup now g)
  unfolding cleanup
  cleanup-Cleans prim v =
      let ids = forget_identities-Forgets (outdated_identities now g) g in
      let docs = drop_documents-Drops swept_keys known in
      record {
        fp_left = λ j.
            ap (get j) docs.ids_kept
            ∙ ids.fp_left j
            ∙ ap (λ b. if b then none else get j g.id_to_fp) (forgotten j prim v.ids);
        descriptor_left = λ j.
            ap (get j) docs.descriptors_kept
            ∙ ids.descriptor_left j
            ∙ ap (λ b. if b then none else get j g.id_to_descriptor) (forgotten j prim v.ids);
        document_left =
            λ l r. ground (arith, docs.document_left (l, r), swept prim l r v, ids.documents_kept);
        next_kept = docs.next_kept ∙ ids.next_kept;
      }

  cleanup-AreIds : (prim : Primitives) → IsWellFormed prim g → AreIds prim (cleanup now g)
  unfolding cleanup
  cleanup-AreIds prim v =
      let kept =
        drop_documents-AreIds prim swept_keys known
          (forget_identities-AreIds prim (outdated_identities now g) g v.ids) in
      record {
        to_fp = kept.to_fp;
        to_id = kept.to_id;
        below = kept.below;
        described = kept.described;
        once = kept.once;
      }

  cleanup-AreLinks :
      (prim : Primitives)
      → IsWellFormed prim g
      → AreLinks (cleanup now g).documents (cleanup now g).adjacency
  unfolding cleanup
  cleanup-AreLinks prim v =
      let ids = forget_identities-Forgets (outdated_identities now g) g in
      retain-AreLinks (drop_documents known swept_keys).documents
        (drop_documents known swept_keys).adjacency
        (drop_documents-AreLinks swept_keys known
          (λ l r h. ground (arith, swept prim l r v, v.links.oriented l r, ids.documents_kept))
          (rw (ids.documents_kept, ids.adjacency_kept) v.links))

  -- `cleanup` keeps a graph well formed.
  pub cleanup-IsWellFormed :
      (prim : Primitives) → IsWellFormed prim g → IsWellFormed prim (cleanup now g)
  cleanup-IsWellFormed prim v =
      let cleans = cleanup-Cleans prim v in
      record {
        ids = cleanup-AreIds prim v;
        links = cleanup-AreLinks prim v;
        sides = λ l r doc h.
            ground (
              arith,
              cleans.fp_left l,
              cleans.fp_left r,
              cleans.document_left l r,
              v.sides l r doc,
            );
      }
