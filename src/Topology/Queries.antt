-- ===== src/Topology/Queries.antt =====
-- What `adjacencies` of libraries/earendil_topology/src/lib.rs lists, on a well-formed graph.
use earendil.Base.{
  ℕ, ◌≡◌, sym, ap, ◌∙◌, ◌⊎◌, inl, inr, true, Option, none, some, List, [], ◌∷◌, map, arith, get,
  contains, nat_eq, pair_eq, nat_beq, nat_beq_iff, Bool-cases, Option-cases,
}
use earendil.Crypto.{Primitives}
use earendil.Topology.Graph.{
  RelayGraph, AdjacencyDescriptor, neighbors, id_of, document_between, adjacencies,
}
use earendil.Topology.Invariant.{IsWellFormed, has_document, is_some}

-- A stored document of which a fingerprint is a side.
pub record IsDocumentOf (g : RelayGraph) (fp : ℕ) (doc : AdjacencyDescriptor) : Type 0 where
  pub key : ℕ × ℕ
  pub stored : get key g.documents ≡ some doc
  pub side : (doc.left ≡ fp) ⊎ (doc.right ≡ fp)

-- Every item is a document of the fingerprint; a panic is none.
abbrev pub AreDocumentsOf : RelayGraph → ℕ → List (Option AdjacencyDescriptor) → Type 0
AreDocumentsOf g fp [] = Unit {0}
AreDocumentsOf g fp (none ∷ items) = ⊥
AreDocumentsOf g fp (some doc ∷ items) = IsDocumentOf g fp doc × AreDocumentsOf g fp items

-- A document is among the items.
abbrev pub Lists : AdjacencyDescriptor → List (Option AdjacencyDescriptor) → Type 0
Lists doc [] = ⊥
Lists doc (item ∷ items) = (item ≡ some doc) ⊎ Lists doc items

module _ (prim : Primitives) (g : RelayGraph) (v : IsWellFormed prim g) (fp id : ℕ)
    (known : id_of g fp ≡ some id) where
  -- The document for a neighbour.
  between_neighbor :
      (n : ℕ)
      → contains n (neighbors g.adjacency id) ≡ true
      → (doc : AdjacencyDescriptor) × (document_between g fp id n ≡ some doc)
        × IsDocumentOf g fp doc
  unfolding document_between id_of
  between_neighbor n h = elim (Option-cases (get (id, n) g.documents)) [
    | inr (doc, e) ↦
        let (l, r, lt) = v.sides id n doc e in
        let same : doc.left ≡ fp = ground (arith, l, v.ids.to_fp fp id known) in
        (doc, ground (arith, r, lt, same, e), record { key = (id, n); stored = e; side = inl same })
    | inl gone ↦ elim (Option-cases (get (n, id) g.documents)) [
      | inr (doc, e) ↦
          let (l, r, lt) = v.sides n id doc e in
          let same : doc.right ≡ fp = ground (arith, r, v.ids.to_fp fp id known) in
          (
            doc,
            ground (arith, l, lt, same, e),
            record { key = (n, id); stored = e; side = inr same },
          )
      | inl none_back ↦ absurd (ground (arith, v.links.linked id n))
    ]
  ]

  all_neighbors :
      (ids : List ℕ)
      → ((n : ℕ) → contains n ids ≡ true → contains n (neighbors g.adjacency id) ≡ true)
      → AreDocumentsOf g fp (map (document_between g fp id) ids)
  unfolding contains
  all_neighbors [] h = tt
  all_neighbors (n ∷ ids) h =
      let (doc, e, is) = between_neighbor n (h n (ground (arith, nat_beq_iff n n))) in
      rw e (is, all_neighbors ids (λ m k. h m (ground arith)))

  neighbor_listed :
      (n : ℕ) (doc : AdjacencyDescriptor) (ids : List ℕ)
      → contains n ids ≡ true
      → document_between g fp id n ≡ some doc
      → Lists doc (map (document_between g fp id) ids)
  unfolding contains
  neighbor_listed n doc [] h e = absurd (cc)
  neighbor_listed n doc (m ∷ ids) h e = elim (Bool-cases (nat_beq m n)) [
    | inl same ↦ inl (ap (document_between g fp id) ((nat_beq_iff m n).0 same) ∙ e)
    | inr other ↦ inr (neighbor_listed n doc ids (ground arith) e)
  ]

  -- The neighbour behind a document.
  document_neighbor :
      (doc : AdjacencyDescriptor)
      → IsDocumentOf g fp doc
      → (n : ℕ) × (contains n (neighbors g.adjacency id) ≡ true)
        × (document_between g fp id n ≡ some doc)
  unfolding document_between id_of
  document_neighbor doc is =
      let (l, r) = is.key in
      let (lf, rf, lt) = v.sides l r doc is.stored in
      let stands : has_document g.documents l r ≡ true = ap is_some is.stored in
      elim is.side [
        | inl same ↦
            let at : l ≡ id = ground (arith, v.ids.to_id l doc.left lf, same, known) in
            (
              r,
              ground (arith, at, v.links.linked id r, stands),
              ground (arith, rf, lt, same, at, is.stored),
            )
        | inr same ↦
            let at : r ≡ id = ground (arith, v.ids.to_id r doc.right rf, same, known) in
            (
              l,
              ground (arith, at, v.links.linked id l, stands),
              ground (arith, lf, lt, same, at, is.stored),
            )
      ]

-- What `adjacencies` lists are documents of the fingerprint, without a panic.
pub adjacencies_sound :
    (prim : Primitives) (g : RelayGraph) (fp : ℕ) (items : List (Option AdjacencyDescriptor))
    → IsWellFormed prim g
    → adjacencies g fp ≡ some items
    → AreDocumentsOf g fp items
unfolding adjacencies neighbors
adjacencies_sound prim g fp items v h = elim (Option-cases (id_of g fp)) [
  | inl gone ↦ absurd (ground (arith, gone))
  | inr (id, known) ↦ elim (Option-cases (get id g.adjacency)) [
    | inl gone ↦ absurd (ground (arith, known, gone))
    | inr (ids, e) ↦
        let made : items ≡ map (document_between g fp id) ids = ground (arith, known, e) in
        rw made (all_neighbors prim g v fp id known ids (λ n k. ground (arith, e)))
  ]
]

-- Every document of which the fingerprint is a side is listed.
pub adjacencies_complete :
    (prim : Primitives) (g : RelayGraph) (fp : ℕ) (doc : AdjacencyDescriptor)
    → IsWellFormed prim g
    → IsDocumentOf g fp doc
    → (items : List (Option AdjacencyDescriptor)) × (adjacencies g fp ≡ some items)
      × Lists doc items
unfolding adjacencies neighbors contains id_of
adjacencies_complete prim g fp doc v is =
    let (l, r) = is.key in
    let (lf, rf, lt) = v.sides l r doc is.stored in
    let known : (id : ℕ) × (id_of g fp ≡ some id) = elim is.side [
      | inl same ↦ (l, ap (id_of g) (sym same) ∙ v.ids.to_id l doc.left lf)
      | inr same ↦ (r, ap (id_of g) (sym same) ∙ v.ids.to_id r doc.right rf)
    ] in
    let (n, edge, e) = document_neighbor prim g v fp known.0 known.1 doc is in
    elim (Option-cases (get known.0 g.adjacency)) [
      | inl gone ↦ absurd (ground (arith, gone))
      | inr (ids, f) ↦ (
        map (document_between g fp known.0) ids,
        ground (arith, known.1, f),
        neighbor_listed prim g v fp known.0 known.1 n doc ids (ground (arith, f)) e,
      )
    ]
