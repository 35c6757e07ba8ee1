-- ===== src/Topology/Invariant/Records.antt =====
-- What a verified adjacency descriptor leaves in the graph of libraries/earendil_topology/src/lib.rs.
use earendil.Base.{
  ℕ, ◌≡◌, ◌||◌, sym, ◌∙◌, none, some, arith, get, get-insert, pair_eq, pair_beq_iff, nat_eq, ok,
  if◌then◌else◌, subst,
}
use earendil.Crypto.{Primitives}
use earendil.Topology.Graph.{
  RelayGraph, AdjacencyDescriptor, StdCode, is_outdated, verify_adjacency, record_adjacency,
  cleanup,
}
use earendil.Topology.Invariant.{IsWellFormed}
use earendil.Topology.Invariant.Cleanup.{Cleans, is_forgotten, cleanup-Cleans, cleanup-IsWellFormed}
use earendil.Topology.Invariant.Insert.{
  verify_adjacency_iff, with_document, record_adjacency_lem, with_document-IsWellFormed,
}

module _ (prim : Primitives) (code : StdCode) where
  -- The graph h has the descriptor between the ids that its sides have in g, unless one of the sides or the descriptor
  -- is out of date; it is g apart from that and from what is out of date, and well formed.
  pub record Records (now : ℕ) (g : RelayGraph) (adj : AdjacencyDescriptor) (h : RelayGraph)
      : Type 0 where
    pub left_id : ℕ
    pub right_id : ℕ
    pub has_left : get adj.left g.fp_to_id ≡ some left_id
    pub has_right : get adj.right g.fp_to_id ≡ some right_id
    pub recorded : get (left_id, right_id) h.documents ≡ (
        if is_forgotten now g left_id
          || is_forgotten now g right_id
          || is_outdated now adj.unix_timestamp
        then none
        else some adj)
    pub cleaned : Cleans now (with_document prim code g left_id right_id adj) h
    pub well_formed : IsWellFormed prim h

  pub record_adjacency-Records :
      (now : ℕ) (g : RelayGraph) (adj : AdjacencyDescriptor)
      → IsWellFormed prim g
      → verify_adjacency prim code g adj ≡ ok tt
      → Records now g adj (cleanup now (record_adjacency prim code g adj))
  record_adjacency-Records now g adj v verified =
      let (l, r, le, re, same) = record_adjacency_lem prim code g adj verified in
      let lt = ((verify_adjacency_iff prim code g adj).0 verified).0 in
      let with_adj = with_document prim code g l r adj in
      let well = with_document-IsWellFormed prim code g l r adj lt le re v in
      let cleans = cleanup-Cleans now with_adj prim well in
      subst (λ x. Records now g adj (cleanup now x)) (sym same)
        (record {
          left_id = l;
          right_id = r;
          has_left = le;
          has_right = re;
          recorded =
              cleans.document_left l r
              ∙ ground
                  (arith, get-insert (l, r) (l, r) adj g.documents, pair_beq_iff (l, r) (l, r));
          cleaned = cleans;
          well_formed = cleanup-IsWellFormed now with_adj prim well;
        })
