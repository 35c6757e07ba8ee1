-- ===== src/Topology/Invariant/Insert.antt =====
-- `insert_identity`, `verify_adjacency` and `insert_adjacency`: what they accept, what they change,
-- and that a graph built by them is well formed.
use earendil.Base.{
  ◌≤◌, sym, ◌∙◌, ℕ, ◌+◌, ◌^◌, ◌≡◌, ◌<◌, ◌↔◌, refl, ap, subst, contains, inl, inr, true, some, arith,
  get, insert, get-insert, nat_eq, pair_eq, Option-cases, Result, ok, err, panic, is_ok, >>=-eq-ok,
}
use earendil.Crypto.{Primitives, verify, fingerprint}
use earendil.Topology.Graph.{
  cleanup, RelayGraph, AdjacencyDescriptor, IdentityDescriptor, StdCode, new, id_of, alloc_id,
  identity, link, neighbors, adjacency_to_sign, identity_to_sign, insert_identity, verify_adjacency,
  record_adjacency, insert_adjacency,
}
use earendil.Topology.Invariant.{IsWellFormed, is_some}
use earendil.Topology.Invariant.Ids.{alloc_id-AreIds, alloc_id_keeps, describe-AreIds}
use earendil.Topology.Invariant.Links.{link-AreLinks}
use earendil.Topology.Invariant.Cleanup.{cleanup-IsWellFormed, cleanup-Cleans}

ok_of_is_ok : {E : Type 0} (r : Result E (Unit {0})) → is_ok r ≡ true → r ≡ ok tt
ok_of_is_ok (ok a) h = refl
ok_of_is_ok (err e) h = cc
ok_of_is_ok panic h = cc

module _ (prim : Primitives) where
  pub new-IsWellFormed : IsWellFormed prim new
  unfolding new get neighbors contains
  new-IsWellFormed = record {
    ids = record {
      to_fp = λ fp id h. cc;
      to_id = λ id fp h. cc;
      below = λ id fp h. absurd (cc);
      described = λ id d h. cc;
      once = tt;
    };
    links = record {
      linked = λ a b. refl;
      oriented = λ a b h. cc;
      documents_once = tt;
      adjacency_once = tt;
    };
    sides = λ l r doc h. (cc, cc, absurd (cc));
  }

  alloc_id_rest :
      (g : RelayGraph) (fp : ℕ)
      → ((alloc_id g fp).0.documents ≡ g.documents)
        × ((alloc_id g fp).0.adjacency ≡ g.adjacency)
        × ((alloc_id g fp).0.id_to_descriptor ≡ g.id_to_descriptor)
  unfolding alloc_id
  alloc_id_rest g fp = ground arith

  module _ (code : StdCode) where
    -- An identity descriptor that is accepted leaves the graph well formed.
    pub insert_identity-IsWellFormed :
        (g h : RelayGraph) (d : IdentityDescriptor)
        → g.unalloc_id + 1 < 2 ^ 64
        → IsWellFormed prim g
        → insert_identity prim code g d ≡ ok h
        → IsWellFormed prim h
    unfolding insert_identity
    insert_identity-IsWellFormed g h d room v e =
        let fp = fingerprint prim d.identity_pk in
        let allocated = alloc_id g fp in
        let (_, _, made) =
          >>=-eq-ok (verify prim d.identity_pk (identity_to_sign prim code d) d.sig) _ e in
        let (ids, there) = alloc_id-AreIds prim g fp room v.ids in
        let (docs, adj, descrs) = alloc_id_rest g fp in
        let done : IsWellFormed prim (record (allocated.0) {
          id_to_descriptor = insert allocated.1 d (allocated.0).id_to_descriptor;
        }) =
          record {
            ids = describe-AreIds prim (allocated.0) (allocated.1) d ids there;
            links = rw (docs, adj) v.links;
            sides = λ l r doc k. ground (
              arith,
              docs,
              v.sides l r doc,
              alloc_id_keeps prim g fp l doc.left v.ids,
              alloc_id_keeps prim g fp r doc.right v.ids,
            );
          } in
        subst (IsWellFormed prim) (ground arith) done

    -- `verify_adjacency` accepts exactly descriptors with the smaller side left, both sides known,
    -- and both signatures right under the keys on record.
    pub verify_adjacency_iff :
        (g : RelayGraph) (adj : AdjacencyDescriptor)
        → (verify_adjacency prim code g adj ≡ ok tt) ↔ (
            (adj.left < adj.right)
            × (left : IdentityDescriptor) × (right : IdentityDescriptor) × (identity g adj.left
                ≡ some left)
            × (identity g adj.right ≡ some right)
            × (verify prim left.identity_pk (adjacency_to_sign prim code adj) adj.left_sig ≡ ok tt)
            × (verify prim right.identity_pk (adjacency_to_sign prim code adj) adj.right_sig
                ≡ ok tt))
    unfolding verify_adjacency
    verify_adjacency_iff g adj = (
      λ h. elim (Option-cases (identity g adj.left)) [
        | inl e ↦ absurd (ground (arith, e))
        | inr (left, e) ↦ elim (Option-cases (identity g adj.right)) [
          | inl f ↦ absurd (ground (arith, e, f))
          | inr (right, f) ↦
              let m = adjacency_to_sign prim code adj in
              let valid : (adj.left < adj.right)
                  × (is_ok (verify prim left.identity_pk m adj.left_sig) ≡ true)
                  × (is_ok (verify prim right.identity_pk m adj.right_sig) ≡ true) =
                ground (arith, e, f) in
              (valid.0, left, right, e, f, ok_of_is_ok _ valid.1, ok_of_is_ok _ valid.2)
        ]
      ],
      λ (lt, left, right, e, f, lv, rv). ground (arith, e, f, lv, rv),
    )

    abbrev pub with_document : RelayGraph → ℕ → ℕ → AdjacencyDescriptor → RelayGraph
    with_document g l r adj = record g {
      documents = insert (l, r) adj g.documents;
      adjacency = link r l (link l r g.adjacency);
    }

    -- An identity that is known has an id.
    known_id :
        (g : RelayGraph) (fp : ℕ) (d : IdentityDescriptor)
        → identity g fp ≡ some d
        → (id : ℕ) × (get fp g.fp_to_id ≡ some id)
    unfolding identity id_of
    known_id g fp d h = ground arith

    -- A verified descriptor needs no new id.
    pub record_adjacency_lem :
        (g : RelayGraph) (adj : AdjacencyDescriptor)
        → verify_adjacency prim code g adj ≡ ok tt
        → (l : ℕ) × (r : ℕ) × (get adj.left g.fp_to_id ≡ some l)
          × (get adj.right g.fp_to_id ≡ some r)
          × (record_adjacency prim code g adj ≡ with_document g l r adj)
    unfolding record_adjacency alloc_id
    record_adjacency_lem g adj h =
        let (_, left, right, e, f, _, _) = (verify_adjacency_iff g adj).0 h in
        let (l, le) = known_id g adj.left left e in
        let (r, re) = known_id g adj.right right f in (l, r, le, re, ground (arith, le, re))

    pub with_document-IsWellFormed :
        (g : RelayGraph) (l r : ℕ) (adj : AdjacencyDescriptor)
        → adj.left < adj.right
        → get adj.left g.fp_to_id ≡ some l
        → get adj.right g.fp_to_id ≡ some r
        → IsWellFormed prim g
        → IsWellFormed prim (with_document g l r adj)
    with_document-IsWellFormed g l r adj lt le re v =
        let lf = v.ids.to_fp adj.left l le in
        let rf = v.ids.to_fp adj.right r re in
        record {
          ids = record {
            to_fp = v.ids.to_fp;
            to_id = v.ids.to_id;
            below = v.ids.below;
            described = v.ids.described;
            once = v.ids.once;
          };
          links =
              link-AreLinks g.documents g.adjacency l r adj (λ same. ground (arith, lf, rf))
                (elim (Option-cases (get (r, l) g.documents)) [
                  | inl e ↦ ap is_some e
                  | inr (doc, e) ↦ absurd (ground (arith, v.sides r l doc e, lf, rf))
                ])
                v.links;
          sides = λ a b doc h.
              ground (arith, get-insert (l, r) (a, b) adj g.documents, v.sides a b doc, lf, rf);
        }

    -- An adjacency descriptor that is accepted leaves the graph well formed.
    pub insert_adjacency-IsWellFormed :
        (now : ℕ) (g h : RelayGraph) (adj : AdjacencyDescriptor)
        → IsWellFormed prim g
        → insert_adjacency prim code now g adj ≡ ok h
        → IsWellFormed prim h
    unfolding insert_adjacency
    insert_adjacency-IsWellFormed now g h adj v e =
        let (_, verified, made) = >>=-eq-ok (verify_adjacency prim code g adj) _ e in
        let (l, r, le, re, same) = record_adjacency_lem g adj verified in
        let lt = ((verify_adjacency_iff g adj).0 verified).0 in
        let done =
          cleanup-IsWellFormed now (with_document g l r adj) prim
            (with_document-IsWellFormed g l r adj lt le re v) in
        subst (IsWellFormed prim) (ground (arith, made, same)) done

    -- It takes no new id either.
    pub insert_adjacency_next :
        (now : ℕ) (g h : RelayGraph) (adj : AdjacencyDescriptor)
        → IsWellFormed prim g
        → insert_adjacency prim code now g adj ≡ ok h
        → h.unalloc_id ≡ g.unalloc_id
    unfolding insert_adjacency
    insert_adjacency_next now g h adj v e =
        let (_, verified, made) = >>=-eq-ok (verify_adjacency prim code g adj) _ e in
        let (l, r, le, re, same) = record_adjacency_lem g adj verified in
        let lt = ((verify_adjacency_iff g adj).0 verified).0 in
        let cleans =
          cleanup-Cleans now (with_document g l r adj) prim
            (with_document-IsWellFormed g l r adj lt le re v) in
        let made_here : cleanup now (with_document g l r adj) ≡ h = ground (arith, made, same) in
        ap (λ (x : RelayGraph). x.unalloc_id) (sym made_here) ∙ cleans.next_kept

    -- An identity takes at most one.
    pub insert_identity_next :
        (g h : RelayGraph) (d : IdentityDescriptor)
        → insert_identity prim code g d ≡ ok h
        → h.unalloc_id ≤ g.unalloc_id + 1
    unfolding insert_identity alloc_id
    insert_identity_next g h d e =
        let (_, _, made) =
          >>=-eq-ok (verify prim d.identity_pk (identity_to_sign prim code d) d.sig) _ e in
        let fp = fingerprint prim d.identity_pk in
        elim (Option-cases (get fp g.fp_to_id)) [
          | inl fresh ↦ ground (arith, made, fresh)
          | inr (id, f) ↦ ground (arith, made, f)
        ]
