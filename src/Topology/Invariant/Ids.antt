-- ===== src/Topology/Invariant/Ids.antt =====
-- Ids under `alloc_id` and the first loop of `cleanup`.
use earendil.Base.{
  ℕ, ◌+◌, ◌^◌, ◌<◌, ◌≡◌, refl, ◌∙◌, ◌%◌, inl, inr, none, some, List, [], ◌∷◌, arith, get, insert,
  get-insert, get-remove, remove-Distinct, insert-Distinct, contains, nat_eq, if◌then◌else◌,
  Option-cases,
}
use earendil.Crypto.{Primitives, fingerprint}
use earendil.Topology.Graph.{
  RelayGraph, IdentityDescriptor, alloc_id, forget_identity, forget_identities,
}
use earendil.Topology.Invariant.{AreIds}

-- An id that is not given out is not in use.
unused : (prim : Primitives) (g : RelayGraph) → AreIds prim g → get g.unalloc_id g.id_to_fp ≡ none
unused prim g v = elim (Option-cases (get g.unalloc_id g.id_to_fp)) [
  | inl e ↦ e
  | inr (fp, e) ↦ absurd (omega (arith, v.below g.unalloc_id fp e))
]

module _ (prim : Primitives) where
  -- A fingerprint that is new gets the next id.
  abbrev fresh : RelayGraph → ℕ → RelayGraph
  fresh g fp = record g {
    unalloc_id = (g.unalloc_id + 1) % 2 ^ 64;
    fp_to_id = insert fp g.unalloc_id g.fp_to_id;
    id_to_fp = insert g.unalloc_id fp g.id_to_fp;
  }

  fresh-AreIds :
      (g : RelayGraph) (fp : ℕ)
      → g.unalloc_id + 1 < 2 ^ 64
      → get fp g.fp_to_id ≡ none
      → AreIds prim g
      → AreIds prim (fresh g fp)
  fresh-AreIds g fp room e v = record {
    to_fp = λ x id h. ground (
      arith,
      get-insert fp x g.unalloc_id g.fp_to_id,
      get-insert g.unalloc_id id fp g.id_to_fp,
      v.to_fp x id,
      v.below id x,
    );
    to_id = λ id x h. ground (
      arith,
      get-insert fp x g.unalloc_id g.fp_to_id,
      get-insert g.unalloc_id id fp g.id_to_fp,
      v.to_id id x,
    );
    below = λ id x h. ground (arith, get-insert g.unalloc_id id fp g.id_to_fp, v.below id x);
    described = λ id d h. ground (
      arith,
      get-insert g.unalloc_id id fp g.id_to_fp,
      v.described id d,
      v.below id (fingerprint prim d.identity_pk),
    );
    once = v.once;
  }

  -- `alloc_id` keeps the ids in order, and the id that it returns is that of the fingerprint.
  pub alloc_id-AreIds :
      (g : RelayGraph) (fp : ℕ)
      → g.unalloc_id + 1 < 2 ^ 64
      → AreIds prim g
      → AreIds prim (alloc_id g fp).0 × (get (alloc_id g fp).1 (alloc_id g fp).0.id_to_fp ≡ some fp)
  unfolding alloc_id
  alloc_id-AreIds g fp room v = elim (Option-cases (get fp g.fp_to_id)) [
    | inr (id, e) ↦ rw (e, alloc_id) (v, v.to_fp fp id e)
    | inl e ↦
        rw (e, alloc_id)
          (
            fresh-AreIds g fp room e v,
            ground (arith, get-insert g.unalloc_id g.unalloc_id fp g.id_to_fp),
          )
  ]

  -- Other ids keep their fingerprints.
  pub alloc_id_keeps :
      (g : RelayGraph) (fp id x : ℕ)
      → AreIds prim g
      → get id g.id_to_fp ≡ some x
      → get id (alloc_id g fp).0.id_to_fp ≡ some x
  unfolding alloc_id
  alloc_id_keeps g fp id x v h =
      ground (arith, get-insert g.unalloc_id id fp g.id_to_fp, v.below id x)

  -- A descriptor under an id with its fingerprint.
  pub describe-AreIds :
      (g : RelayGraph) (id : ℕ) (d : IdentityDescriptor)
      → AreIds prim g
      → get id g.id_to_fp ≡ some (fingerprint prim d.identity_pk)
      → AreIds prim (record g { id_to_descriptor = insert id d g.id_to_descriptor })
  describe-AreIds g id d v h = record {
    to_fp = v.to_fp;
    to_id = v.to_id;
    below = v.below;
    described = λ j e k. ground (arith, get-insert id j d g.id_to_descriptor, v.described j e);
    once = insert-Distinct id d g.id_to_descriptor v.once;
  }

  forget_identity-AreIds :
      (g : RelayGraph) (id : ℕ) → AreIds prim g → AreIds prim (forget_identity g id)
  unfolding forget_identity
  forget_identity-AreIds g id v = elim (Option-cases (get id g.id_to_fp)) [
    | inl e ↦
        rw (e, forget_identity)
          (record {
            to_fp = λ x j h. ground (arith, get-remove id j g.id_to_fp, v.to_fp x j);
            to_id = λ j x h. ground (arith, get-remove id j g.id_to_fp, v.to_id j x);
            below = λ j x h. ground (arith, get-remove id j g.id_to_fp, v.below j x);
            described = λ j d h. ground (
              arith,
              get-remove id j g.id_to_fp,
              get-remove id j g.id_to_descriptor,
              v.described j d,
            );
            once = remove-Distinct id g.id_to_descriptor v.once;
          })
    | inr (fp, e) ↦
        rw (e, forget_identity)
          (record {
            to_fp = λ x j h.
                ground (arith, get-remove id j g.id_to_fp, get-remove fp x g.fp_to_id, v.to_fp x j);
            to_id = λ j x h. ground (
              arith,
              get-remove id j g.id_to_fp,
              get-remove fp x g.fp_to_id,
              v.to_id j x,
              v.to_id id fp,
            );
            below = λ j x h. ground (arith, get-remove id j g.id_to_fp, v.below j x);
            described = λ j d h. ground (
              arith,
              get-remove id j g.id_to_fp,
              get-remove id j g.id_to_descriptor,
              v.described j d,
            );
            once = remove-Distinct id g.id_to_descriptor v.once;
          })
  ]

  pub forget_identities-AreIds :
      (ids : List ℕ) (g : RelayGraph) → AreIds prim g → AreIds prim (forget_identities g ids)
  unfolding forget_identities
  forget_identities-AreIds [] g v = v
  forget_identities-AreIds (id ∷ ids) g v =
      forget_identities-AreIds ids (forget_identity g id) (forget_identity-AreIds g id v)

-- What the first loop of `cleanup` leaves.
pub record Forgets (ids : List ℕ) (g h : RelayGraph) : Type 0 where
  pub fp_left : (j : ℕ) → get j h.id_to_fp ≡ (if contains j ids then none else get j g.id_to_fp)
  pub descriptor_left :
      (j : ℕ)
      → get j h.id_to_descriptor ≡ (if contains j ids then none else get j g.id_to_descriptor)
  pub documents_kept : h.documents ≡ g.documents
  pub adjacency_kept : h.adjacency ≡ g.adjacency
  pub next_kept : h.unalloc_id ≡ g.unalloc_id

forget_identity-Forgets : (g : RelayGraph) (id : ℕ) → Forgets (id ∷ []) g (forget_identity g id)
unfolding forget_identity contains
forget_identity-Forgets g id = record {
  fp_left = λ j. ground (arith, get-remove id j g.id_to_fp);
  descriptor_left = λ j. ground (arith, get-remove id j g.id_to_descriptor);
  documents_kept = ground arith;
  adjacency_kept = ground arith;
  next_kept = ground arith;
}

pub forget_identities-Forgets :
    (ids : List ℕ) (g : RelayGraph) → Forgets ids g (forget_identities g ids)
unfolding forget_identities contains
forget_identities-Forgets [] g = record {
  fp_left = λ j. refl;
  descriptor_left = λ j. refl;
  documents_kept = refl;
  adjacency_kept = refl;
  next_kept = refl;
}
forget_identities-Forgets (id ∷ ids) g =
    let one = forget_identity-Forgets g id in
    let rest = forget_identities-Forgets ids (forget_identity g id) in
    record {
      fp_left = λ j. ground (arith, one.fp_left j, rest.fp_left j);
      descriptor_left = λ j. ground (arith, one.descriptor_left j, rest.descriptor_left j);
      documents_kept = rest.documents_kept ∙ one.documents_kept;
      adjacency_kept = rest.adjacency_kept ∙ one.adjacency_kept;
      next_kept = rest.next_kept ∙ one.next_kept;
    }
