-- ===== src/Topology/Search/Route.antt =====
-- What a route is, by the documents of the graph, and how it stands to the walks along neighbours.
use mathlib.Core.List.{reverse, reverse-cons}
use earendil.Base.{
  ℕ, zero, suc, ◌≡◌, ◌<◌, refl, sym, ap, ◌⊎◌, inl, inr, true, some, List, [], ◌∷◌, ◌++◌, arith, get,
  contains, length, length-append, nat_eq, pair_eq, subst, Option-cases,
}
use earendil.Crypto.{Primitives}
use earendil.Topology.Graph.{RelayGraph, AdjacencyDescriptor, neighbors, id_of}
use earendil.Topology.Invariant.{IsWellFormed, has_document, is_some}
use earendil.Topology.Search.{Search, Pushed, trace}
use earendil.Topology.Search.Scan.{Inv, nothing_waits}
use earendil.Topology.Search.Distance.{Walk}

-- Two fingerprints are linked if the graph has a document signed by the two.
pub record Linked (g : RelayGraph) (u v : ℕ) : Type 0 where
  pub key : ℕ × ℕ
  pub document : AdjacencyDescriptor
  pub stored : get key g.documents ≡ some document
  pub joins :
      ((document.left ≡ u) × (document.right ≡ v)) ⊎ ((document.left ≡ v) × (document.right ≡ u))

-- The fingerprints on a way from the start to the first argument, in its order.
pub data Route (g : RelayGraph) (start_fp : ℕ) : ℕ → List ℕ → Type 0 where
  here : (id : ℕ) → id_of g start_fp ≡ some id → Route g start_fp start_fp (start_fp ∷ [])
  there :
      (u v : ℕ) (fps : List ℕ)
      → Route g start_fp u fps
      → Linked g u v
      → Route g start_fp v (fps ++ v ∷ [])

module _ (prim : Primitives) (g : RelayGraph) (v : IsWellFormed prim g) where
  -- The documents behind an edge.
  edge-Linked :
      (a b x : ℕ)
      → contains b (neighbors g.adjacency a) ≡ true
      → get a g.id_to_fp ≡ some x
      → (y : ℕ) × (get b g.id_to_fp ≡ some y) × Linked g x y
  edge-Linked a b x edge e = elim (Option-cases (get (a, b) g.documents)) [
    | inr (doc, f) ↦
        let (l, r, lt) = v.sides a b doc f in
        (
          doc.right,
          r,
          record {
            key = (a, b);
            document = doc;
            stored = f;
            joins = inl (ground (arith, l, e), refl);
          },
        )
    | inl gone ↦ elim (Option-cases (get (b, a) g.documents)) [
      | inr (doc, f) ↦
          let (l, r, lt) = v.sides b a doc f in
          (
            doc.left,
            l,
            record {
              key = (b, a);
              document = doc;
              stored = f;
              joins = inr (refl, ground (arith, r, e));
            },
          )
      | inl none_back ↦ absurd (ground (arith, v.links.linked a b))
    ]
  ]

  Linked-edge :
      (x y a : ℕ)
      → Linked g x y
      → id_of g x ≡ some a
      → (b : ℕ) × (id_of g y ≡ some b) × (contains b (neighbors g.adjacency a) ≡ true)
  unfolding id_of
  Linked-edge x y a lk e =
      let (l, r) = lk.key in
      let (lf, rf, lt) = v.sides l r lk.document lk.stored in
      let le = v.ids.to_id l lk.document.left lf in
      let re = v.ids.to_id r lk.document.right rf in
      let stands : has_document g.documents l r ≡ true = ap is_some lk.stored in
      elim lk.joins [
        | inl (p, q) ↦
            (r, ground (arith, q, re), ground (arith, p, le, e, v.links.linked a r, stands))
        | inr (p, q) ↦
            (l, ground (arith, p, le), ground (arith, q, re, e, v.links.linked a l, stands))
      ]

  -- Neighbours are mutual.
  pub edge-back :
      (a b : ℕ)
      → contains b (neighbors g.adjacency a) ≡ true
      → contains a (neighbors g.adjacency b) ≡ true
  edge-back a b h = ground (arith, v.links.linked a b, v.links.linked b a)

  -- Every route is a walk.
  pub Route-Walk :
      (start_fp start_id fp : ℕ) (fps : List ℕ)
      → id_of g start_fp ≡ some start_id
      → Route g start_fp fp fps
      → (id : ℕ) × (n : ℕ) × (id_of g fp ≡ some id)
        × Walk g.adjacency start_id id n
        × (length fps ≡ suc n)
  Route-Walk start_fp start_id _ _ e (Route.here id h) = (start_id, 0, e, Walk.here, refl)
  Route-Walk start_fp start_id _ _ e (Route.there x y fps r lk) =
      let (a, n, ae, w, len) = Route-Walk start_fp start_id x fps e r in
      let (b, be, edge) = Linked-edge x y a lk ae in
      (b, suc n, be, Walk.step a b n w edge, ground (arith, length-append fps (y ∷ [])))

  length-reverse : (xs : List ℕ) → length (reverse xs) ≡ length xs
  length-reverse [] = refl
  length-reverse (x ∷ xs) =
      ground (arith, reverse-cons x xs, length-append (reverse xs) (x ∷ []), length-reverse xs)

  module _ (start_id end_id start_fp : ℕ) (root : get start_id g.id_to_fp ≡ some start_fp)
      (s : Search) (d : ℕ → ℕ) (hi : ℕ)
      (i : Inv g.adjacency start_id end_id nothing_waits d hi s) where
    -- The way back from an id that was visited.
    pub trace-Route :
        (fuel id : ℕ)
        → contains id s.visited ≡ true
        → d id < fuel
        → (fp : ℕ) × (fps : List ℕ) × (get id g.id_to_fp ≡ some fp)
          × (trace g s.path start_id fuel id ≡ Pushed.done fps)
          × Route g start_fp fp (reverse fps)
          × (length (reverse fps) ≡ suc (d id))
    unfolding trace id_of
    trace-Route zero id seen lt = absurd (omega arith)
    trace-Route (suc fuel) id seen lt = elim (Option-cases (get id s.path)) [
      | inl top ↦ elim (i.rooted id seen) [
        | inl same ↦ (
          start_fp,
          start_fp ∷ [],
          ground (arith, root),
          ground (arith, root, top),
          Route.here start_id (v.ids.to_id start_id start_fp root),
          ground (arith, i.start_at),
        )
        | inr (u, e) ↦ absurd (ground arith)
      ]
      | inr (u, e) ↦
          let (seen_id, seen_u, far, edge) = i.parent id u e in
          let (x, fps, xe, back, r, len) = trace-Route fuel u seen_u (omega arith) in
          let (y, ye, lk) = edge-Linked u id x edge xe in
          (
            y,
            y ∷ fps,
            ye,
            ground (arith, e, back, ye),
            subst (Route g start_fp y) (sym (reverse-cons y fps))
                (Route.there x y (reverse fps) r lk),
            ground (arith, length-reverse fps, length-reverse (y ∷ fps)),
          )
    ]
