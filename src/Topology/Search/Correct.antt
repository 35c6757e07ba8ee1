-- ===== src/Topology/Search/Correct.antt =====
-- `find_shortest_path` gives a shortest route, or there is none. Its loops end.
use mathlib.Core.List.{reverse}
use earendil.Base.{
  ℕ, zero, suc, ◌+◌, ◌≡◌, ◌≢◌, ◌≤◌, ◌<◌, refl, sym, ap, ◌∙◌, inl, inr, true, none, some, List, [],
  ◌∷◌, arith, get, contains, length, nat_eq, subst, nat_beq, nat_beq_iff, Option-cases, Bool-cases,
  List-cases,
}
use earendil.Crypto.{Primitives}
use earendil.Topology.Graph.{RelayGraph, neighbors, id_of}
use earendil.Topology.Invariant.{IsWellFormed}
use earendil.Topology.Search.{
  Search, Outcome, trace, scan, loop, start, find_shortest_path, reversed,
}
use earendil.Topology.Search.Scan.{Inv, Rises, nothing_waits}
use earendil.Topology.Search.Distance.{
  Walk, Scanned, unseen, unseen-le, Walk-reaches, scan-Scanned, pop-Inv, done-Inv, start-Inv,
}
use earendil.Topology.Search.Route.{Route, Route-Walk, trace-Route, edge-back}

-- A shortest route, or no route; no outcome of the model's own.
abbrev pub IsAnswer : RelayGraph → ℕ → ℕ → Outcome → Type 0
IsAnswer g start_fp end_fp (Outcome.found fps) =
    Route g start_fp end_fp fps
    × ((other : List ℕ) → Route g start_fp end_fp other → length fps ≤ length other)
IsAnswer g start_fp end_fp Outcome.no_path = (fps : List ℕ) → ¬ Route g start_fp end_fp fps
IsAnswer g start_fp end_fp Outcome.out_of_fuel = ⊥
IsAnswer g start_fp end_fp Outcome.panicked = ⊥

module _ (prim : Primitives) (g : RelayGraph) (v : IsWellFormed prim g)
    (start_fp end_fp start_id end_id : ℕ) (starts : id_of g start_fp ≡ some start_id)
    (ends : id_of g end_fp ≡ some end_id) where
  -- No route is left when no walk is.
  no_path-IsAnswer :
      ((n : ℕ) → ¬ Walk g.adjacency start_id end_id n) → IsAnswer g start_fp end_fp Outcome.no_path
  no_path-IsAnswer h fps r =
      let (id, n, e, w, len) = Route-Walk prim g v start_fp start_id end_fp fps starts r in
      h n (subst (λ x. Walk g.adjacency start_id x n) (ground (arith, e, ends)) w)

  -- The start has no neighbours.
  alone :
      (id n : ℕ)
      → neighbors g.adjacency start_id ≡ []
      → Walk g.adjacency start_id id n
      → id ≡ start_id
  unfolding contains
  alone _ _ e Walk.here = refl
  alone _ _ e (Walk.step a b n w edge) =
      let back : a ≡ start_id = alone a n e w in
      absurd (ground (arith, ap (neighbors g.adjacency) back, e))

  found-IsAnswer :
      (d : ℕ → ℕ) (hi : ℕ) (rest : List ℕ) (s : Search)
      → s.queue ≡ end_id ∷ rest
      → Inv g.adjacency start_id end_id nothing_waits d hi s
      → Rises d (d end_id) hi s.queue
      → IsAnswer g start_fp end_fp
          (reversed (trace g s.path start_id (suc (length s.visited)) end_id))
  unfolding contains id_of
  found-IsAnswer d hi rest s q i r =
      let seen : contains end_id s.visited ≡ true =
        i.queued end_id (rw q (ground (arith, nat_beq_iff end_id end_id))) in
      let (fp, fps, e, back, route, len) =
        trace-Route prim g v start_id end_id start_fp (v.ids.to_fp start_fp start_id starts) s d hi
          i (suc (length s.visited)) end_id seen (ground (arith, i.short end_id seen)) in
      subst (λ o. IsAnswer g start_fp end_fp (reversed o)) (sym back)
        (
          subst (λ x. Route g start_fp x (reverse fps))
              (ground (arith, e, v.ids.to_fp end_fp end_id ends)) route,
          λ other ro.
              let (id, n, ide, w, olen) =
                Route-Walk prim g v start_fp start_id end_fp other starts ro in
              let w_end : Walk g.adjacency start_id end_id n =
                subst (λ x. Walk g.adjacency start_id x n) (ground (arith, ide, ends)) w in
              elim (Walk-reaches g.adjacency start_id end_id d (d end_id) hi end_id n s i r w_end) [
                | inl (there, le) ↦ ground (arith, olen, len)
                | inr (lt, ne) ↦ ground (arith, olen, len)
              ],
        )

  has_entry :
      (x c : ℕ)
      → contains c (neighbors g.adjacency x) ≡ true
      → (ids : List ℕ) × (get x g.adjacency ≡ some ids)
  unfolding neighbors contains
  has_entry x c h = elim (Option-cases (get x g.adjacency)) [
    | inl gone ↦ absurd (ground (arith, gone))
    | inr (ids, e) ↦ (ids, e)
  ]

  -- An id that leaves the queue has neighbours, or is the start.
  stuck :
      (d : ℕ → ℕ) (hi c : ℕ) (s : Search)
      → Inv g.adjacency start_id end_id nothing_waits d hi s
      → contains c s.visited ≡ true
      → c ≢ end_id
      → get c g.adjacency ≡ none
      → IsAnswer g start_fp end_fp Outcome.no_path
  unfolding neighbors contains
  stuck d hi c s i seen other gone =
      let empty : neighbors g.adjacency c ≡ [] = ground (arith, gone) in
      elim (i.rooted c seen) [
        | inl same ↦ no_path-IsAnswer (λ n w.
            other (
              same ∙ sym (alone end_id n (subst (λ x. neighbors g.adjacency x ≡ []) same empty) w)))
        | inr (u, e) ↦
            let (seen_c, seen_u, far, edge) = i.parent c u e in
            let back = edge-back prim g v u c edge in
            absurd (ground (arith, back, ap (contains u) empty))
      ]

  Rises-weaken :
      (d : ℕ → ℕ) (lo hi hi2 : ℕ) (qs : List ℕ) → hi ≤ hi2 → Rises d lo hi qs → Rises d lo hi2 qs
  Rises-weaken d lo hi hi2 [] h r = tt
  Rises-weaken d lo hi hi2 (q ∷ qs) h r = (r.0, omega arith, Rises-weaken d (d q) hi hi2 qs h r.2)

  round :
      (d : ℕ → ℕ) (hi c : ℕ) (rest neighs : List ℕ) (s : Search)
      → s.queue ≡ c ∷ rest
      → c ≢ end_id
      → get c g.adjacency ≡ some neighs
      → hi ≤ suc (d c)
      → Rises d (d c) hi rest
      → Inv g.adjacency start_id end_id nothing_waits d hi s
      → contains c s.visited ≡ true
      → Scanned g.adjacency start_id end_id c
          (d c)
          (length rest + unseen s.visited g.adjacency)
          (scan c (record s { queue = rest }) neighs)
  unfolding neighbors
  round d hi c rest neighs s q other e near r i seen =
      let same : neighbors g.adjacency c ≡ neighs = ground (arith, e) in
      subst
        (λ ns.
          Scanned g.adjacency start_id end_id c (d c) (length rest + unseen s.visited g.adjacency)
            (scan c (record s { queue = rest }) ns))
        same
        (scan-Scanned g.adjacency start_id end_id d c (d c)
          (length rest + unseen s.visited g.adjacency) (neighbors g.adjacency c)
          (record s { queue = rest }) refl seen
          (λ x h. (h, has_entry x c (edge-back prim g v c x h))) (omega arith)
          (Rises-weaken d (d c) hi (suc (d c)) rest near r)
          (pop-Inv g.adjacency start_id end_id d hi c rest s q near other i))

  loop-IsAnswer :
      (fuel : ℕ) (d : ℕ → ℕ) (lo hi : ℕ) (s : Search)
      → Inv g.adjacency start_id end_id nothing_waits d hi s
      → Rises d lo hi s.queue
      → hi ≤ suc lo
      → length s.queue + unseen s.visited g.adjacency < fuel
      → IsAnswer g start_fp end_fp (loop g start_id end_id fuel s)
  unfolding loop contains
  loop-IsAnswer zero d lo hi s i r near enough = absurd (omega arith)
  loop-IsAnswer (suc fuel) d lo hi s i r near enough = elim (List-cases s.queue) [
    | inl empty ↦
        rw (empty, loop)
          (no_path-IsAnswer (λ n w.
            elim (Walk-reaches g.adjacency start_id end_id d lo hi end_id n s i r w) [
              | inl (seen, le) ↦ i.passed end_id seen (ap (contains end_id) empty) refl
              | inr (lt, ne) ↦ ne empty
            ]))
    | inr (c, rest, q) ↦
        let (low, high, rises) : Rises d lo hi (c ∷ rest) = subst (Rises d lo hi) q r in
        let seen : contains c s.visited ≡ true =
          i.queued c (rw q (ground (arith, nat_beq_iff c c))) in
        elim (Bool-cases (nat_beq c end_id)) [
          | inl same ↦
              let at_end : c ≡ end_id = (nat_beq_iff c end_id).0 same in
              rw (q, same, loop)
                (subst
                  (λ x.
                    IsAnswer g start_fp end_fp
                      (reversed (trace g s.path start_id (suc (length s.visited)) x)))
                  (sym at_end)
                  (found-IsAnswer d hi rest s (q ∙ ap (λ x. x ∷ rest) at_end) i (
                    subst (λ x. Rises d (d x) hi s.queue) at_end
                      (subst (Rises d (d c) hi) (sym q) (omega arith, high, rises)))))
          | inr other ↦ elim (Option-cases (get c g.adjacency)) [
            | inl gone ↦
                rw (q, other, gone, loop)
                  (stuck d hi c s i seen (λ same. ground (arith, nat_beq_iff c end_id)) gone)
            | inr (neighs, e) ↦
                let sc =
                  round d hi c rest neighs s q (λ same. ground (arith, nat_beq_iff c end_id)) e
                    (omega arith) rises i seen in
                rw (q, other, e, loop)
                  (loop-IsAnswer fuel sc.dist (d c) (suc (d c))
                    (scan c (record s { queue = rest }) neighs)
                    (done-Inv g.adjacency start_id end_id sc.dist (suc (d c)) c
                      (scan c (record s { queue = rest }) neighs) sc.inv)
                    sc.rises (omega arith) (ground (arith, ap length q, sc.shrinks)))
          ]
        ]
  ]

unknown_start :
    (g : RelayGraph) (start_fp fp : ℕ) (fps : List ℕ)
    → id_of g start_fp ≡ none
    → ¬ Route g start_fp fp fps
unknown_start g start_fp _ _ gone (Route.here id e) = ground arith
unknown_start g start_fp _ _ gone (Route.there x y fps r lk) = unknown_start g start_fp x fps gone r

-- On a well-formed graph the search ends without a panic. What it finds is a route from the start to
-- the end along documents, and no route is shorter; if it finds none, there is none.
pub find_shortest_path-IsAnswer :
    (prim : Primitives) (g : RelayGraph) (start_fp end_fp : ℕ)
    → IsWellFormed prim g
    → IsAnswer g start_fp end_fp (find_shortest_path g start_fp end_fp)
unfolding find_shortest_path
find_shortest_path-IsAnswer prim g start_fp end_fp v = elim (Option-cases (id_of g start_fp)) [
  | inl gone ↦ rw (gone, find_shortest_path) (λ fps r. unknown_start g start_fp end_fp fps gone r)
  | inr (start_id, starts) ↦ elim (Option-cases (id_of g end_fp)) [
    | inl gone ↦
        rw (starts, gone, find_shortest_path)
          (λ fps r. ground (arith, Route-Walk prim g v start_fp start_id end_fp fps starts r))
    | inr (end_id, ends) ↦
        rw (starts, ends, find_shortest_path)
          (loop-IsAnswer prim g v start_fp end_fp start_id end_id starts ends
            (suc (suc (length g.adjacency))) (λ x. 0) 0 0 (start g start_id end_id)
            (start-Inv g.adjacency start_id end_id g) (omega arith) (omega arith)
            (ground (arith, unseen-le (start_id ∷ []) g.adjacency)))
  ]
]
