-- ===== src/Topology/Search/Scan.antt =====
-- The inner loop of the search keeps the distances right.
use earendil.Base.{
  ℕ, suc, ◌≡◌, ◌≢◌, ◌≤◌, ◌<◌, ◌⊎◌, inl, inr, Bool, true, false, ◌&&◌, none, some, List, [], ◌∷◌,
  ◌++◌, arith, if◌then◌else◌, Map, get, get-insert, contains, contains-append, set_insert,
  contains-set_insert, length, length-append, nat_eq, nat_beq, nat_beq_iff, Bool-cases,
}
use earendil.Topology.Graph.{neighbors}
use earendil.Topology.Search.{Search, offer}

-- A queue in the order of the distances, between two bounds.
abbrev pub Rises : (ℕ → ℕ) → ℕ → ℕ → List ℕ → Type 0
Rises d lo hi [] = Unit {0}
Rises d lo hi (q ∷ qs) = (lo ≤ d q) × (d q ≤ hi) × Rises d (d q) hi qs

abbrev pub at : (ℕ → ℕ) → ℕ → ℕ → ℕ → ℕ
at d v n x = if nat_beq v x then n else d x

abbrev pub nothing_waits : ℕ → ℕ → Bool
nothing_waits u v = false

-- While the neighbours of `c` are scanned.
abbrev pub waits_of : ℕ → List ℕ → ℕ → ℕ → Bool
waits_of c todo u v = nat_beq c u && contains v todo

pub Rises-append :
    (d : ℕ → ℕ) (lo hi v : ℕ) (qs : List ℕ)
    → lo ≤ hi
    → d v ≡ hi
    → Rises d lo hi qs
    → Rises d lo hi (qs ++ v ∷ [])
Rises-append d lo hi v [] h e r = omega arith
Rises-append d lo hi v (q ∷ qs) h e r = (r.0, r.1, Rises-append d (d q) hi v qs r.1 e r.2)

-- A distance that changes outside the queue.
pub Rises-at :
    (d : ℕ → ℕ) (lo hi v n : ℕ) (qs : List ℕ)
    → contains v qs ≡ false
    → Rises d lo hi qs
    → Rises (at d v n) lo hi qs
unfolding contains
Rises-at d lo hi v n [] h r = tt
Rises-at d lo hi v n (q ∷ qs) h r =
    ground (arith, nat_beq_iff v q, nat_beq_iff q v, Rises-at d (d q) hi v n qs)

module _ (adj : Map ℕ (List ℕ)) (start_id end_id : ℕ) where
  -- `d` gives each id that was visited its distance from the start. `waits u v` says that the edge
  -- from u to v is still to be looked at.
  pub record Inv (waits : ℕ → ℕ → Bool) (d : ℕ → ℕ) (hi : ℕ) (s : Search) : Type 0 where
    pub start_visited : contains start_id s.visited ≡ true
    pub start_at : d start_id ≡ 0
    pub root : get start_id s.path ≡ none
    pub parent :
        (v u : ℕ)
        → get v s.path ≡ some u
        → (contains v s.visited ≡ true)
          × (contains u s.visited ≡ true)
          × (d v ≡ suc (d u))
          × (contains v (neighbors adj u) ≡ true)
    pub rooted :
        (v : ℕ) → contains v s.visited ≡ true → (v ≡ start_id) ⊎ ((u : ℕ) × (get v s.path ≡ some u))
    pub queued : (v : ℕ) → contains v s.queue ≡ true → contains v s.visited ≡ true
    pub within : (v : ℕ) → contains v s.visited ≡ true → d v ≤ hi
    pub short : (v : ℕ) → contains v s.visited ≡ true → d v < length s.visited
    pub closed :
        (u v : ℕ)
        → contains u s.visited ≡ true
        → contains u s.queue ≡ false
        → contains v (neighbors adj u) ≡ true
        → waits u v ≡ false
        → (contains v s.visited ≡ true) × (d v ≤ suc (d u))
    pub passed : (u : ℕ) → contains u s.visited ≡ true → contains u s.queue ≡ false → u ≢ end_id

  length-set_insert :
      (n : ℕ) (xs : List ℕ) → contains n xs ≡ false → length (set_insert n xs) ≡ suc (length xs)
  unfolding set_insert
  length-set_insert n xs h = ground (arith, length-append xs (n ∷ []))

  -- A neighbour that is new.
  pub visit-Inv :
      (d : ℕ → ℕ) (c n k : ℕ) (todo : List ℕ) (s : Search)
      → d c ≡ k
      → contains n s.visited ≡ false
      → contains c s.visited ≡ true
      → contains n (neighbors adj c) ≡ true
      → Inv (waits_of c (n ∷ todo)) d (suc k) s
      → Inv (waits_of c todo) (at d n (suc k)) (suc k) (offer c s n)
  unfolding offer contains
  visit-Inv d c n k todo s at_c fresh there edge i =
      rw (fresh, offer)
        (record {
          start_visited = ground (arith, contains-set_insert start_id n s.visited, i.start_visited);
          start_at = ground (arith, i.start_visited, i.start_at);
          root = ground (arith, get-insert n start_id c s.path, i.start_visited, i.root);
          parent = λ v u h. ground (
            arith,
            get-insert n v c s.path,
            contains-set_insert v n s.visited,
            contains-set_insert u n s.visited,
            i.parent v u,
          );
          rooted = λ v h. elim (Bool-cases (nat_beq n v)) [
            | inl same ↦ inr (c, ground (arith, get-insert n v c s.path))
            | inr other ↦ elim (i.rooted v (ground (arith, contains-set_insert v n s.visited))) [
              | inl e ↦ inl e
              | inr (u, e) ↦ inr (u, ground (arith, get-insert n v c s.path))
            ]
          ];
          queued = λ v h. ground (
            arith,
            contains-append v s.queue (n ∷ []),
            contains-set_insert v n s.visited,
            i.queued v,
          );
          within = λ v h. ground (arith, contains-set_insert v n s.visited, i.within v);
          short = λ v h. ground (
            arith,
            contains-set_insert v n s.visited,
            length-set_insert n s.visited,
            i.short v,
            i.short c there,
          );
          closed = λ u v a b e w. ground (
            arith,
            contains-set_insert u n s.visited,
            contains-set_insert v n s.visited,
            contains-append u s.queue (n ∷ []),
            i.closed u v,
          );
          passed = λ u a b. ground (
            arith,
            contains-set_insert u n s.visited,
            contains-append u s.queue (n ∷ []),
            i.passed u,
          );
        })

  -- A neighbour that was visited.
  pub skip-Inv :
      (d : ℕ → ℕ) (c n k : ℕ) (todo : List ℕ) (s : Search)
      → d c ≡ k
      → contains n s.visited ≡ true
      → Inv (waits_of c (n ∷ todo)) d (suc k) s
      → Inv (waits_of c todo) d (suc k) s
  unfolding contains
  skip-Inv d c n k todo s at_c seen i = record {
    start_visited = i.start_visited;
    start_at = i.start_at;
    root = i.root;
    parent = i.parent;
    rooted = i.rooted;
    queued = i.queued;
    within = i.within;
    short = i.short;
    closed =
        λ u v a b e w. ground (arith, nat_beq_iff n v, nat_beq_iff c u, i.within v, i.closed u v);
    passed = i.passed;
  }
