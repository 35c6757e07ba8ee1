-- ===== src/Topology/Search/Distance.antt =====
-- The search, one round of the outer loop: an id leaves the queue and its neighbours are scanned.
use earendil.Base.{
  ℕ, suc, ◌+◌, ◌≡◌, ◌≢◌, ◌≤◌, ◌<◌, refl, ◌⊎◌, inl, inr, true, false, some, List, [], ◌∷◌, arith,
  if◌then◌else◌, Map, get, contains, set_insert, contains-set_insert, length, length-append, nat_eq,
  nat_beq, nat_beq_iff, Bool-cases,
}
use earendil.Topology.Graph.{RelayGraph, neighbors}
use earendil.Topology.Search.{Search, offer, scan, start}
use earendil.Topology.Search.Scan.{
  Rises, at, Inv, nothing_waits, waits_of, Rises-append, Rises-at, visit-Inv, skip-Inv,
}

-- The entries of the neighbour map that are not visited.
abbrev pub unseen : List ℕ → Map ℕ (List ℕ) → ℕ
unseen visited [] = 0
unseen visited ((id, ids) ∷ m) =
    if contains id visited then unseen visited m else suc (unseen visited m)

pub unseen-le : (visited : List ℕ) (m : Map ℕ (List ℕ)) → unseen visited m ≤ length m
unseen-le visited [] = omega arith
unseen-le visited ((id, ids) ∷ m) = ground (arith, unseen-le visited m)

unseen-set_insert_le :
    (n : ℕ) (visited : List ℕ) (m : Map ℕ (List ℕ))
    → unseen (set_insert n visited) m ≤ unseen visited m
unseen-set_insert_le n visited [] = omega arith
unseen-set_insert_le n visited ((id, ids) ∷ m) =
    ground (arith, unseen-set_insert_le n visited m, contains-set_insert id n visited)

unseen-set_insert :
    (n : ℕ) (ids : List ℕ) (visited : List ℕ) (m : Map ℕ (List ℕ))
    → contains n visited ≡ false
    → get n m ≡ some ids
    → unseen (set_insert n visited) m < unseen visited m
unfolding get
unseen-set_insert n ids visited [] fresh e = ground arith
unseen-set_insert n ids visited ((id, js) ∷ m) fresh e = ground (
  arith,
  nat_beq_iff id n,
  nat_beq_iff n id,
  unseen-set_insert n ids visited m fresh,
  unseen-set_insert_le n visited m,
  contains-set_insert id n visited,
)

module _ (adj : Map ℕ (List ℕ)) (start_id : ℕ) where
  -- A walk along the edges, of a length.
  pub data Walk : ℕ → ℕ → Type 0 where
    here : Walk start_id 0
    step : (u v n : ℕ) → Walk u n → contains v (neighbors adj u) ≡ true → Walk v (suc n)

module _ (adj : Map ℕ (List ℕ)) (start_id end_id : ℕ) where
  Rises-le :
      (d : ℕ → ℕ) (lo hi v : ℕ) (qs : List ℕ) → Rises d lo hi qs → contains v qs ≡ true → lo ≤ d v
  unfolding contains
  Rises-le d lo hi v [] r h = ground arith
  Rises-le d lo hi v (q ∷ qs) r h = ground (arith, nat_beq_iff q v, Rises-le d (d q) hi v qs r.2)

  contains-nonempty : (v : ℕ) (qs : List ℕ) → contains v qs ≡ true → qs ≢ []
  unfolding contains
  contains-nonempty v [] h = ground arith
  contains-nonempty v (q ∷ qs) h = ground arith

  -- Where a walk can have got to between two rounds.
  pub Walk-reaches :
      (d : ℕ → ℕ) (lo hi v n : ℕ) (s : Search)
      → Inv adj start_id end_id nothing_waits d hi s
      → Rises d lo hi s.queue
      → Walk adj start_id v n
      → ((contains v s.visited ≡ true) × (d v ≤ n)) ⊎ ((lo < n) × (s.queue ≢ []))
  Walk-reaches d lo hi _ _ s i r Walk.here = inl (i.start_visited, ground (arith, i.start_at))
  Walk-reaches d lo hi _ _ s i r (Walk.step u v m w e) = elim (Walk-reaches d lo hi u m s i r w) [
    | inl reached ↦ elim (Bool-cases (contains u s.queue)) [
      | inl waiting ↦ inr (
        ground (arith, Rises-le d lo hi u s.queue r waiting),
        contains-nonempty u s.queue waiting,
      )
      | inr gone ↦ inl (ground (arith, i.closed u v reached.0 gone e))
    ]
    | inr far ↦ inr (omega arith, far.1)
  ]

  -- Where a scan of the neighbours of `c`, at distance `k`, leaves the search.
  pub record Scanned (c k size : ℕ) (s : Search) : Type 0 where
    pub dist : ℕ → ℕ
    pub inv : Inv adj start_id end_id (waits_of c []) dist (suc k) s
    pub rises : Rises dist k (suc k) s.queue
    pub shrinks : length s.queue + unseen s.visited adj ≤ size

  offer-seen : (c n : ℕ) (s : Search) → contains n s.visited ≡ true → offer c s n ≡ s
  unfolding offer
  offer-seen c n s h = ground arith

  offer-fits :
      (c n size : ℕ) (ids : List ℕ) (s : Search)
      → contains n s.visited ≡ false
      → get n adj ≡ some ids
      → length s.queue + unseen s.visited adj ≤ size
      → length (offer c s n).queue + unseen (offer c s n).visited adj ≤ size
  unfolding offer
  offer-fits c n size ids s fresh e fits =
      ground (arith, length-append s.queue (n ∷ []), unseen-set_insert n ids s.visited adj fresh e)

  offer-Rises :
      (d : ℕ → ℕ) (c n k : ℕ) (s : Search)
      → contains n s.visited ≡ false
      → contains n s.queue ≡ false
      → Rises d k (suc k) s.queue
      → Rises (at d n (suc k)) k (suc k) (offer c s n).queue
  unfolding offer
  offer-Rises d c n k s fresh out r = rw fresh (
      Rises-append (at d n (suc k)) k (suc k) n s.queue (omega arith)
        (ground (arith, nat_beq_iff n n)) (Rises-at d k (suc k) n (suc k) s.queue out r))

  offer-visited :
      (c n v : ℕ) (s : Search)
      → contains v s.visited ≡ true
      → contains v (offer c s n).visited ≡ true
  unfolding offer
  offer-visited c n v s h = ground (arith, contains-set_insert v n s.visited)

  pub scan-Scanned :
      (d : ℕ → ℕ) (c k size : ℕ) (todo : List ℕ) (s : Search)
      → d c ≡ k
      → contains c s.visited ≡ true
      → ((v : ℕ)
          → contains v todo ≡ true
          → (contains v (neighbors adj c) ≡ true) × ((ids : List ℕ) × (get v adj ≡ some ids)))
      → length s.queue + unseen s.visited adj ≤ size
      → Rises d k (suc k) s.queue
      → Inv adj start_id end_id (waits_of c todo) d (suc k) s
      → Scanned c k size (scan c s todo)
  unfolding scan contains
  scan-Scanned d c k size [] s at_c there edges fits r i = record {
    dist = d;
    inv = i;
    rises = r;
    shrinks = fits;
  }
  scan-Scanned d c k size (n ∷ todo) s at_c there edges fits r i =
      elim (Bool-cases (contains n s.visited)) [
        | inl seen ↦ rw (offer-seen c n s seen) (
            scan-Scanned d c k size todo s at_c there (λ v h. edges v (ground arith)) fits r
              (skip-Inv adj start_id end_id d c n k todo s at_c seen i))
        | inr fresh ↦
            let edge = edges n (ground (arith, nat_beq_iff n n)) in
            scan-Scanned (at d n (suc k)) c k size todo (offer c s n)
              (ground (arith, nat_beq_iff n c)) (offer-visited c n c s there)
              (λ v h. edges v (ground arith))
              (offer-fits c n size (edge.1).0 s fresh (edge.1).1 fits)
              (offer-Rises d c n k s fresh (ground (arith, i.queued n)) r)
              (visit-Inv adj start_id end_id d c n k todo s at_c fresh there edge.0 i)
      ]

  -- An id leaves the queue.
  pub pop-Inv :
      (d : ℕ → ℕ) (hi c : ℕ) (rest : List ℕ) (s : Search)
      → s.queue ≡ c ∷ rest
      → hi ≤ suc (d c)
      → c ≢ end_id
      → Inv adj start_id end_id nothing_waits d hi s
      → Inv adj start_id end_id
          (waits_of c (neighbors adj c))
          d
          (suc (d c))
          (record s { queue = rest })
  unfolding contains
  pop-Inv d hi c rest s e h other i = record {
    start_visited = i.start_visited;
    start_at = i.start_at;
    root = i.root;
    parent = i.parent;
    rooted = i.rooted;
    queued = λ v q. i.queued v (rw e (ground arith));
    within = λ v q. ground (arith, i.within v);
    short = i.short;
    closed = λ u v a b edge w. elim (Bool-cases (nat_beq c u)) [
      | inl same ↦ absurd (ground (arith, (nat_beq_iff c u).0 same))
      | inr differs ↦ i.closed u v a (rw e (ground arith)) edge refl
    ];
    passed = λ u a b. elim (Bool-cases (nat_beq c u)) [
      | inl same ↦ ground (arith, (nat_beq_iff c u).0 same)
      | inr differs ↦ i.passed u a (rw e (ground arith))
    ];
  }

  pub done-Inv :
      (d : ℕ → ℕ) (hi c : ℕ) (s : Search)
      → Inv adj start_id end_id (waits_of c []) d hi s
      → Inv adj start_id end_id nothing_waits d hi s
  unfolding contains
  done-Inv d hi c s i = record {
    start_visited = i.start_visited;
    start_at = i.start_at;
    root = i.root;
    parent = i.parent;
    rooted = i.rooted;
    queued = i.queued;
    within = i.within;
    short = i.short;
    closed = λ u v a b edge w. i.closed u v a b edge (ground arith);
    passed = i.passed;
  }

  pub start-Inv :
      (g : RelayGraph) → Inv adj start_id end_id nothing_waits (λ v. 0) 0 (start g start_id end_id)
  unfolding contains get
  start-Inv g = record {
    start_visited = ground (arith, nat_beq_iff start_id start_id);
    start_at = refl;
    root = refl;
    parent = λ v u h. absurd (ground arith);
    rooted = λ v h. inl (ground (arith, nat_beq_iff start_id v));
    queued = λ v h. h;
    within = λ v h. omega arith;
    short = λ v h. omega arith;
    closed = λ u v a b edge w. absurd (ground arith);
    passed = λ u a b. absurd (ground arith);
  }
