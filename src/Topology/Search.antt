-- ===== src/Topology/Search.antt =====
-- `RelayGraph::find_shortest_path` of libraries/earendil_topology/src/lib.rs: breadth-first search
-- over the ids, and the way back from the end. Neighbours come in the order of the set's list.
pub mod Scan
pub mod Distance
pub mod Route
pub mod Correct
use mathlib.Core.List.{reverse}
use earendil.Base.{
  ℕ, zero, suc, Bool, true, false, Option, none, some, List, [], ◌∷◌, ◌++◌, length, if◌then◌else◌,
  Map, get, insert, contains, set_insert, nat_eq, nat_beq,
}
use earendil.Topology.Graph.{RelayGraph, id_of}

pub record Search : Type 0 where
  pub visited : List ℕ
  pub queue : List ℕ
  pub path : Map ℕ ℕ

-- What the search comes to. The model's loops take fuel; a missing key of `id_to_fp` is a panic.
pub data Outcome : Type 0 where
  found : List ℕ → Outcome
  no_path out_of_fuel panicked : Outcome

-- The body of the loop over the neighbours.
unfoldable pub offer : ℕ → Search → ℕ → Search
offer current_id s neighbor_id = if contains neighbor_id s.visited then s else record {
  visited = set_insert neighbor_id s.visited;
  queue = s.queue ++ neighbor_id ∷ [];
  path = insert neighbor_id current_id s.path;
}

unfoldable pub scan : ℕ → Search → List ℕ → Search
scan current_id s [] = s
scan current_id s (neighbor_id ∷ neighs) = scan current_id (offer current_id s neighbor_id) neighs

-- `result` in the order of the pushes, end first, before the start is pushed.
pub data Pushed : Type 0 where
  done : List ℕ → Pushed
  out_of_fuel panicked : Pushed

abbrev pub push : Option ℕ → Pushed → Pushed
push none rest = Pushed.panicked
push (some fp) (Pushed.done fps) = Pushed.done (fp ∷ fps)
push (some fp) rest = rest

-- while let Some(prev_id) = path.get(&current_id)
unfoldable pub trace : RelayGraph → Map ℕ ℕ → ℕ → ℕ → ℕ → Pushed
trace g path start_id zero current_id = Pushed.out_of_fuel
trace g path start_id (suc fuel) current_id = elim (get current_id path) [
  | none ↦ push (get start_id g.id_to_fp) (Pushed.done [])
  | some prev_id ↦ push (get current_id g.id_to_fp) (trace g path start_id fuel prev_id)
]

abbrev pub reversed : Pushed → Outcome
reversed (Pushed.done fps) = found (reverse fps)
reversed Pushed.out_of_fuel = out_of_fuel
reversed Pushed.panicked = panicked

module _ (g : RelayGraph) (start_id end_id : ℕ) where
  -- The `while let` loop over the queue.
  unfoldable pub loop : ℕ → Search → Outcome
  loop zero s = out_of_fuel
  loop (suc fuel) s = elim s.queue [
    | [] ↦ no_path
    | current_id ∷ rest ↦ elim (nat_beq current_id end_id) [
      | true ↦ reversed (trace g s.path start_id (suc (length s.visited)) current_id)
      | false ↦ elim (get current_id g.adjacency) [
        | none ↦ no_path
        | some neighs ↦ loop fuel (scan current_id (record s { queue = rest }) neighs)
      ]
    ]
  ]

  abbrev pub start : Search
  start = record { visited = start_id ∷ []; queue = start_id ∷ []; path = [] }

unfoldable pub find_shortest_path : RelayGraph → ℕ → ℕ → Outcome
unfolding id_of
find_shortest_path g start_fp end_fp = elim (id_of g start_fp) [
  | none ↦ no_path
  | some start_id ↦ elim (id_of g end_fp) [
    | none ↦ no_path
    | some end_id ↦
        loop g start_id end_id (suc (suc (length g.adjacency))) (start g start_id end_id)
  ]
]
