-- ===== src/Topology.antt =====
-- libraries/earendil_topology/src/lib.rs: the relay graph.
pub mod Graph
pub mod Search
pub mod Invariant
pub mod Queries
