-- ===== src/Simulation.antt =====
-- shadow-tests/gen-earendil-shadow/src/main.rs: the networks that simulations run on.
pub mod Ports
pub mod Networks
use earendil.Base.{
  ℕ, ◌+◌, ◌*◌, ◌%◌, ◌^◌, Bool, true, false, Option, none, some, List, [], ◌∷◌, ◌++◌, set_insert,
  ltb, if◌then◌else◌, Map, get, insert, text_eq, Result, ok, err, panic,
}
use earendil.Crypto.{Bytes}
use earendil.Daemon.External.{or_else}

-- map.entry(n).or_default()
unfoldable pub or_default : Bytes → Map Bytes (List Bytes) → Map Bytes (List Bytes)
or_default name map = elim (get name map) [ none ↦ insert name [] map | some names ↦ map ]

unfoldable pub add_link : Bytes → Bytes → Map Bytes (List Bytes) → Map Bytes (List Bytes)
unfolding or_default
add_link n1 n2 map = or_default n2 (insert n1 (set_insert n2 (or_else [] (get n1 map))) map)

unfoldable pub add_links : List (Bytes × Bytes) → Map Bytes (List Bytes) → Map Bytes (List Bytes)
unfolding add_link
add_links [] map = map
add_links ((n1, n2) ∷ links) map = add_links links (add_link n1 n2 map)

-- A node's neighbours, by its name.
unfoldable pub get_adjacencies : List (Bytes × Bytes) → Map Bytes (List Bytes)
unfolding add_links
get_adjacencies links = add_links links []

-- What main gives to a node, apart from its keys and secrets.
pub record Node : Type 0 where
  pub name : Bytes
  pub ip : ℕ
  pub obfsudp_port : ℕ
  pub control_port : ℕ

pub data SetupError : Type 0 where
  too_many_nodes : SetupError

-- Ipv4Addr::new(..).into()
abbrev pub ipv4 : ℕ → ℕ → ℕ → ℕ → ℕ
ipv4 a b c d = ((a * 256 + b) * 256 + c) * 256 + d

abbrev pub min_ip : ℕ
min_ip = ipv4 200 64 1 1

abbrev pub max_ip : ℕ
max_ip = ipv4 200 64 255 255

-- The loop of main over the names; a port is a u16, which wraps in a release build.
unfoldable pub assign : Bool → List Bytes → ℕ → ℕ → Result SetupError (List Node)
assign shadow [] i listen_port = ok []
assign shadow (node_name ∷ names) i listen_port =
    let next_port = (listen_port + 1) % 2 ^ 16 in
    let rest = assign shadow names (i + 1) ((next_port + 1) % 2 ^ 16) in
    let node : Node = record {
      name = node_name;
      ip = if shadow then min_ip + i else ipv4 127 0 0 1;
      obfsudp_port = listen_port;
      control_port = next_port;
    } in
    if ltb (min_ip + i) max_ip
    then elim rest [ ok nodes ↦ ok (node ∷ nodes) | err e ↦ err e | panic ↦ panic ]
    else err too_many_nodes

unfoldable pub assign_all : Bool → List Bytes → Result SetupError (List Node)
unfolding assign
assign_all shadow names = assign shadow names 0 12000
