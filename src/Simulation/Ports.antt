-- ===== src/Simulation/Ports.antt =====
-- Which ports the nodes of a simulation get.
use earendil.Base.{
  ℕ, ◌+◌, ◌*◌, ◌%◌, ◌^◌, ◌≡◌, ◌≤◌, ◌<◌, refl, ap, Bool, true, false, List, [], ◌∷◌, arith, length,
  contains, nat_eq, nat_beq_iff, ltb, if◌then◌else◌, ok,
}
use earendil.Crypto.{Bytes}
use earendil.Havens.Session.Streams.{NoRepeats}
use earendil.Simulation.{Node, assign, assign_all, ipv4, min_ip, max_ip}

-- The names and the ports of nodes, in order.
abbrev pub names_of : List Node → List Bytes
names_of [] = []
names_of (node ∷ nodes) = node.name ∷ names_of nodes

abbrev pub ports_of : List Node → List ℕ
ports_of [] = []
ports_of (node ∷ nodes) = node.obfsudp_port ∷ node.control_port ∷ ports_of nodes

-- Every number is as large as this one, and fits a port.
abbrev pub ArePorts : ℕ → List ℕ → Type 0
ArePorts least [] = Unit
ArePorts least (p ∷ ps) = (least ≤ p) × (p < 2 ^ 16) × ArePorts least ps

ArePorts-weaken : (a b : ℕ) (ps : List ℕ) → a ≤ b → ArePorts b ps → ArePorts a ps
ArePorts-weaken a b [] h ports = tt
ArePorts-weaken a b (p ∷ ps) h ports =
    (omega (arith, h, ports.0), ports.1, ArePorts-weaken a b ps h ports.2)

ArePorts-above : (m least : ℕ) (ps : List ℕ) → m < least → ArePorts least ps → contains m ps ≡ false
unfolding contains
ArePorts-above m least [] h ports = refl
ArePorts-above m least (p ∷ ps) h ports =
    ground
      (arith, h, ports.0, nat_beq_iff p m, nat_beq_iff m p, ArePorts-above m least ps h ports.2)

abbrev node_of : Bool → Bytes → ℕ → ℕ → Node
node_of shadow name i p = record {
  name = name;
  ip = if shadow then min_ip + i else ipv4 127 0 0 1;
  obfsudp_port = p;
  control_port = (p + 1) % 2 ^ 16;
}

assign_step :
    (shadow : Bool) (name : Bytes) (names : List Bytes) (i p : ℕ) (nodes : List Node)
    → ltb (min_ip + i) max_ip ≡ true
    → ((p + 1) % 2 ^ 16 + 1) % 2 ^ 16 ≡ p + 2
    → assign shadow names (i + 1) (p + 2) ≡ ok nodes
    → assign shadow (name ∷ names) i p ≡ ok (node_of shadow name i p ∷ nodes)
unfolding assign
assign_step shadow name names i p nodes room next done = rw room (rw next (rw done refl))

first_new :
    (p : ℕ) (nodes : List Node)
    → (p + 1) % 2 ^ 16 ≡ p + 1
    → ArePorts (p + 2) (ports_of nodes)
    → contains p ((p + 1) % 2 ^ 16 ∷ ports_of nodes) ≡ false
unfolding contains
first_new p nodes one ports = ground (
  arith,
  one,
  nat_beq_iff ((p + 1) % 2 ^ 16) p,
  nat_beq_iff (p + 1) p,
  ArePorts-above p (p + 2) (ports_of nodes) (omega arith) ports,
)

assign_lem :
    (shadow : Bool) (names : List Bytes) (i listen_port : ℕ)
    → i + length names ≤ 65000
    → listen_port + 2 * length names < 2 ^ 16
    → (nodes : List Node) × (assign shadow names i listen_port ≡ ok nodes)
      × (names_of nodes ≡ names)
      × NoRepeats (ports_of nodes)
      × ArePorts listen_port (ports_of nodes)
unfolding assign
assign_lem shadow [] i p few fits = ([], refl, refl, tt, tt)
assign_lem shadow (name ∷ names) i p few fits =
    let n = length names in
    let one : (p + 1) % 2 ^ 16 ≡ p + 1 = omega (arith, fits) in
    let two : ((p + 1) % 2 ^ 16 + 1) % 2 ^ 16 ≡ p + 2 = omega (arith, fits) in
    let room : ltb (min_ip + i) max_ip ≡ true = ground (arith, few) in
    let (nodes, done, same, apart, ports) =
      assign_lem shadow names (i + 1) (p + 2) (omega (arith, few)) (omega (arith, fits)) in
    let node = node_of shadow name i p in
    (
      node ∷ nodes,
      assign_step shadow name names i p nodes room two done,
      ap (◌∷◌ name) same,
      (
        first_new p nodes one ports,
        (ArePorts-above _ (p + 2) (ports_of nodes) (omega (arith, one)) ports, apart),
      ),
      (
        omega arith,
        omega (arith, fits),
        (
          omega (arith, one),
          omega (arith, one, fits),
          ArePorts-weaken p (p + 2) (ports_of nodes) (omega arith) ports,
        ),
      ),
    )

-- If there are at most 26767 nodes, all get an address and two ports: no port of them is given twice, and none
-- is below 12000 or overflows.
pub assign_all_lem :
    (shadow : Bool) (names : List Bytes)
    → length names ≤ 26767
    → (nodes : List Node) × (assign_all shadow names ≡ ok nodes)
      × (names_of nodes ≡ names)
      × NoRepeats (ports_of nodes)
      × ArePorts 12000 (ports_of nodes)
unfolding assign_all
assign_all_lem shadow names few =
    assign_lem shadow names 0 12000 (omega (arith, few)) (omega (arith, few))
