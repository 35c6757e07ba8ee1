-- ===== src/Daemon/Neighbors.antt =====
-- src/daemon/neightable.rs: the connections to our neighbours and the channel of incoming packets. A
-- connection is named by a number, and an instant is one too.
use earendil.Base.{
  ℕ, ◌+◌, ◌≡◌, refl, Bool, true, Option, none, some, List, [], map, arith, ltb, nat_beq_iff,
  if◌then◌else◌, Map, get, insert, get-insert, retain, get-retain, Distinct, insert-Distinct,
  retain-Distinct, nat_eq,
}
use earendil.Packet.Types.{RawPacket}
use earendil.Daemon.External.{Channel, or_else}

module _ (packets : Channel RawPacket) where
  pub record NeighTable : Type 0 where
    pub table : Map ℕ (ℕ × Option ℕ)
    pub incoming : packets.Queue

-- What `garbage_collect` keeps.
abbrev pub is_live : ℕ → ℕ × Option ℕ → Bool
is_live now (connection, none) = true
is_live now (connection, some instant) = ltb now instant

abbrev expiry_of : ℕ → Option ℕ → Option ℕ
expiry_of now none = none
expiry_of now (some ttl) = some (now + ttl)

module _ (packets : Channel RawPacket) where
  -- NeighTable::new
  unfoldable pub new_table : NeighTable packets
  new_table = record { table = []; incoming = packets.bounded 100 }

  -- NeighTable::recv_raw_packet; `none` while there is nothing to receive
  unfoldable pub recv_raw_packet : NeighTable packets → Option (RawPacket × NeighTable packets)
  recv_raw_packet self = elim (packets.recv self.incoming) [
    | none ↦ none
    | some taken ↦ some (taken.0, record self { incoming = taken.1 })
  ]

  -- NeighTable::inject_asif_incoming, and what the task of a connection does with each packet
  unfoldable pub inject_asif_incoming : RawPacket → NeighTable packets → NeighTable packets
  inject_asif_incoming pkt self = record self {
    incoming = or_else self.incoming (packets.try_send pkt self.incoming);
  }

  -- NeighTable::insert_inner
  unfoldable pub insert_inner : ℕ → ℕ → ℕ → Option ℕ → NeighTable packets → NeighTable packets
  insert_inner now fingerprint connection ttl self = record self {
    table = insert fingerprint (connection, expiry_of now ttl) self.table;
  }

  -- NeighTable::insert
  unfoldable pub insert_neigh : ℕ → ℕ → ℕ → ℕ → NeighTable packets → NeighTable packets
  unfolding insert_inner
  insert_neigh now fingerprint connection ttl self =
      insert_inner now fingerprint connection (some ttl) self

  -- NeighTable::insert_pinned
  unfoldable pub insert_pinned : ℕ → ℕ → ℕ → NeighTable packets → NeighTable packets
  unfolding insert_inner
  insert_pinned now fingerprint connection self = insert_inner now fingerprint connection none self

  -- NeighTable::lookup
  unfoldable pub lookup : ℕ → NeighTable packets → Option ℕ
  lookup fingerprint self = elim (get fingerprint self.table) [
    | none ↦ none
    | some entry ↦ some entry.0
  ]

  -- NeighTable::all_neighs
  unfoldable pub all_neighs : NeighTable packets → List ℕ
  all_neighs self = map (λ entry. (entry.1).0) self.table

  -- NeighTable::garbage_collect
  unfoldable pub garbage_collect : ℕ → NeighTable packets → NeighTable packets
  garbage_collect now self = record self { table = retain (is_live now) self.table }

  -- A neighbour inserted for a time is found until then, whatever is collected; after a collection at
  -- or past that time it is not. A pinned neighbour is always found.
  pub lookup-garbage_collect :
      (now later fp connection ttl : ℕ) (t : NeighTable packets)
      → Distinct t.table
      → (lookup fp (garbage_collect later (insert_neigh now fp connection ttl t))
          ≡ (if ltb later (now + ttl) then some connection else none))
        × (lookup fp (garbage_collect later (insert_pinned now fp connection t)) ≡ some connection)
  unfolding lookup garbage_collect insert_neigh insert_pinned
  lookup-garbage_collect now later fp connection ttl t d =
      let timed : ℕ × Option ℕ = (connection, some (now + ttl)) in
      let pinned : ℕ × Option ℕ = (connection, none) in
      (
        ground (
          arith,
          nat_beq_iff fp fp,
          get-insert fp fp timed t.table,
          get-retain (is_live later) fp (insert fp timed t.table)
              (insert-Distinct fp timed t.table d),
        ),
        ground (
          arith,
          nat_beq_iff fp fp,
          get-insert fp fp pinned t.table,
          get-retain (is_live later) fp (insert fp pinned t.table)
              (insert-Distinct fp pinned t.table d),
        ),
      )

  -- A collection touches no other neighbour that is live, and never the packets that wait.
  pub garbage_collect_keeps :
      (later fp : ℕ) (entry : ℕ × Option ℕ) (t : NeighTable packets)
      → Distinct t.table
      → get fp t.table ≡ some entry
      → is_live later entry ≡ true
      → (lookup fp (garbage_collect later t) ≡ some entry.0)
        × ((garbage_collect later t).incoming ≡ t.incoming)
        × Distinct (garbage_collect later t).table
  unfolding lookup garbage_collect
  garbage_collect_keeps later fp entry t d e live = (
    ground (arith, get-retain (is_live later) fp t.table d),
    refl,
    retain-Distinct (is_live later) t.table d,
  )
