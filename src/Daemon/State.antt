-- ===== src/Daemon/State.antt =====
-- src/daemon/context.rs: what the daemon keeps, and src/socket.rs: endpoints.
use earendil.Base.{ℕ, List, Map, nat_eq, pair_eq}
use earendil.Crypto.{Bytes, Primitives}
use earendil.Packet.Types.{RawPacket, ReplyDegarbler, Message, PacketConstructError, Codec}
use earendil.Topology.Graph.{RelayGraph}
use earendil.Daemon.External.{LruCache, Channel}
use earendil.Daemon.ReplyBlocks.{ReplyBlockDeque}
use earendil.Daemon.Neighbors.{NeighTable}

-- A fingerprint and a dock.
abbrev pub Endpoint : Type 0
Endpoint = ℕ × ℕ

-- What building one packet draws: the identifier of a reply block, the secrets of the layers, and the
-- bytes that fill the last header.
pub record Draws : Type 0 where
  pub id : ℕ
  pub eph : ℕ → ℕ
  pub garbage : Bytes

-- The crates around the daemon. `draws n` is what the n-th packet draws, `fresh n` the n-th secret.
pub record World : Type 1 where
  pub prim : Primitives
  pub codec : Codec
  pub lru : LruCache ReplyBlockDeque
  pub packets : Channel RawPacket
  pub messages : Channel (Message × ℕ)
  pub draws : ℕ → Draws
  pub fresh : ℕ → ℕ

pub data SendMessageError : Type 0 where
  no_route : ℕ → SendMessageError
  packet_construct_error : PacketConstructError → SendMessageError
  no_onion_public : ℕ → SendMessageError
  reply_block_failed no_anon_id : SendMessageError
  -- of the model's own: the loop of `replenish_rrb` ran out of fuel
  out_of_fuel : SendMessageError

-- Balances of reply blocks; the program's are whole numbers in an f64.
pub data ℤ : Type 0 where
  pos negsuc : ℕ → ℤ

module _ (world : World) where
  pub record State : Type 0 where
    pub global_identity : ℕ
    pub global_onion_sk : ℕ
    pub relay_graph : RelayGraph
    pub anon_dests : world.lru.Cache
    pub neigh_table : NeighTable world.packets
    -- packets handed to a connection, in order
    pub sent : List (ℕ × RawPacket)
    pub socket_recv_queues : Map Endpoint world.messages.Queue
    pub degarblers : Map ℕ ReplyDegarbler
    pub balance_table : Map (ℕ × ℕ) ℤ
    pub onion_sk_cache : Map ℕ ℕ
    pub drawn : ℕ
