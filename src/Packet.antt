-- ===== src/Packet.antt =====
-- libraries/earendil_packet: the types of packets, and their parts as modules.
pub mod Crypt
pub mod Inner
pub mod Raw
pub mod Reply
pub mod Types
pub mod Delivery
pub use Types.*
