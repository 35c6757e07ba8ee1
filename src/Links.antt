-- ===== src/Links.antt =====
-- What neighbours say to each other: src/daemon/link_protocol.rs, link_connection.rs and gossip.rs.
pub mod Protocol
pub mod Gossip
pub mod Signing
pub mod Answers
pub mod Safety
pub mod Connection
