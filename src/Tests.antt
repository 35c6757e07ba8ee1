-- ===== src/Tests.antt =====
-- Concrete ciphers and a coder, and what the theorems say of them at concrete inputs.
pub mod Ciphers
pub mod Coder
pub mod Worlds
pub mod Daemons
pub mod Packets
pub mod Onions
pub mod Graphs
pub mod Links
pub mod Streams
pub mod Controls
pub mod Tools
pub mod Forwards
pub mod Connections
pub mod Proxies
pub mod Havens
pub mod Sessions
