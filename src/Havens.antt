-- ===== src/Havens.antt =====
-- How havens are found and reached: src/haven_util.rs, src/daemon/dht.rs, src/global_rpc/server.rs, and
-- rendezvous_forward_loop of src/daemon.rs.
pub mod Locators
pub mod Table
pub mod Genuine
pub mod Serving
pub mod Forward
pub mod Session
pub mod Sockets
