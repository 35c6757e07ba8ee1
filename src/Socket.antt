-- ===== src/Socket.antt =====
-- The sockets of src/socket.
pub mod N2r
pub mod Endpoints
pub mod Calls
