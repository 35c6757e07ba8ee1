-- ===== src/Daemon.antt =====
-- The daemon of src/daemon: its tables, the sending of messages, and the loop that peels packets.
pub mod External
pub mod Action
pub mod ReplyBlocks
pub mod Neighbors
pub mod State
pub mod Send
pub mod Balance
pub mod Peel
