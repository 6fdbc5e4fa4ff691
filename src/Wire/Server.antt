-- ===== src/Wire/Server.antt =====
-- `crates/server/src/messages.rs`: what the server reads and writes.
pub mod Decode
pub mod Fields
pub mod Encode
