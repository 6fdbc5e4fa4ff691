-- ===== src/Wire/Loadtest.antt =====
-- `crates/loadtest/src/wire/codec.rs`: what a client of the load test writes and reads.
pub mod Encode
pub mod Read
pub mod Lists
pub mod Decode
