-- ===== src/Wire.antt =====
-- The protocol between a client and the server: `crates/server/src/messages.rs`, which reads what a
-- client sends and writes what the server sends, and `crates/loadtest/src/wire/codec.rs`, which
-- writes the first and reads the second. The two crates have no code in common.
mod Tests
pub mod Buffer
pub mod Reader
pub mod Text
pub mod Parsing
pub mod Loadtest
pub mod Server
pub mod ClientMessage
pub mod Values
pub mod ClientFields
pub mod ClientRoundTrip
pub mod ServerValues
pub mod ServerMessage
pub mod ServerFields
pub mod ServerEntries
pub mod ServerLists
pub mod ServerRoundTrip
pub mod Frames
pub mod Panics
pub mod Safe
pub mod SafeReads
pub mod ClientSafety
pub mod LittleEndian
pub mod Bounds
pub mod SessionIds
