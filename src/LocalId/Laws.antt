-- ===== src/LocalId/Laws.antt =====
-- What `get_or_insert`, `remove_by_local` and the two lookups of `local_id.rs` promise a session.
pub mod Insert
pub mod Remove
pub mod Stale
