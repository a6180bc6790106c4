-- ===== src/Federation.antt =====
-- Federation: crates/lethe-server/src/federation, db/federation.rs and db/post_removals.rs.
pub mod Wire
pub mod Events
pub mod Peers
pub mod Cursor
pub mod Stream
pub mod Pull
pub mod Admin
pub mod Identity
pub mod Info
