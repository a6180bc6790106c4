-- ===== src/Rooms.antt =====
-- Private rooms: crates/lethe-server/src/db/rooms.rs and crates/lethe-server/src/logic/rooms.rs.
pub mod Requests
pub mod Queries
pub mod Rekey
pub mod Messages
pub mod Membership
pub mod Removal
pub mod Talk
pub mod Creation
pub mod Vouching
pub mod Calls
pub mod Invariants
