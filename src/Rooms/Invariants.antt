-- ===== src/Rooms/Invariants.antt =====
-- What holds in every state that the room endpoints reach.
pub mod Frames
pub mod Removed
pub mod Cap
pub mod Life
