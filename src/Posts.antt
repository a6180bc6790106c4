-- ===== src/Posts.antt =====
-- Public posts: crates/lethe-server/src/db/posts.rs and crates/lethe-server/src/logic/posts.rs.
pub mod Requests
pub mod Queries
pub mod Deletion
pub mod Writing
pub mod Federated
pub mod Listing
pub mod Reading
