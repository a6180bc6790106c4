-- ===== src/Federation/Pull.antt =====
-- crates/lethe-server/src/federation/pull.rs: one cycle of the worker that reads the events of the
-- peers. The HTTP client, serde_json and the fresh ids are parameters.
pub mod Ingest
pub mod Isolation
pub mod Unsigned
pub mod Bounded
pub mod Repeat
pub mod Replicate
pub mod Cycle
pub use Ingest.*
pub use Cycle.*
