-- ===== src/Mining.antt =====
-- The mining worker (consensus/sc-consensus-pow/src/worker.rs): the live tasks of one head and the
-- submission of seals.
pub mod Defs
pub mod Tasks
pub mod Submit
pub mod Waiter
mod Tests
