-- ===== src/Chain.antt =====
-- The proof-of-work consensus of consensus/sc-consensus-pow/src/lib.rs: the finality test, the import of
-- a block and the check of its header.
pub mod Defs
pub mod Finality
pub mod Inversion
pub mod Import
pub mod Header
mod Tests
