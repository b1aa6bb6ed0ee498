-- ===== src/Prime.antt =====
-- The prime pallet (pallets/prime/src/lib.rs).
pub mod Defs
pub mod Access
mod Tests
