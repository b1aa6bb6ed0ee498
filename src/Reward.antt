-- ===== src/Reward.antt =====
-- The reward pallet (pallets/reward/src/lib.rs).
pub mod Defs
pub mod Emission
mod Tests
