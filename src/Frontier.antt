-- ===== src/Frontier.antt =====
-- The migration of the EVM state from Frontier to pallet-revive (runtime/src/migrations/frontier.rs).
pub mod State
pub mod Ops
pub mod Upgrade
pub mod Blocks
pub mod Left
pub mod Contracts
pub mod Once
pub mod Signers
mod Tests
