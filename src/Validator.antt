-- ===== src/Validator.antt =====
-- The validator pallet (pallets/validator/src/lib.rs): `Defs` has its types and operations; the
-- modules beside it hold the proofs.
pub mod Defs
pub mod Demotion
pub mod Boundary
pub mod Joining
pub mod Genesis
pub mod Expiry
pub mod Leaving
pub mod Invariant
pub mod Preserve
pub mod Rotation
pub mod Liveness
pub mod Runs
pub mod Stake
mod Tests
