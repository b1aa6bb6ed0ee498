-- ===== src/Validator/Preserve.antt =====
-- Every operation of pallets/validator/src/lib.rs keeps the invariant.
pub mod ByCalls
pub mod BySession
pub mod BySweep
