-- ===== src/Validator/Defs.antt =====
-- The types and operations of pallets/validator/src/lib.rs.
pub mod State
pub mod Calls
pub mod Sweep
pub mod Session
