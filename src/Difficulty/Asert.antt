-- ===== src/Difficulty/Asert.antt =====
-- pallets/difficulty/src/asert.rs.
pub mod Defs
pub mod Factor
pub mod Reference
pub mod Monotone
