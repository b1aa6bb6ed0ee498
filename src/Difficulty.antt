-- ===== src/Difficulty.antt =====
-- The difficulty pallet: the ASERT computation (pallets/difficulty/src/asert.rs) and the hook that
-- applies it (pallets/difficulty/src/lib.rs).
pub mod Asert
pub mod Hook
mod Tests
