-- ===== src/Difficulty/Hook.antt =====
-- pallets/difficulty/src/lib.rs: the storage of the pallet, its genesis, `on_finalize` and
-- `realtime_difficulty`.
pub mod Defs
pub mod Anchoring
