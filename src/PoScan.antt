-- ===== src/PoScan.antt =====
-- The proof of scan (consensus/poscan/src/lib.rs).
pub mod Defs
pub mod Seals
mod Tests
