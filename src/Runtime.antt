-- ===== src/Runtime.antt =====
-- The decisions in the runtime's configuration (runtime/src/configs/mod.rs and governance.rs): proxies, the
-- split of fees, the author of a block, the tracks of referenda and the identity that submits them.
pub mod Proxies
pub mod Fees
pub mod Governance
mod Tests
