-- ===== src/Host.antt =====
-- What the runtime's own code calls of FRAME: the accounts of frame_system, pallet_balances and
-- pallet_vesting. They are parameters: a record of operations on an opaque ledger, and their documented
-- effects as laws.
pub mod Ops
pub mod Laws
pub mod Bytes
pub mod Simple
