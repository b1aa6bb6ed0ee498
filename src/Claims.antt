-- ===== src/Claims.antt =====
-- The pallet of EVM claims (pallets/evm-claims/src/lib.rs), which moves what Frontier kept for an H160 to
-- the account that pallet-revive resolves it to, and the nonce check (runtime/src/check_nonce.rs) that
-- lifts a signer's nonce before its first transaction.
pub mod Accounts
pub mod Defs
pub mod Signing
pub mod Lifted
pub mod Authorized
pub mod Free
pub mod Funds
pub mod Steps
pub mod Checked
pub mod Replay
mod Tests
