-- ===== src/Erc20.antt =====
-- The native token as an ERC-20 (runtime/src/balances_erc20.rs): the calls of the precompile, its storage of
-- allowances and permit nonces, and the code of the proxy in front of it.
pub mod Interface
pub mod Literals
pub mod Ops
pub mod Permit
pub mod Dispatch
pub mod Steps
pub mod Writes
pub mod Deposits
pub mod Digest
pub mod Permits
pub mod Calls
pub mod Allowance
pub mod Opcode
pub mod Proxy
mod Tests
