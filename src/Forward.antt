-- ===== src/Forward.antt =====
-- The Ethereum JSON-RPC forwarder of the node (node/src/eth_forward.rs): where the chain switched from
-- Frontier to pallet-revive, and which server answers a call.
pub mod Switch
pub mod Search
pub mod Values
pub mod Route
pub mod Plain
mod Tests
