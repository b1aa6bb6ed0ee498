-- ===== src/Rpc.antt =====
-- The RPC of the node for miners and for models (node/src/mining_rpc.rs, node/src/object_rpc.rs), and the
-- proof-of-work algorithm that asks the runtime (consensus/poscan-pow/src/lib.rs).
pub mod Tasks
pub mod Objects
pub mod Algorithm
