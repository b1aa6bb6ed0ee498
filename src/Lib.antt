-- ===== src/Lib.antt =====
-- A verification library of the Numen node and runtime: definitions translated from the Rust source,
-- and theorems about them. The runtime is a proof-of-work chain whose blocks are finalized by GRANDPA
-- validators; validators lock a stake, miners are paid for blocks, and the difficulty of blocks
-- follows an ASERT controller.
--
-- The modules and what they model:
-- - Prelude: the shared Boolean tests, lists, sets and maps with their laws, integers, and the
--   limits of machine words. Frame: the origin of a call.
-- - Validator: pallets/validator/src/lib.rs. Validator.Defs.State has the storage as a record (each
--   storage item a field, the currency's ledger and the deposited events among them);
--   Validator.Defs.Calls has `lock`, `request_exit` and `set_stake_exempt`; Validator.Defs.Sweep
--   has genesis and `on_initialize`; Validator.Defs.Session has `note_offline`,
--   `note_equivocation`, `kick_validator`, `process_equivocations`, `process_offline_counters` and
--   `new_session`. A storage map is an association list, a set of accounts and a bounded vector are
--   lists. Validator.Runs orders these operations freely: one step is one call, report, session
--   boundary or block, or anything that other pallets do to the currency without touching this
--   pallet's locks.
-- - Difficulty: pallets/difficulty/src. Difficulty.Asert.Defs has `compute_next_target` of
--   asert.rs, with its `i128` as integers and its `U256` as bounded numbers; Difficulty.Hook.Defs
--   has the storage, genesis, `on_finalize` and `realtime_difficulty` of lib.rs.
-- - Reward: pallets/reward/src/lib.rs, the reward of a block and its payout.
-- - PoScan: consensus/poscan/src/lib.rs, seals and their verification. The node asks `verify_seal`
--   about the difficulty that Difficulty computes.
-- - Chain: consensus/sc-consensus-pow/src/lib.rs, the finality test, the import of a block up to
--   the inner importer and the verifier's check of the header. Client and algorithm are records of
--   what the code asks them.
-- - Mining: consensus/sc-consensus-pow/src/worker.rs, the worker's queue of builds and the stream
--   that wakes it. Its methods run under locks and are steps in any order; `submit` locks anew
--   between its steps and is three of them.
-- - Inherents: runtime/src/inherent_checks.rs, the timestamp inherent and its limits.
-- - Host: the operations of frame_system, pallet_balances and pallet_vesting that the next three
--   call, on an opaque ledger, with their documented effects; Host.Simple is an instance for the
--   tests.
-- - Claims: pallets/evm-claims/src/lib.rs, the claim of what Frontier kept for an address, and
--   runtime/src/check_nonce.rs (Claims.Signing). Claims.Steps orders signed transactions, the
--   parts of a claim (a carried nonce, a drop of an emptied old account) and the reaping of
--   accounts freely.
-- - Erc20: runtime/src/balances_erc20.rs, the calls of the token with their gas, its allowances and
--   permits.
-- - Frontier: runtime/src/migrations/frontier.rs, the upgrade that moves contracts and accounts. It
--   calls the claims. Its step `pin_signers` establishes the invariant of Claims.Steps, which says
--   nothing of the steps of the upgrade after it.
-- - Forward: node/src/eth_forward.rs, the first block of pallet-revive and the server that answers
--   a call. The binary search runs on fuel, the number of the best block, which its bounds never
--   exceed.
-- - Rpc: node/src/mining_rpc.rs and node/src/object_rpc.rs, and consensus/poscan-pow/src/lib.rs
--   (Rpc.Algorithm).
-- - Identity: runtime/src/identity_info.rs, the fields that an account has filled in.
-- - Runtime: the proxy types, fees, tracks and submitters of runtime/src/configs/mod.rs and
--   runtime/src/configs/governance.rs.
-- - Prime: pallets/prime/src/lib.rs, the prime key and the calls that it guards.
--
-- Conventions. An account is a number, since the pallets only compare accounts. A call returns its new
-- state or its error alone: FRAME runs a call in a storage layer that a failure rolls back. Block
-- numbers are 32-bit words and saturate where the source saturates; a u64 product that may wrap is
-- taken modulo 2 ^ 64. Every other loop of the source is structural recursion over the list or
-- the counter that it walks; that over vesting schedules counts the schedules first.
--
-- Parameters, with what the code relies on as their laws: the currencies of the pallets validator and
-- reward, the answers of pallet_session and of the identity gate, the answers of origin checks that
-- the runtime configures, `U256::bits`, SHA-256, the mesh generator with the scan and its
-- quantisation in floating point, and the SCALE codec of seals; the client, its auxiliary
-- storage and the proof-of-work algorithm of an import; the proposal of a mining task; the codec of
-- extrinsics and the result of the check of inherents; FRAME and pallet-revive where the state of the
-- EVM is at stake (Host and the records of Erc20.Interface and Frontier.State).
--
-- Not modelled: weights and log lines; the floating-point geometry of consensus/obj-asteroid; the
-- rest of the runtime's configuration; the try-runtime checks of the migration; the node's service,
-- subscriptions and command line; and the loop that builds mining tasks.
pub mod Prelude
pub mod Frame
pub mod Host
pub mod Validator
pub mod Difficulty
pub mod Reward
pub mod PoScan
pub mod Prime
pub mod Mining
pub mod Chain
pub mod Claims
pub mod Inherents
pub mod Identity
pub mod Erc20
pub mod Frontier
pub mod Forward
pub mod Rpc
pub mod Runtime
