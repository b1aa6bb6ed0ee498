-- ===== src/Frontier/State.antt =====
-- runtime/src/migrations/frontier.rs: the storage that Frontier left, what pallet-revive offers, and the tally
-- of accesses. Addresses and hashes are the numbers that their bytes spell.
use numen.Prelude.{ℕ, ◌+◌, ◌-◌, ◌^◌, min, Bool, Option, List, [], ◌∷◌}
use numen.Host.Ops.{Dispatched}
use numen.Claims.Defs as Claims

abbrev pub known_addresses : List ℕ
known_addresses =
    0x1 ∷ 0x802 ∷ 0x9cbad5058e4dec314ab374379e96d8ac3faafc
    ∷ 0xdb8300836bd652c361c4158a8e69167cf33571f ∷ 0x11d88cf4a500cd9e5184ca39a7ea5031d935a359
    ∷ 0x1484c2834d1aa025d207f56fd299613684b49ec6 ∷ 0x1c0d1202d6b7983fdc6efad78298eff2b22a4e31
    ∷ 0x24378e467264744246c12e1a8b003af97c1393cb ∷ 0x2e4c21d1da532da62015c697f86b2f3ca297464a
    ∷ 0x478c47d215bbfc43f25fab48b4100bb1bbe1a6dc ∷ 0x5fdfd4d4f6e81424e3ab50d0848d4f0a2a83d86e
    ∷ 0x6b1f4f97dca2909cac79564f7a9625c6427676db ∷ 0x85979a3a0ae53eb4a439aa5013d215e4f6dfada8
    ∷ 0x883fe0af53146b30d0166d7077025a4963deaefb ∷ 0x946ad5a59b3bd16c3d443535a5b7fc07b56f5423
    ∷ 0xa8f6efc25896c24ac6c9441f9f693c14517aa818 ∷ 0xb9cb2b8501933243a4ba5ad0f5fb3a256c8669fb
    ∷ 0xbce52032cf2d4d11abffae6a1ba94c5d3e8cf9dc ∷ 0xc6a7d1f198b9133468933247502c6d9025d32abd
    ∷ 0xdee7fca01ef17dbf22d9a5dc02c877354decaa46 ∷ 0xf5ff20b442ea73f762361246fa782d0c8c9eb21b ∷ []

pub record Slot : Type 0 where
  pub address : ℕ
  pub key : ℕ
  pub value : ℕ

-- The one field of a code's record that the migration changes.
pub record CodeInfo : Type 0 where
  pub refcount : ℕ

-- Frontier's storage: the codes, the addresses with metadata, the slots and the block hashes; `Ethereum`,
-- `BaseFee` and `EVM` have so many further keys. The ledger holds what FRAME and pallet-revive keep.
pub record State (Ledger : Type 0) : Type 0 where
  pub schema : Bool
  pub codes : List (ℕ × List ℕ)
  pub metadata : List ℕ
  pub slots : List Slot
  pub block_hashes : List (ℕ × ℕ)
  pub ethereum_keys : ℕ
  pub base_fee_keys : ℕ
  pub evm_keys : ℕ
  pub revive_hashes : List (ℕ × ℕ)
  pub claims : Claims.State Ledger

-- pallet-revive and the accounts of frame_system, over the ledger.
pub record Revive (Ledger Info : Type 0) : Type 0 where
  pub block_number : Ledger → ℕ
  pub accounts : Ledger → List ℕ
  pub account_id : ℕ
  pub is_contract : Ledger → ℕ → Bool
  pub code_hash : List ℕ → Dispatched ℕ
  pub store_code : Ledger → List ℕ → Dispatched Ledger
  pub code_info : Ledger → ℕ → Option CodeInfo
  pub set_code_info : Ledger → ℕ → CodeInfo → Ledger
  pub new_contract : Ledger → ℕ → ℕ → Dispatched Info
  pub write : Ledger → Info → ℕ → ℕ → Dispatched (Ledger × Info)
  pub sized : Info → ℕ → ℕ → Info
  pub insert_contract : Ledger → ℕ → Info → Ledger
  pub to_fallback_account_id : ℕ → ℕ
  pub init_contract : Ledger → ℕ → Dispatched Ledger
  pub inc_consumers : Ledger → ℕ → Dispatched Ledger
  pub is_eth_derived : Ledger → ℕ → Bool
  pub is_mapped : Ledger → ℕ → Bool
  pub map_no_deposit_unchecked : Ledger → ℕ → Dispatched Ledger
  pub code_info_missing : ℕ

pub record Tally : Type 0 where
  pub reads : ℕ
  pub writes : ℕ

abbrev u64_max : ℕ
u64_max = 2 ^ 64 - 1

abbrev pub read : Tally → ℕ → Tally
read tally count = record tally { reads = min (tally.reads + count) u64_max }

abbrev pub write : Tally → ℕ → Tally
write tally count = record tally { writes = min (tally.writes + count) u64_max }

-- The tally outlives a failure; the storage does not.
infixl 5 ◌>>-◌
abbrev pub ◌>>-◌ {ℓ κ} :
    {A : Type ℓ} {B : Type κ}
    → Tally × Dispatched A
    → (A → Tally → Tally × Dispatched B)
    → Tally × Dispatched B
(tally, Dispatched.failed reason) >>- next = (tally, Dispatched.failed reason)
(tally, Dispatched.ok a) >>- next = next a tally

-- `with_storage_layer`, whose failure is logged.
abbrev pub layered {ℓ} : {A : Type ℓ} → A → Tally × Dispatched A → A × Tally
layered before (tally, Dispatched.failed reason) = (before, tally)
layered before (tally, Dispatched.ok after) = (after, tally)
