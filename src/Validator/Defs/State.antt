-- ===== src/Validator/Defs/State.antt =====
-- pallets/validator/src/lib.rs: the types, the configuration and the storage of the pallet.
-- Accounts are numbers, since the pallet only compares them; block numbers are 32-bit words.
use numen.Prelude.{ℕ, ◌≡◌, Bool, List, [], ◌==◌, if◌then◌else◌}
use numen.Prelude.Maps.{Map}

pub data ValidatorStatus : Type 0 where
  active exit_requested kicked : ValidatorStatus

pub record LockInfo : Type 0 where
  pub amount : ℕ
  pub lock_block : ℕ
  pub expiry_block : ℕ
  pub status : ValidatorStatus

pub data KickReason : Type 0 where
  offline equivocation : KickReason

pub data Event : Type 0 where
  validator_locked : ℕ → ℕ → ℕ → Event
  validator_exit_requested : ℕ → Event
  validator_kicked : ℕ → KickReason → Event
  lock_released : ℕ → ℕ → Event
  equivocation_reported : ℕ → Event
  pending_validator_dropped : ℕ → Event
  stake_exempt_set : ℕ → Bool → Event

pub data Error : Type 0 where
  already_validator not_validator invalid_status lock_not_expired in_cooldown : Error
  insufficient_balance too_many_validators session_keys_not_registered : Error
  identity_not_qualified bad_origin : Error

-- The constants of the `Config` trait.
pub record Config : Type 0 where
  pub lock_amount : ℕ
  pub lock_duration : ℕ
  pub max_validators : ℕ
  pub renew_interval : ℕ
  pub offline_threshold : ℕ
  pub rejoin_cooldown_period : ℕ

-- What other pallets answer while a block runs: `SessionInterface::has_keys` and
-- `IdentityGate::contains`.
pub record Gates : Type 0 where
  pub has_keys : ℕ → Bool
  pub identity_qualified : ℕ → Bool

-- `LockableCurrency`, which the pallet balances implements: the calls that this pallet makes, the
-- amount that an account has under this pallet's `LockId`, and how the calls change it.
pub record Currency (Ledger : Type 0) : Type 0 where
  pub free_balance : Ledger → ℕ → ℕ
  pub set_lock : Ledger → ℕ → ℕ → Ledger
  pub remove_lock : Ledger → ℕ → Ledger
  pub locked : Ledger → ℕ → ℕ
  pub locked-set_lock :
      (l : Ledger) (who amount j : ℕ)
      → locked (set_lock l who amount) j ≡ (if j == who then amount else locked l j)
  pub locked-remove_lock :
      (l : Ledger) (who j : ℕ) → locked (remove_lock l who) j ≡ (if j == who then 0 else locked l j)

-- The storage items, the block number of frame_system, the currency and the deposited events
-- (the latest first).
pub record State (Ledger : Type 0) : Type 0 where
  pub locks : Map LockInfo
  pub pending : List ℕ
  pub desired : List ℕ
  pub exempt : List ℕ
  pub cooldown : Map ℕ
  pub offline_count : Map ℕ
  pub offline_now : List ℕ
  pub equivocations : List ℕ
  pub block_number : ℕ
  pub ledger : Ledger
  pub events : List Event

abbrev pub empty_state : {Ledger : Type 0} → Ledger → State Ledger
empty_state l = record {
  locks = [];
  pending = [];
  desired = [];
  exempt = [];
  cooldown = [];
  offline_count = [];
  offline_now = [];
  equivocations = [];
  block_number = 0;
  ledger = l;
  events = [];
}
