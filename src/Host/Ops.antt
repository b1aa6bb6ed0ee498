-- ===== src/Host/Ops.antt =====
-- The operations of FRAME that pallets/evm-claims/src/lib.rs, runtime/src/check_nonce.rs,
-- runtime/src/balances_erc20.rs and runtime/src/migrations/frontier.rs call. An account is the number
-- that its 32 bytes spell, the first byte highest.
use numen.Prelude.{ℕ, ◌≡◌, refl, Bool, List}

-- A call that returns a `DispatchError` leaves no trace: its caller hands the error on, and the storage
-- layer around it is rolled back.
pub data Dispatched {ℓ} (A : Type ℓ) : Type ℓ where
  ok : A → Dispatched A
  failed : ℕ → Dispatched A

infixl 5 ◌>>=◌
abbrev pub ◌>>=◌ {ℓ κ} :
    {A : Type ℓ} {B : Type κ} → Dispatched A → (A → Dispatched B) → Dispatched B
failed reason >>= next = failed reason
ok value >>= next = next value

pub bind_elim {ℓ κ μ} :
    {A : Type ℓ} {B : Type κ} {C : Type μ} (m : Dispatched A) (f : A → Dispatched B) {b : B}
    → (m >>= f) ≡ ok b
    → ((a : A) → m ≡ ok a → f a ≡ ok b → C)
    → C
bind_elim (failed reason) f h k = cc
bind_elim (ok a) f h k = k a refl h

pub ok-injective {ℓ} : {A : Type ℓ} {a b : A} → ok a ≡ ok b → a ≡ b
ok-injective h = cc

pub data Preservation : Type 0 where
  expendable preserve : Preservation

-- `VestingInfo`.
pub record Schedule : Type 0 where
  pub locked : ℕ
  pub per_block : ℕ
  pub starting_block : ℕ

pub record Host (Ledger : Type 0) : Type 0 where
  -- frame_system: the fields of an account, the writes of the nonce, `inc_providers`,
  -- `account_exists` and `Account::remove`.
  pub nonce : Ledger → ℕ → ℕ
  pub set_nonce : Ledger → ℕ → ℕ → Ledger
  pub providers : Ledger → ℕ → ℕ
  pub inc_providers : Ledger → ℕ → Ledger
  pub consumers : Ledger → ℕ → ℕ
  pub account_exists : Ledger → ℕ → Bool
  pub remove_account : Ledger → ℕ → Ledger
  -- pallet_balances; `reducible` is `reducible_balance(_, Expendable, Polite)`.
  pub balance : Ledger → ℕ → ℕ
  pub total_balance : Ledger → ℕ → ℕ
  pub reserved_balance : Ledger → ℕ → ℕ
  pub reducible : Ledger → ℕ → ℕ
  pub has_freezes : Ledger → ℕ → Bool
  pub locks : Ledger → ℕ → List ℕ
  pub minimum_balance : ℕ
  pub total_issuance : Ledger → ℕ
  pub active_issuance : Ledger → ℕ
  pub transfer : Ledger → ℕ → ℕ → ℕ → Preservation → Dispatched Ledger
  pub mint_into : Ledger → ℕ → ℕ → Dispatched Ledger
  pub deactivate : Ledger → ℕ → Ledger
  pub withdraw : Ledger → ℕ → ℕ → Dispatched (Ledger × ℕ)
  -- pallet_vesting; `has_schedules` is `contains_key`.
  pub vesting_now : Ledger → ℕ
  pub has_schedules : Ledger → ℕ → Bool
  pub schedules : Ledger → ℕ → List Schedule
  pub locked_at : Schedule → ℕ → ℕ
  pub remove_schedule : Ledger → ℕ → ℕ → Dispatched Ledger
  pub add_schedule : Ledger → ℕ → Schedule → Dispatched Ledger
