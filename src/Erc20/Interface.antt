-- ===== src/Erc20/Interface.antt =====
-- runtime/src/balances_erc20.rs: the interface of the token, its storage, and what pallet-revive gives a
-- precompile. Addresses, words and amounts are the numbers that their bytes spell.
use numen.Prelude.{ℕ, ◌≡◌, refl, Bool, Option, List}

pub record PermitCall : Type 0 where
  pub owner : ℕ
  pub spender : ℕ
  pub value : ℕ
  pub deadline : ℕ
  pub v : ℕ
  pub r : List ℕ
  pub s : List ℕ

pub data Call : Type 0 where
  name_call symbol_call decimals_call total_supply_call deposit_call domain_separator_call : Call
  balance_of_call nonces_call : ℕ → Call
  allowance_call : ℕ → ℕ → Call
  approve_call transfer_call withdraw_call : ℕ → ℕ → Call
  transfer_from_call : ℕ → ℕ → ℕ → Call
  permit_call : PermitCall → Call

pub data Event : Type 0 where
  transfer_event approval_event withdrawal_event : ℕ → ℕ → ℕ → Event
  deposit_event : ℕ → ℕ → Event

-- The reasons of `revert`, by the texts that they stand for.
pub data Reason : Type 0 where
  call_the_token non_static_call not_payable : Reason
  insufficient_allowance cannot_deposit_zero amount_overflow no_account : Reason
  transfer_failed refund_failed permit_expired invalid_permit : Reason

pub data Error : Type 0 where
  reverted : Reason → Error
  dispatched : ℕ → Error
  out_of_gas : Error

-- A call that ends in an error is undone, so it hands on no state.
pub data Outcome {ℓ} (A : Type ℓ) : Type ℓ where
  done : A → Outcome A
  error : Error → Outcome A

infixl 5 ◌>>=◌
abbrev pub ◌>>=◌ {ℓ κ} : {A : Type ℓ} {B : Type κ} → Outcome A → (A → Outcome B) → Outcome B
error e >>= next = error e
done value >>= next = next value

pub bind_elim {ℓ κ μ} :
    {A : Type ℓ} {B : Type κ} {C : Type μ} (m : Outcome A) (f : A → Outcome B) {b : B}
    → (m >>= f) ≡ done b
    → ((a : A) → m ≡ done a → f a ≡ done b → C)
    → C
bind_elim (error e) f h k = cc
bind_elim (done a) f h k = k a refl h

pub done-injective {ℓ} : {A : Type ℓ} {a b : A} → done a ≡ done b → a ≡ b
done-injective h = cc

-- The `RuntimeCosts` that are charged.
pub data Token : Type 0 where
  balance_of_token caller_token to_account_id_token : Token
  ecdsa_recovery_token ecdsa_to_eth_address_token : Token
  hash_keccak256_token : ℕ → Token
  deposit_event_token : ℕ → ℕ → Token

-- pallet-revive and the codec: the frame that a call runs in, its meter, the mapping of addresses and the
-- cryptography. `log_data` counts the topics and the bytes of an event.
pub record Ext (Ledger Meter : Type 0) : Type 1 where
  pub address : ℕ
  pub read_only : Bool
  pub value_transferred : ℕ
  pub account_id : ℕ
  pub caller_account : Option ℕ
  pub now : ℕ
  pub chain_id : ℕ
  pub balance_of : Ledger → ℕ → ℕ
  pub to_address : ℕ → ℕ
  pub to_account_id : Ledger → ℕ → ℕ
  pub keccak256 : List ℕ → List ℕ
  pub ecdsa_recover : List ℕ → List ℕ → Option (List ℕ)
  pub ecdsa_to_eth_address : List ℕ → Option ℕ
  pub log_data : Event → ℕ × ℕ
  pub Weight : Type 0
  pub saturating_add : Weight → Weight → Weight
  pub transfer_keep_alive : Weight
  pub reads : ℕ → Weight
  pub writes : ℕ → Weight
  pub charge : Meter → Weight → Option Meter
  pub charge_weight_token : Meter → Token → Option Meter
  pub encode_string : List ℕ → List ℕ
  pub encode_word : ℕ → List ℕ
  pub encode_bool : Bool → List ℕ
  pub encode_bytes : List ℕ → List ℕ

pub record State (Ledger Meter : Type 0) : Type 0 where
  pub ledger : Ledger
  pub meter : Meter
  pub allowances : ℕ → ℕ → ℕ
  pub nonces : ℕ → ℕ
  pub events : List Event
