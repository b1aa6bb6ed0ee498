-- ===== src/Claims/Signing.antt =====
-- runtime/src/check_nonce.rs: `CheckNonceKeepSigned` around frame_system's `CheckNonce`.
use numen.Prelude.{ℕ, Bool, Option, none, some, ◌==◌, if◌then◌else◌}
use numen.Host.Ops.{Host, Dispatched, ok, ◌>>=◌}
use numen.Claims.Defs.{Config, lift_nonce}

-- What the transaction has signed over, by its signer and the nonce that it carries.
pub record Signed : Type 0 where
  pub signer : ℕ
  pub nonce : ℕ

-- frame_system's `CheckNonce`: a validation, whose answer the preparation takes.
pub record Inner (Ledger : Type 0) : Type 0 where
  pub validate : Ledger → Option Signed → Dispatched ℕ
  pub prepare : Ledger → Option Signed → ℕ → Dispatched Ledger

module _ {Ledger : Type 0} (host : Host Ledger) (cfg : Config Ledger) (inner : Inner Ledger) where
  abbrev pub lifted_for : Ledger → Option Signed → Ledger
  lifted_for l none = l
  lifted_for l (some tx) = lift_nonce host cfg l tx.signer

  -- `validate`: the ledger with the lift, and the inner check's answer.
  unfoldable pub validate : Ledger → Option Signed → Dispatched (Ledger × ℕ)
  unfolding lift_nonce
  validate l tx = do let lifted = lifted_for l tx; val ← inner.validate lifted tx; ok (lifted, val)

  abbrev pub is_first : Ledger → Option Signed → Bool
  is_first l none = Bool.false
  is_first l (some tx) = host.nonce l tx.signer == 0

  abbrev pub kept_for : Ledger → Option Signed → Ledger
  kept_for l none = l
  kept_for l (some tx) = host.inc_providers l tx.signer

  unfoldable pub prepare : Ledger → Option Signed → ℕ → Dispatched Ledger
  prepare l tx val = do
    let first = is_first l tx
    l' ← inner.prepare l tx val
    ok (if first then kept_for l' tx else l')

  -- A transaction in a block: the one after the other.
  unfoldable pub check_nonce : Ledger → Option Signed → Dispatched Ledger
  unfolding validate prepare
  check_nonce l tx = do valid ← validate l tx; prepare valid.0 tx valid.1
