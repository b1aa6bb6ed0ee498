-- ===== src/Validator/Leaving.antt =====
-- `request_exit` of pallets/validator/src/lib.rs: exactly when it succeeds, and with what.
use numen.Prelude.{ℕ, ◌≡◌, some, arith}
use numen.Prelude.Maps.{lookup}
use numen.Validator.Defs.State.{LockInfo, active, exit_requested, State}
use numen.Frame.{signed}
use numen.Validator.Defs.Calls.{ok, leave, request_exit}

module _ {Ledger : Type 0} where
  pub request_exit-lock :
      (s : State Ledger) (who : ℕ) {t : State Ledger}
      → request_exit s (signed who) ≡ ok t
      → (info : LockInfo) × (lookup who s.locks ≡ some info)
        × (info.status ≡ active)
        × (t ≡ leave s who (record info { status = exit_requested }))
  unfolding request_exit
  request_exit-lock s who h = ground arith
