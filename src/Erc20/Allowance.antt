-- ===== src/Erc20/Allowance.antt =====
-- runtime/src/balances_erc20.rs: what a spender can take out of an owner's account over a run of calls.
use numen.Prelude.{ℕ, ◌+◌, ◌≡◌, Bool, false, ◌&&◌, Option, none, some, List, ◌==◌, if◌then◌else◌}
use numen.Host.Ops.{Host}
use numen.Erc20.Interface.{Ext, State, Call, approve_call, transfer_from_call, permit_call, done}
use numen.Erc20.Dispatch.{call}

abbrev pub maps_to : (ℕ → ℕ) → Option ℕ → ℕ → Bool
maps_to to_address none who = false
maps_to to_address (some account) who = to_address account == who

module _ {Ledger Meter : Type 0} (host : Host Ledger) (owner spender : ℕ) where
  abbrev caller_is : Ext Ledger Meter → ℕ → Bool
  caller_is env who = maps_to env.to_address env.caller_account who

  -- What a call takes of the owner's funds on behalf of the spender.
  abbrev pub takes : Ext Ledger Meter → Call → ℕ
  takes env (transfer_from_call from to value) =
      if from == owner && caller_is env spender then value else 0
  takes env _ = 0

  -- What a call lets the spender take.
  abbrev pub gives : Ext Ledger Meter → Call → ℕ
  gives env (approve_call to value) = if to == spender && caller_is env owner then value else 0
  gives env (permit_call c) = if c.owner == owner && c.spender == spender then c.value else 0
  gives env _ = 0

  -- A run of the token: what the calls have taken and given in all. Between them anything can happen that
  -- leaves the allowances.
  pub data Run (s : State Ledger Meter) : State Ledger Meter → ℕ → ℕ → Type 1 where
    start : Run s s 0 0
    called :
        {t u : State Ledger Meter} {taken given : ℕ} (env : Ext Ledger Meter) (input : Call)
        {out : List ℕ}
        → Run s t taken given
        → call host env input t ≡ done (out, u)
        → Run s u (taken + takes env input) (given + gives env input)
    elsewhere :
        {t u : State Ledger Meter} {taken given : ℕ}
        → Run s t taken given
        → u.allowances ≡ t.allowances
        → Run s u taken given
