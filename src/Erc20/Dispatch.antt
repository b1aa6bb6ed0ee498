-- ===== src/Erc20/Dispatch.antt =====
-- runtime/src/balances_erc20.rs: `BalancesErc20::call`, the guards and the dispatch.
use numen.Prelude.{ℕ, Bool, true, false, not, ◌&&◌, List, ◌==◌, if◌then◌else◌}
use numen.Host.Ops.{Host}
use numen.Erc20.Interface.{
  Ext, State, Call, name_call, symbol_call, decimals_call, total_supply_call, balance_of_call,
  allowance_call, approve_call, transfer_call, transfer_from_call, withdraw_call, deposit_call,
  nonces_call, domain_separator_call, permit_call, Outcome, done, error, reverted, call_the_token,
  non_static_call, not_payable,
}
use numen.Erc20.Literals.{name, symbol, decimals, token_address}
use numen.Erc20.Ops.{
  total_supply, balance_of, allowance, approve, transfer, transfer_from, withdraw, deposit, nonces,
}
use numen.Erc20.Permit.{domain, permit}

-- The calls that the `matches!` names.
abbrev pub writes : Call → Bool
writes (approve_call spender value) = true
writes (transfer_call to value) = true
writes (transfer_from_call from to value) = true
writes (withdraw_call dest value) = true
writes deposit_call = true
writes (permit_call call) = true
writes _ = false

abbrev pub is_deposit : Call → Bool
is_deposit deposit_call = true
is_deposit _ = false

module _ {Ledger Meter : Type 0} (host : Host Ledger) (env : Ext Ledger Meter) where
  abbrev pub dispatch : Call → State Ledger Meter → Outcome (List ℕ × State Ledger Meter)
  dispatch name_call s = done (env.encode_string name, s)
  dispatch symbol_call s = done (env.encode_string symbol, s)
  dispatch decimals_call s = done (env.encode_word decimals, s)
  dispatch total_supply_call s = total_supply host env s
  dispatch (balance_of_call owner) s = balance_of host env owner s
  dispatch (allowance_call owner spender) s = allowance host env owner spender s
  dispatch (approve_call spender value) s = approve host env spender value s
  dispatch (transfer_call to value) s = transfer host env to value s
  dispatch (transfer_from_call from to value) s = transfer_from host env from to value s
  dispatch (withdraw_call dest value) s = withdraw host env dest value s
  dispatch deposit_call s = deposit host env s
  dispatch (nonces_call owner) s = nonces host env owner s
  dispatch domain_separator_call s = domain host env s
  dispatch (permit_call call) s = permit host env call s

  unfoldable pub call : Call → State Ledger Meter → Outcome (List ℕ × State Ledger Meter)
  unfolding total_supply balance_of allowance approve transfer transfer_from withdraw deposit nonces
      domain permit
  call input s =
      if not (env.address == token_address)
      then error (reverted call_the_token)
      else if writes input && env.read_only
      then error (reverted non_static_call)
      else if not (is_deposit input) && not (env.value_transferred == 0)
      then error (reverted not_payable)
      else dispatch input s
