-- ===== src/Erc20/Ops.antt =====
-- runtime/src/balances_erc20.rs: the calls of the token, but for the permit.
use numen.Prelude.{
  ℕ, ◌-◌, ◌^◌, true, ◌&&◌, Option, none, some, List, [], ◌∷◌, ltb, leb, ◌==◌, if◌then◌else◌,
}
use numen.Host.Ops.{Host, Dispatched, ok, failed, preserve}
use numen.Erc20.Interface.{
  Ext, State, Event, transfer_event, approval_event, withdrawal_event, deposit_event, Outcome, done,
  error, ◌>>=◌, reverted, dispatched, out_of_gas, Reason, insufficient_allowance,
  cannot_deposit_zero, amount_overflow, no_account, transfer_failed, refund_failed, Token,
  balance_of_token, caller_token, to_account_id_token, deposit_event_token,
}

abbrev pub u128_mod : ℕ
u128_mod = 2 ^ 128

abbrev pub revert {ℓ} : {A : Type ℓ} → Reason → Outcome A
revert reason = error (reverted reason)

abbrev pub ok_or {ℓ} : {A : Type ℓ} → Option A → Reason → Outcome A
ok_or none reason = revert reason
ok_or (some a) reason = done a

-- `map_err` to a reason, and the conversion of a `DispatchError`.
abbrev pub map_err {ℓ} : {A : Type ℓ} → Dispatched A → Reason → Outcome A
map_err (ok a) reason = done a
map_err (failed e) reason = revert reason

abbrev pub lifted {ℓ} : {A : Type ℓ} → Dispatched A → Outcome A
lifted (ok a) = done a
lifted (failed e) = error (dispatched e)

abbrev pub try_from : ℕ → Outcome ℕ
try_from value = if ltb value u128_mod then done value else revert amount_overflow

abbrev pub checked_sub : ℕ → ℕ → Option ℕ
checked_sub a b = if leb b a then some (a - b) else none

-- A write of the map of allowances.
abbrev pub insert : (ℕ → ℕ → ℕ) → ℕ → ℕ → ℕ → ℕ → ℕ → ℕ
insert allowances owner spender value o p =
    if o == owner && p == spender then value else allowances o p

abbrev pub metered :
    {Ledger Meter : Type 0} → State Ledger Meter → Option Meter → Outcome (State Ledger Meter)
metered s none = error out_of_gas
metered s (some meter) = done (record s { meter = meter })

module _ {Ledger Meter : Type 0} (host : Host Ledger) (env : Ext Ledger Meter) where
  abbrev Run : Type 0 → Type 0
  Run A = State Ledger Meter → Outcome (A × State Ledger Meter)

  unfoldable pub charge : env.Weight → State Ledger Meter → Outcome (State Ledger Meter)
  charge weight s = metered s (env.charge s.meter weight)

  unfoldable pub charge_token : Token → State Ledger Meter → Outcome (State Ledger Meter)
  charge_token token s = metered s (env.charge_weight_token s.meter token)

  abbrev pub transfer_weight : env.Weight
  transfer_weight = env.saturating_add env.transfer_keep_alive (env.writes 2)

  -- The account and the address of the caller.
  unfoldable pub caller : Run (ℕ × ℕ)
  unfolding charge_token
  caller s = do
    s ← charge_token caller_token s
    account ← ok_or env.caller_account no_account
    done ((account, env.to_address account), s)

  unfoldable pub account_of : ℕ → Run ℕ
  unfolding charge_token
  account_of address s = do
    s ← charge_token to_account_id_token s
    done (env.to_account_id s.ledger address, s)

  unfoldable pub emit : Event → State Ledger Meter → Outcome (State Ledger Meter)
  unfolding charge_token
  emit event s = do
    s ← charge_token (deposit_event_token (env.log_data event).0 (env.log_data event).1) s
    done (record s { events = event ∷ s.events })

  -- An existential deposit for an account that does not exist yet.
  unfoldable pub open_recipient : Ledger → ℕ → Outcome Ledger
  open_recipient l to =
      if host.account_exists l to
      then done l
      else (lifted (host.mint_into l to host.minimum_balance) >>= λ l'.
          done (host.deactivate l' host.minimum_balance))

  unfoldable pub send : Ledger → ℕ → ℕ → ℕ → Outcome Ledger
  unfolding open_recipient
  send l from to amount = do
    opened ← open_recipient l to
    map_err (host.transfer opened from to amount preserve) transfer_failed

  unfoldable pub move_funds : ℕ → ℕ → ℕ → State Ledger Meter → Outcome (State Ledger Meter)
  unfolding send
  move_funds from to value s = do
    amount ← try_from value
    if amount == 0
        then done s
        else (send s.ledger from to amount >>= λ l. done (record s { ledger = l }))

  unfoldable pub total_supply : Run (List ℕ)
  unfolding charge
  total_supply s = do
    s ← charge (env.reads 1) s
    done (env.encode_word (host.total_issuance s.ledger), s)

  unfoldable pub balance_of : ℕ → Run (List ℕ)
  unfolding charge_token
  balance_of owner s = do
    s ← charge_token balance_of_token s
    done (env.encode_word (env.balance_of s.ledger owner), s)

  unfoldable pub allowance : ℕ → ℕ → Run (List ℕ)
  unfolding charge
  allowance owner spender s = do
    s ← charge (env.reads 1) s
    done (env.encode_word (s.allowances owner spender), s)

  unfoldable pub approve : ℕ → ℕ → Run (List ℕ)
  unfolding charge caller emit
  approve spender value s = do
    s ← charge (env.writes 1) s
    called ← caller s
    let owner = called.0.1
    let s = called.1
    s ←
        emit (approval_event owner spender value)
          (record s { allowances = insert s.allowances owner spender value })
    done (env.encode_bool true, s)

  unfoldable pub transfer : ℕ → ℕ → Run (List ℕ)
  unfolding charge caller account_of move_funds emit
  transfer to value s = do
    s ← charge transfer_weight s
    called ← caller s
    target ← account_of to called.1
    s ← move_funds called.0.0 target.0 value target.1
    s ← emit (transfer_event called.0.1 to value) s
    done (env.encode_bool true, s)

  -- What a transfer from another account takes off its allowance.
  unfoldable pub spend : ℕ → ℕ → ℕ → State Ledger Meter → Outcome (State Ledger Meter)
  spend from spender value s =
      if from == spender
      then done s
      else (ok_or (checked_sub (s.allowances from spender) value) insufficient_allowance >>= λ left.
          done (record s { allowances = insert s.allowances from spender left }))

  unfoldable pub transfer_from : ℕ → ℕ → ℕ → Run (List ℕ)
  unfolding charge caller account_of move_funds emit spend
  transfer_from from to value s = do
    s ←
        charge
          (env.saturating_add (env.saturating_add transfer_weight (env.reads 1)) (env.writes 1)) s
    called ← caller s
    s ← spend from called.0.1 value called.1
    source ← account_of from s
    target ← account_of to source.1
    s ← move_funds source.0 target.0 value target.1
    s ← emit (transfer_event from to value) s
    done (env.encode_bool true, s)

  unfoldable pub withdraw : ℕ → ℕ → Run (List ℕ)
  unfolding charge caller move_funds emit
  withdraw dest value s = do
    s ← charge transfer_weight s
    called ← caller s
    s ← move_funds called.0.0 dest value called.1
    s ← emit (withdrawal_event called.0.1 dest value) s
    done (env.encode_bool true, s)

  unfoldable pub refund : State Ledger Meter → Outcome (List ℕ × State Ledger Meter)
  unfolding caller emit
  refund s = do
    called ← caller s
    amount ← try_from env.value_transferred
    let s = called.1
    l ← map_err (host.transfer s.ledger env.account_id called.0.0 amount preserve) refund_failed
    s ← emit (deposit_event called.0.1 env.value_transferred) (record s { ledger = l })
    done ([], s)

  unfoldable pub deposit : Run (List ℕ)
  unfolding charge refund
  deposit s = do
    s ← charge transfer_weight s
    if env.value_transferred == 0 then revert cannot_deposit_zero else refund s

  unfoldable pub nonces : ℕ → Run (List ℕ)
  unfolding charge
  nonces owner s = do s ← charge (env.reads 1) s; done (env.encode_word (s.nonces owner), s)
