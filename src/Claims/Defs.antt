-- ===== src/Claims/Defs.antt =====
-- pallets/evm-claims/src/lib.rs: the claim of what Frontier kept for an H160.
use numen.Prelude.{
  ℕ, zero, suc, min, ◌+◌, ◌/◌, ◌%◌, Bool, true, false, not, ◌&&◌, ◌||◌, Option, none, some, List,
  [], ◌∷◌, ltb, leb, ◌==◌, if◌then◌else◌, length, u32_mod,
}
use numen.Host.Ops.{Host, Dispatched, ok, ◌>>=◌, expendable, Schedule}
use numen.Claims.Accounts.{revive_account, legacy_account, ee_tail, tail_mod}

-- The constants of the `Config` trait, with the hash that `legacy_account` takes and `OnClaimFee`.
pub record Config (Ledger : Type 0) : Type 0 where
  pub claim_fee : ℕ
  pub max_vesting_schedules : ℕ
  pub blake2_256 : List ℕ → ℕ
  pub on_claim_fee : Ledger → ℕ → Ledger

pub data Event : Type 0 where
  claimed : ℕ → ℕ → ℕ → ℕ → Event

pub record State (Ledger : Type 0) : Type 0 where
  pub ledger : Ledger
  pub events : List Event

-- The bytes "vesting ".
abbrev pub vesting_id : ℕ
vesting_id = 0x76657374696e6720

abbrev pub all_vesting : List ℕ → Bool
all_vesting [] = true
all_vesting (id ∷ rest) = id == vesting_id && all_vesting rest

-- What `authorize_claim` refuses a claim with.
pub data Refusal : Type 0 where
  nothing_to_claim no_room_for_vesting : Refusal

module _ {Ledger : Type 0} (host : Host Ledger) where
  open host use {
    nonce, set_nonce, inc_providers, consumers, remove_account, balance, total_balance,
    reserved_balance, reducible, has_freezes, locks, minimum_balance, transfer, mint_into,
    deactivate, withdraw, vesting_now, has_schedules, schedules, locked_at, remove_schedule,
    add_schedule,
  }

  unfoldable pub movable : Ledger → ℕ → Bool
  movable l legacy =
      reserved_balance l legacy == 0 && not (has_freezes l legacy) && all_vesting (locks l legacy)

  unfoldable pub carry_nonce : Ledger → ℕ → ℕ → Ledger × ℕ
  carry_nonce l legacy account =
      let reached = nonce l legacy in
      let current = nonce l account in
      if leb reached current then (l, current) else (
        set_nonce (if current == 0 then inc_providers l account else l) account reached,
        reached,
      )

  -- The `while` loop over the vesting schedules of the old account, with fuel.
  unfoldable pub clear_vesting : ℕ → Ledger → ℕ → Dispatched Ledger
  clear_vesting zero l legacy = ok l
  clear_vesting (suc fuel) l legacy = elim (has_schedules l legacy) [
    | true ↦ remove_schedule l legacy 0 >>= λ l'. clear_vesting fuel l' legacy
    | false ↦ ok l
  ]

  -- The `for` loop that adds them to the new account.
  unfoldable pub restore_vesting : ℕ → Ledger → ℕ → List Schedule → Dispatched Ledger
  restore_vesting now l account [] = ok l
  restore_vesting now l account (schedule ∷ rest) = elim (locked_at schedule now == 0) [
    | true ↦ restore_vesting now l account rest
    | false ↦ add_schedule l account schedule >>= λ l'. restore_vesting now l' account rest
  ]

  -- An inactive existential deposit for an account that holds nothing.
  unfoldable pub open_account : Ledger → ℕ → Dispatched Ledger
  open_account l account =
      if total_balance l account == 0
      then (mint_into l account minimum_balance >>= λ l'. ok (deactivate l' minimum_balance))
      else ok l

  unfoldable pub move_funds : Ledger → ℕ → ℕ → Dispatched Ledger
  unfolding clear_vesting restore_vesting open_account
  move_funds l legacy account = do
    let now = vesting_now l
    let vested = schedules l legacy
    cleared ← clear_vesting (length vested) l legacy
    opened ← open_account cleared account
    moved ← transfer opened legacy account (balance l legacy) expendable
    restore_vesting now moved account vested

  unfoldable pub move_balance : Ledger → ℕ → ℕ → Dispatched (Ledger × ℕ)
  unfolding move_funds
  move_balance l legacy account =
      if balance l legacy == 0
      then ok (l, 0)
      else (move_funds l legacy account >>= λ l'. ok (l', balance l legacy))

  -- The old account is dropped once nothing is left on it.
  unfoldable pub drop_empty : Ledger → ℕ → Ledger
  drop_empty l legacy =
      if consumers l legacy == 0 && total_balance l legacy == 0 then remove_account l legacy else l

  unfoldable pub spendable : Ledger → ℕ → ℕ
  spendable l who = reducible l who

  unfoldable pub schedule_count : Ledger → ℕ → ℕ
  schedule_count l who = length (schedules l who)

  module _ (cfg : Config Ledger) where
    abbrev pub legacy_of : ℕ → ℕ
    legacy_of address = legacy_account cfg.blake2_256 address

    unfoldable pub move_legacy : State Ledger → ℕ → Dispatched (State Ledger)
    unfolding movable carry_nonce move_balance drop_empty
    move_legacy s address =
        let legacy = legacy_of address in
        let account = revive_account address in
        let carried = carry_nonce s.ledger legacy account in
        (if movable carried.0 legacy
          then move_balance carried.0 legacy account
          else ok (carried.0, 0))
        >>= λ moved. ok (record {
          ledger = drop_empty moved.0 legacy;
          events = claimed address account moved.1 carried.1 ∷ s.events;
        })

    unfoldable pub lift_nonce : Ledger → ℕ → Ledger
    unfolding carry_nonce
    lift_nonce l who =
        if not (who % tail_mod == ee_tail) || not (nonce l who == 0)
        then l
        else (carry_nonce l (legacy_of (who / tail_mod)) who).0

    unfoldable pub fee_due : Ledger → ℕ → ℕ
    unfolding movable spendable
    fee_due l legacy = if movable l legacy then min cfg.claim_fee (spendable l legacy) else 0

    unfoldable pub pay_fee : Ledger → ℕ → ℕ → Dispatched Ledger
    pay_fee l account fee =
        if fee == 0
        then ok l
        else (withdraw l account fee >>= λ paid. ok (cfg.on_claim_fee paid.0 paid.1))

    -- The call itself; `authorize_claim` stands before it.
    unfoldable pub claim : State Ledger → ℕ → Dispatched (State Ledger)
    unfolding move_legacy fee_due pay_fee
    claim s address = do
      let fee = fee_due s.ledger (legacy_of address)
      moved ← move_legacy s address
      paid ← pay_fee moved.ledger (revive_account address) fee
      ok (record moved { ledger = paid })

    -- `none` authorizes the claim.
    unfoldable pub authorize_claim : Ledger → ℕ → Option Refusal
    unfolding movable spendable schedule_count
    authorize_claim l address =
        let legacy = legacy_of address in
        let account = revive_account address in
        let nonce_due = ltb (nonce l account) (nonce l legacy) in
        let funds_due = movable l legacy && ltb cfg.claim_fee (spendable l legacy) in
        if not (nonce_due || funds_due)
        then some nothing_to_claim
        else if ltb cfg.max_vesting_schedules
            ((schedule_count l legacy + schedule_count l account) % u32_mod)
        then some no_room_for_vesting
        else none

    unfoldable pub claimable : Ledger → ℕ → Bool
    unfolding movable
    claimable l address =
        let legacy = legacy_of address in
        (movable l legacy && not (balance l legacy == 0))
        || ltb (nonce l (revive_account address)) (nonce l legacy)
