-- ===== src/Claims/Authorized.antt =====
-- pallets/evm-claims/src/lib.rs: what an authorized claim finds to move, and the loop over its schedules.
use numen.Prelude.{ℕ, zero, suc, ◌≤◌, ◌<◌, ◌≡◌, refl, Bool, true, false, none, arith, length}
use numen.Host.Ops.{Host, Dispatched, ok, ◌>>=◌, bind_elim, ok-injective}
use numen.Host.Laws.{FundLaws, VestingLaws}
use numen.Claims.Accounts.{revive_account}
use numen.Claims.Defs.{
  Config, clear_vesting, authorize_claim, claimable, spendable, legacy_of, fee_due,
}

module _ {Ledger : Type 0} (host : Host Ledger) (cfg : Config Ledger) where
  -- A claim that is authorized has something to move: the old account holds funds that can move, or a
  -- nonce above that of the new account. This needs a spendable balance to be part of the balance.
  pub authorize_claim-claimable :
      FundLaws host
      → (l : Ledger) (address : ℕ) → authorize_claim host cfg l address ≡ none
      → claimable host cfg l address ≡ true
  unfolding authorize_claim claimable spendable
  authorize_claim-claimable laws l address h =
      ground (arith, laws.reducible-balance l (legacy_of host cfg address))

  -- A claim that is authorized for its funds alone moves more than it costs: the fee is the whole fee, and
  -- the spendable balance is above it.
  pub authorize_claim-fee_due :
      (l : Ledger) (address : ℕ)
      → authorize_claim host cfg l address ≡ none
      → host.nonce l (legacy_of host cfg address) ≤ host.nonce l (revive_account address)
      → (fee_due host cfg l (legacy_of host cfg address) ≡ cfg.claim_fee)
        × (cfg.claim_fee < host.reducible l (legacy_of host cfg address))
  unfolding authorize_claim fee_due spendable
  authorize_claim-fee_due l address h p = ground arith

  module _ (laws : VestingLaws host) where
    -- The loop that removes the schedules ends with none left on the account, unless a removal is refused.
    pub clear_vesting-has_schedules :
        (fuel : ℕ) (l t : Ledger) (who : ℕ)
        → length (host.schedules l who) ≤ fuel
        → clear_vesting host fuel l who ≡ ok t
        → host.has_schedules t who ≡ false
    unfolding clear_vesting
    clear_vesting-has_schedules zero l t who p h =
        rw (← ok-injective h) (ground (arith, laws.has_schedules-length l who))
    clear_vesting-has_schedules (suc fuel) l t who p h =
        cleared (host.has_schedules l who) refl h
          (λ u q. clear_vesting-has_schedules fuel u t who q)
      where
        cleared :
            (more : Bool)
            → host.has_schedules l who ≡ more
            → elim more as (λ b. Dispatched Ledger) [
              | true ↦ host.remove_schedule l who 0 >>= λ l'. clear_vesting host fuel l' who
              | false ↦ ok l
            ]
              ≡ ok t
            → ((u : Ledger)
                → length (host.schedules u who) ≤ fuel
                → clear_vesting host fuel u who ≡ ok t
                → host.has_schedules t who ≡ false)
            → host.has_schedules t who ≡ false
        cleared true e h ih =
            bind_elim (host.remove_schedule l who 0) _ h
              λ u m. ih u (ground (arith, p, laws.length-remove_schedule l u who 0 m))
        cleared false e h ih = rw (← ok-injective h) e
