-- ===== src/Claims/Lifted.antt =====
-- pallets/evm-claims/src/lib.rs: what `carry_nonce` and `lift_nonce` do to nonces and providers.
use numen.Prelude.{ℕ, max, ◌+◌, ◌/◌, ◌≤◌, ◌≡◌, ◌&&◌, arith, ltb, ◌==◌, if◌then◌else◌}
use numen.Host.Ops.{Host}
use numen.Host.Laws.{NonceLaws}
use numen.Claims.Accounts.{revive_account, tail_mod, revive_account-tail, revive_account-head}
use numen.Claims.Defs.{Config, carry_nonce, lift_nonce, legacy_of}

module _ {Ledger : Type 0} (host : Host Ledger) (laws : NonceLaws host) where
  open host use {nonce, providers, set_nonce, inc_providers}

  pub nonce-carry_nonce :
      (l : Ledger) (legacy account a : ℕ)
      → nonce (carry_nonce host l legacy account).0 a
        ≡ (if a == account then max (nonce l legacy) (nonce l account) else nonce l a)
  unfolding carry_nonce
  nonce-carry_nonce l legacy account a = ground (
    arith,
    laws.nonce-set_nonce (inc_providers l account) account (nonce l legacy) a,
    laws.nonce-set_nonce l account (nonce l legacy) a,
    laws.nonce-inc_providers l account a,
  )

  pub providers-carry_nonce :
      (l : Ledger) (legacy account a : ℕ)
      → providers (carry_nonce host l legacy account).0 a ≡ (
          if a == account && nonce l account == 0 && ltb 0 (nonce l legacy)
          then providers l a + 1
          else providers l a)
  unfolding carry_nonce
  providers-carry_nonce l legacy account a = ground (
    arith,
    laws.providers-set_nonce (inc_providers l account) account (nonce l legacy) a,
    laws.providers-set_nonce l account (nonce l legacy) a,
    laws.providers-inc_providers l account a,
  )

  module _ (cfg : Config Ledger) where
    -- A lift lowers no nonce, and touches the signer's alone.
    pub nonce-lift_nonce :
        (l : Ledger) (who a : ℕ)
        → (nonce l a ≤ nonce (lift_nonce host cfg l who) a)
          × ((if a == who then nonce l a else nonce (lift_nonce host cfg l who) a) ≡ nonce l a)
    unfolding lift_nonce
    nonce-lift_nonce l who a =
        ground (arith, nonce-carry_nonce l (legacy_of host cfg (who / tail_mod)) who a)

    -- The provider that a first nonce brings.
    pub providers-lift_nonce :
        (l : Ledger) (who a : ℕ)
        → providers (lift_nonce host cfg l who) a ≡ (
            if a == who && nonce l who == 0 && ltb 0 (nonce (lift_nonce host cfg l who) who)
            then providers l a + 1
            else providers l a)
    unfolding lift_nonce
    providers-lift_nonce l who a =
        let legacy = legacy_of host cfg (who / tail_mod) in
        ground (arith, nonce-carry_nonce l legacy who who, providers-carry_nonce l legacy who a)

    -- The signer that pallet-revive derives from an address starts at the nonce that the address
    -- reached under Frontier.
    pub nonce-lift_nonce_revive :
        (l : Ledger) (address : ℕ)
        → let account = revive_account address in
          nonce (lift_nonce host cfg l account) account
          ≡ (if nonce l account == 0 then nonce l (legacy_of host cfg address) else nonce l account)
    unfolding lift_nonce
    nonce-lift_nonce_revive l address =
        let account = revive_account address in
        rw (revive_account-tail address, revive_account-head address)
          (ground (arith, nonce-carry_nonce l (legacy_of host cfg address) account account))
