-- ===== src/Frontier/Signers.antt =====
-- runtime/src/migrations/frontier.rs: `pin_signers` gives every account that signed a provider, which is what
-- the nonce check (runtime/src/check_nonce.rs) starts from.
use numen.Prelude.{ℕ, ◌+◌, ◌-◌, ◌≤◌, ◌≡◌, refl, ◌∙◌, List, [], ◌∷◌, arith, ◌==◌, if◌then◌else◌}
use numen.Host.Ops.{Host}
use numen.Host.Laws.{NonceLaws}
use numen.Claims.Defs.{Config}
use numen.Claims.Steps.{IsKept}
use numen.Frontier.State.{State, Revive, Tally}
use numen.Frontier.Ops.{signers, pin_all, pin_signers}

abbrev pub count : List ℕ → ℕ → ℕ
count [] a = 0
count (who ∷ rest) a = let others = count rest a in if a == who then others + 1 else others

module _ {Ledger Info : Type 0} (host : Host Ledger) (revive : Revive Ledger Info)
    (cfg : Config Ledger) (laws : NonceLaws host) where
  pin_all-effect :
      (accounts : List ℕ) (l : Ledger) (a : ℕ)
      → let t = pin_all host revive cfg l accounts in
        (host.nonce t a ≡ host.nonce l a)
        × (host.providers t a ≡ host.providers l a + count accounts a)
  unfolding pin_all
  pin_all-effect [] l a = (refl, omega arith)
  pin_all-effect (who ∷ rest) l a =
      let (nonces, providers) = pin_all-effect rest (host.inc_providers l who) a in
      (
        nonces ∙ laws.nonce-inc_providers l who a,
        ground (arith, providers, laws.providers-inc_providers l who a),
      )

  count-signers :
      (accounts : List ℕ) (l : Ledger) (a : ℕ)
      → count (signers host revive cfg l accounts) a
        ≡ (if host.nonce l a == 0 then 0 else count accounts a)
  unfolding signers
  count-signers [] l a = ground arith
  count-signers (who ∷ rest) l a = ground (arith, count-signers rest l a)

  -- Where the accounts of frame_system are listed once each, `pin_signers`, the step of the upgrade before the
  -- contracts and accounts move, gives each account with a nonce one provider more, every other account
  -- none, and changes no nonce. That is the state that the nonce check keeps: each account with a nonce
  -- has a provider of its own.
  pub pin_signers-IsKept :
      (s : State Ledger) (tally : Tally)
      → ((a : ℕ) → 1 ≤ host.nonce s.claims.ledger a → count (revive.accounts s.claims.ledger) a ≡ 1)
      → let l = s.claims.ledger in
        let t = (pin_signers host revive cfg s tally).0.claims.ledger in
        ((a : ℕ)
          → (host.nonce t a ≡ host.nonce l a)
            × (host.providers t a
                ≡ (if host.nonce l a == 0 then host.providers l a else host.providers l a + 1)))
        × IsKept host (record {
          ledger = t;
          given = λ a. host.providers t a - host.providers l a;
          executed = [];
        })
  unfolding pin_signers
  pin_signers-IsKept s tally once =
      let l = s.claims.ledger in
      let found = signers host revive cfg l (revive.accounts l) in
      let t = pin_all host revive cfg l found in
      let effect = λ (a : ℕ). pin_all-effect found l a in
      let counted = λ (a : ℕ). count-signers (revive.accounts l) l a in
      let nonces : (a : ℕ) → host.nonce t a ≡ host.nonce l a = λ a. (effect a).0 in
      let providers : (a : ℕ)
          → host.providers t a
            ≡ (if host.nonce l a == 0 then host.providers l a else host.providers l a + 1) =
        λ a. ground (arith, (effect a).1, counted a, once a) in
      (
        λ a. (nonces a, providers a),
        record {
          pinned = λ a n. ground (arith, n, nonces a, providers a);
          backed = λ a. omega arith;
          spent = tt;
        },
      )
