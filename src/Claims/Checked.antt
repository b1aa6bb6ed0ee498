-- ===== src/Claims/Checked.antt =====
-- runtime/src/check_nonce.rs: what a transaction that passes the check has done to nonces and providers.
use numen.Prelude.{ℕ, sym, ap, ◌∙◌, ◌+◌, ◌≡◌, some, arith, ◌==◌, if◌then◌else◌, ◌&&◌}
use numen.Host.Ops.{Host, ok, bind_elim, ok-injective}
use numen.Host.Laws.{NonceLaws}
use numen.Claims.Defs.{Config, lift_nonce}
use numen.Claims.Signing.{Signed, Inner, validate, prepare, check_nonce}
use numen.Claims.Steps.{InnerLaws}
use numen.Claims.Lifted.{nonce-lift_nonce, providers-lift_nonce}

module _ {Ledger : Type 0} (host : Host Ledger) (laws : NonceLaws host) (cfg : Config Ledger)
    (inner : Inner Ledger) (checked : InnerLaws host inner) where
  prepare-effect :
      (l t : Ledger) (tx : Signed) (val : ℕ)
      → inner.validate l (some tx) ≡ ok val
      → prepare host cfg inner l (some tx) val ≡ ok t
      → (tx.nonce ≡ host.nonce l tx.signer)
        × ((a : ℕ)
            → host.nonce t a ≡ (if a == tx.signer then host.nonce l a + 1 else host.nonce l a))
        × ((a : ℕ)
            → host.providers t a ≡ (
                if a == tx.signer && host.nonce l tx.signer == 0
                then host.providers l a + 1
                else host.providers l a))
  unfolding prepare
  prepare-effect l t tx val v h = bind_elim (inner.prepare l (some tx) val) _ h λ u e p. (
    omega (arith, checked.not_stale l tx val v, checked.not_future l u tx val v e),
    λ a.
        rw (← ok-injective p) (
          ground (arith, checked.counted l u tx val a v e, laws.nonce-inc_providers u tx.signer a)),
    λ a. rw (← ok-injective p) (
        ground (
          arith,
          checked.providers_kept l u tx val a v e,
          laws.providers-inc_providers u tx.signer a,
        )),
  )

  -- The wrapped check validates the lifted ledger, and the preparation goes on from there.
  validate-lifted :
      (l : Ledger) (tx : Signed) (valid : Ledger × ℕ)
      → validate host cfg inner l (some tx) ≡ ok valid
      → (valid.0 ≡ lift_nonce host cfg l tx.signer)
        × (inner.validate (lift_nonce host cfg l tx.signer) (some tx) ≡ ok valid.1)
  unfolding validate
  validate-lifted l tx valid h =
      bind_elim (inner.validate (lift_nonce host cfg l tx.signer) (some tx)) _ h
        λ val e p. (sym (ap (λ v. v.0) (ok-injective p)), e ∙ ap (λ v. ok v.1) (ok-injective p))

  -- What a transaction that passes the check has done.
  pub check_nonce-effect :
      (l t : Ledger) (tx : Signed)
      → check_nonce host cfg inner l (some tx) ≡ ok t
      → let lifted = lift_nonce host cfg l tx.signer in
        (tx.nonce ≡ host.nonce lifted tx.signer)
        × ((a : ℕ)
            → host.nonce t a
              ≡ (if a == tx.signer then host.nonce lifted a + 1 else host.nonce lifted a))
        × ((a : ℕ)
            → host.providers t a ≡ (
                if a == tx.signer && host.nonce l a == 0
                then host.providers l a + 1
                else host.providers l a))
  unfolding check_nonce
  check_nonce-effect l t tx h = bind_elim (validate host cfg inner l (some tx)) _ h λ valid e p.
      let lifted = lift_nonce host cfg l tx.signer in
      let (same, validated) = validate-lifted l tx valid e in
      let (exact, nonces, providers) =
        prepare-effect lifted t tx valid.1 validated (rw same at p) in
      (
        exact,
        nonces,
        λ a. ground (
          arith,
          providers a,
          providers-lift_nonce host laws cfg l tx.signer a,
          nonce-lift_nonce host laws cfg l tx.signer tx.signer,
        ),
      )
