-- ===== src/Erc20/Permits.antt =====
-- runtime/src/balances_erc20.rs: what a permit does.
use numen.Prelude.{
  ℕ, ◌+◌, ◌≤◌, ◌≡◌, refl, sym, ap, ◌∙◌, min, Bool, true, false, Option, none, some, List, [], ◌∷◌,
  arith, ltb, ◌==◌, if◌then◌else◌,
}
use numen.Host.Ops.{Host}
use numen.Erc20.Interface.{
  Ext, State, PermitCall, approval_event, done, error, bind_elim, reverted, permit_expired,
  invalid_permit,
}
use numen.Erc20.Ops.{charge, insert}
use numen.Erc20.Permit.{
  permit, authorized, grant, permit_digest, signer, is_owner, recovery_id, u256_max,
}
use numen.Erc20.Steps.{Store, stored, stored-charge, stored-ending}
use numen.Erc20.Digest.{digest, signed_by, stored-permit_digest, stored-signer}

-- The storage once a permit is granted.
abbrev pub granted : {Ledger : Type 0} → PermitCall → Store Ledger → Store Ledger
granted call x = record x {
  nonces = λ a. if a == call.owner then min (x.nonces call.owner + 1) u256_max else x.nonces a;
  allowances = insert x.allowances call.owner call.spender call.value;
  events = approval_event call.owner call.spender call.value ∷ x.events;
}

is_owner-true : (owner : ℕ) (who : Option ℕ) → is_owner owner who ≡ true → who ≡ some owner
is_owner-true owner none h = cc
is_owner-true owner (some a) h = ap some (ground (arith, h))

module _ {Ledger Meter : Type 0} (host : Host Ledger) (env : Ext Ledger Meter) where
  stored-authorized :
      (call : PermitCall) (s t : State Ledger Meter) (out : List ℕ)
      → authorized host env call s ≡ done (out, t)
      → (signed_by env (digest env call (s.nonces call.owner)) (recovery_id call.v) call.r call.s
          ≡ some call.owner)
        × (stored t ≡ granted call (stored s))
  unfolding authorized grant
  stored-authorized call s t out h =
      let nonce = s.nonces call.owner in
      bind_elim (permit_digest host env call nonce s) _ h λ hashed e1 h1.
        bind_elim (signer host env hashed.0 call.v call.r call.s hashed.1) _ h1 λ signed e2 h2.
          let (hash, same1) = stored-permit_digest env host call nonce s hashed.1 hashed.0 e1 in
          let (who, same2) =
            stored-signer env host hashed.0 call.v call.r call.s hashed.1 signed.1 signed.0 e2 in
          checked signed hashed.0 (is_owner call.owner signed.0) refl hash who (same2 ∙ same1) h2
    where
      checked :
          (signed : Option ℕ × State Ledger Meter) (hash : List ℕ) (owned : Bool)
          → is_owner call.owner signed.0 ≡ owned
          → hash ≡ digest env call (s.nonces call.owner)
          → signed.0 ≡ signed_by env hash (recovery_id call.v) call.r call.s
          → stored signed.1 ≡ stored s
          → (if owned
              then grant host env call (s.nonces call.owner) signed.1
              else error (reverted invalid_permit))
            ≡ done (out, t)
          → (signed_by env
                (digest env call (s.nonces call.owner))
                (recovery_id call.v)
                call.r
                call.s
              ≡ some call.owner)
            × (stored t ≡ granted call (stored s))
      checked signed hashed true e hash who same h = (
        rw (← hash) (sym who ∙ is_owner-true call.owner signed.0 e),
        stored-ending host env _ [] out _ t h
            ∙ ap
                (λ (x : Store Ledger). record x {
                  nonces = λ a.
                      if a == call.owner
                      then min (s.nonces call.owner + 1) u256_max
                      else x.nonces a;
                  allowances = insert x.allowances call.owner call.spender call.value;
                  events = approval_event call.owner call.spender call.value ∷ x.events;
                })
                same,
      )
      checked signed hashed false e hash who same h = cc

  -- A permit that succeeds came in time, and its signature recovers to the owner over the EIP-712 digest of
  -- its fields and of the owner's nonce. It sets the allowance that it names to its value and the owner's
  -- nonce one up, up to the greatest word; it leaves the ledger, and every other allowance and nonce.
  pub permit-effect :
      (call : PermitCall) (s t : State Ledger Meter) (out : List ℕ)
      → permit host env call s ≡ done (out, t)
      → (env.now ≤ call.deadline)
        × (signed_by env (digest env call (s.nonces call.owner)) (recovery_id call.v) call.r call.s
            ≡ some call.owner)
        × (stored t ≡ granted call (stored s))
  unfolding permit
  permit-effect call s t out h =
      bind_elim (charge host env _ s) _ h
        λ s1 e1 h1. timely (ltb call.deadline env.now) refl s1 (stored-charge host env _ s s1 e1) h1
    where
      timely :
          (late : Bool)
          → ltb call.deadline env.now ≡ late
          → (s1 : State Ledger Meter) → stored s1 ≡ stored s
          → (if late then error (reverted permit_expired) else authorized host env call s1)
            ≡ done (out, t)
          → (env.now ≤ call.deadline)
            × (signed_by env
                  (digest env call (s.nonces call.owner))
                  (recovery_id call.v)
                  call.r
                  call.s
                ≡ some call.owner)
            × (stored t ≡ granted call (stored s))
      timely true e s1 same h = cc
      timely false e s1 same h =
          let (signed, after) = stored-authorized call s1 t out h in
          let nonce = ap (λ (x : Store Ledger). x.nonces call.owner) same in
          (ground (arith, e), rw (← nonce) signed, after ∙ ap (granted call) same)
