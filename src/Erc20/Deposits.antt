-- ===== src/Erc20/Deposits.antt =====
-- runtime/src/balances_erc20.rs: what `deposit` does to the storage when it succeeds.
use numen.Prelude.{
  ℕ, ◌≡◌, ◌≢◌, refl, sym, ap, ◌∙◌, Bool, true, false, some, List, ◌∷◌, arith, ◌==◌, if◌then◌else◌,
}
use numen.Host.Ops.{Host, Dispatched, ok, failed, preserve}
use numen.Erc20.Interface.{
  Ext, State, deposit_event, done, error, bind_elim, done-injective, reverted, cannot_deposit_zero,
  refund_failed, Reason,
}
use numen.Erc20.Ops.{charge, caller, try_from, map_err, lifted, refund, deposit}
use numen.Erc20.Steps.{Store, stored, stored-ending, stored-charge, stored-caller, try_from-done}

pub map_err-ok {ℓ} :
    {A : Type ℓ} (result : Dispatched A) (reason : Reason) (a : A)
    → map_err result reason ≡ done a
    → result ≡ ok a
map_err-ok (ok b) reason a h = ap ok (done-injective h)
map_err-ok (failed e) reason a h = cc

pub lifted-ok {ℓ} :
    {A : Type ℓ} (result : Dispatched A) (a : A) → lifted result ≡ done a → result ≡ ok a
lifted-ok (ok b) a h = ap ok (done-injective h)
lifted-ok (failed e) a h = cc

module _ {Ledger Meter : Type 0} (host : Host Ledger) (env : Ext Ledger Meter) where
  -- A deposit hands the value back out of the token's own account.
  pub stored-deposit :
      (s t : State Ledger Meter) (out : List ℕ)
      → deposit host env s ≡ done (out, t)
      → (account : ℕ) × (env.caller_account ≡ some account)
        × (stored t ≡ record (stored s) {
          ledger = t.ledger;
          events = deposit_event (env.to_address account) env.value_transferred ∷ s.events;
        })
        × (env.value_transferred ≢ 0)
        × (host.transfer s.ledger env.account_id account env.value_transferred preserve
            ≡ ok t.ledger)
  unfolding deposit refund
  stored-deposit s t out h =
      bind_elim (charge host env _ s) _ h
        λ s1 e1 h1. due s1 (env.value_transferred == 0) refl (stored-charge host env _ s s1 e1) h1
    where
      due :
          (s1 : State Ledger Meter) (none_due : Bool)
          → (env.value_transferred == 0) ≡ none_due
          → stored s1 ≡ stored s
          → (if none_due then error (reverted cannot_deposit_zero) else refund host env s1)
            ≡ done (out, t)
          → (account : ℕ) × (env.caller_account ≡ some account)
            × (stored t ≡ record (stored s) {
              ledger = t.ledger;
              events = deposit_event (env.to_address account) env.value_transferred ∷ s.events;
            })
            × (env.value_transferred ≢ 0)
            × (host.transfer s.ledger env.account_id account env.value_transferred preserve
                ≡ ok t.ledger)
      due s1 true z e h = cc
      due s1 false z e h = bind_elim (caller host env s1) _ h λ called e2 h2.
          bind_elim (try_from env.value_transferred) _ h2 λ amount e3 h3.
            bind_elim
              (map_err (host.transfer called.1.ledger env.account_id called.0.0 amount preserve)
                refund_failed)
              _ h3
              λ l e4 h4.
                let (named, address, same) = stored-caller host env s1 called.1 called.0 e2 in
                let before = same ∙ e in
                let after = stored-ending host env _ _ out (record called.1 { ledger = l }) t h4 in
                let ledger_is = ap (λ (x : Store Ledger). x.ledger) after in
                let ledger_was = ap (λ (x : Store Ledger). x.ledger) before in
                (
                  called.0.0,
                  named,
                  rw (← address) (
                      after
                      ∙ ap
                          (λ (x : Store Ledger). record x {
                            ledger = l;
                            events = deposit_event called.0.1 env.value_transferred ∷ x.events;
                          })
                          before
                      ∙ ap
                          (λ l'. record (stored s) {
                            ledger = l';
                            events = deposit_event called.0.1 env.value_transferred ∷ s.events;
                          })
                          (sym ledger_is)),
                  ground (arith, z),
                  rw (ledger_is, ← ledger_was, ← (try_from-done env.value_transferred amount e3).0)
                      (map_err-ok _ refund_failed l e4),
                )
