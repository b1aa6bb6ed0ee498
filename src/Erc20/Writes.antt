-- ===== src/Erc20/Writes.antt =====
-- runtime/src/balances_erc20.rs: what each call but the permit does to the storage when it succeeds.
use numen.Prelude.{
  ℕ, ◌-◌, ◌≤◌, ◌<◌, ◌≡◌, ◌≢◌, refl, sym, ap, ◌∙◌, Bool, true, false, some, List, ◌∷◌, arith, ◌==◌,
  if◌then◌else◌,
}
use numen.Host.Ops.{Host}
use numen.Erc20.Interface.{
  Ext, State, Event, approval_event, transfer_event, withdrawal_event, done, ◌>>=◌, bind_elim,
  done-injective, insufficient_allowance,
}
use numen.Erc20.Ops.{
  charge, caller, account_of, emit, move_funds, u128_mod, ok_or, checked_sub, insert, approve,
  transfer, spend, transfer_from, withdraw,
}
use numen.Erc20.Steps.{
  Store, stored, stored-ending, stored-charge, stored-caller, stored-account_of, stored-move_funds,
  Sent, ok_or-some,
}

-- The allowances once a value is taken off the one that an owner gave a spender; an owner needs none.
abbrev pub spent : (ℕ → ℕ → ℕ) → ℕ → ℕ → ℕ → ℕ → ℕ → ℕ
spent allowances from spender value =
    if from == spender
    then allowances
    else insert allowances from spender (allowances from spender - value)

checked_sub-some : (a b left : ℕ) → checked_sub a b ≡ some left → (b ≤ a) × (left ≡ a - b)
checked_sub-some a b left h = ground (arith, h)

module _ {Ledger Meter : Type 0} (host : Host Ledger) (env : Ext Ledger Meter) where
  pub stored-approve :
      (spender value : ℕ) (s t : State Ledger Meter) (out : List ℕ)
      → approve host env spender value s ≡ done (out, t)
      → (account : ℕ) × (env.caller_account ≡ some account)
        × (stored t ≡ record (stored s) {
          allowances = insert s.allowances (env.to_address account) spender value;
          events = approval_event (env.to_address account) spender value ∷ s.events;
        })
  unfolding approve
  stored-approve spender value s t out h =
      bind_elim (charge host env (env.writes 1) s) _ h λ s1 e1 h1.
        bind_elim (caller host env s1) _ h1 λ called e2 h2.
          let (named, address, same) = stored-caller host env s1 called.1 called.0 e2 in
          let before = same ∙ stored-charge host env (env.writes 1) s s1 e1 in
          (
            called.0.0,
            named,
            stored-ending host env _ _ out _ t h2
                ∙ ap
                    (λ (u : Store Ledger). record u {
                      allowances = insert u.allowances called.0.1 spender value;
                      events = approval_event called.0.1 spender value ∷ u.events;
                    })
                    before
                ∙ ap
                    (λ who. record (stored s) {
                      allowances = insert s.allowances who spender value;
                      events = approval_event who spender value ∷ s.events;
                    })
                    address,
          )

  -- What a payment leaves: the storage with the ledger after it and an event.
  abbrev pub Paid :
      State Ledger Meter → State Ledger Meter → Event → (ℕ → ℕ → ℕ) → ℕ → ℕ → ℕ → Type 0
  Paid s t event allowed from to value =
      (stored t
        ≡ record (stored s) { ledger = t.ledger; allowances = allowed; events = event ∷ s.events })
      × (value < u128_mod)
      × Sent host env from to value s.ledger t.ledger

  -- The funds move, then the event is left.
  stored-payment :
      (from to value : ℕ) (event : Event) (ret out : List ℕ) (s t : State Ledger Meter)
      → ◌>>=◌ {B = List ℕ × State Ledger Meter} (move_funds host env from to value s) (λ u.
        ◌>>=◌ {B = List ℕ × State Ledger Meter} (emit host env event u) (λ u. done (ret, u)))
        ≡ done (out, t)
      → Paid s t event s.allowances from to value
  stored-payment from to value event ret out s t h =
      bind_elim (move_funds host env from to value s) _ h λ u e h'.
        let (fits, (moved, sent)) = stored-move_funds host env from to value s u e in
        let after = stored-ending host env event ret out u t h' in
        let ledger = ap (λ (x : Store Ledger). x.ledger) after in
        (
          after
              ∙ ap (λ (x : Store Ledger). record x { events = event ∷ x.events }) moved
              ∙ ap (λ l. record (stored s) { ledger = l; events = event ∷ s.events }) (sym ledger),
          fits,
          rw (ledger) sent,
        )

  Paid-stored :
      (s u t : State Ledger Meter) (event : Event) (allowed : ℕ → ℕ → ℕ) (from to value : ℕ)
      → stored u ≡ record (stored s) { allowances = allowed }
      → Paid u t event u.allowances from to value
      → Paid s t event allowed from to value
  Paid-stored s u t event allowed from to value e (after, fits, sent) = (
    after ∙ ap (λ (x : Store Ledger). record x { ledger = t.ledger; events = event ∷ x.events }) e,
    fits,
    rw (← ap (λ (x : Store Ledger). x.ledger) e) sent,
  )

  pub stored-transfer :
      (to value : ℕ) (s t : State Ledger Meter) (out : List ℕ)
      → transfer host env to value s ≡ done (out, t)
      → (account : ℕ) × (env.caller_account ≡ some account)
        × Paid s t
            (transfer_event (env.to_address account) to value)
            s.allowances
            account
            (env.to_account_id s.ledger to)
            value
  unfolding transfer
  stored-transfer to value s t out h = bind_elim (charge host env _ s) _ h λ s1 e1 h1.
      bind_elim (caller host env s1) _ h1 λ called e2 h2.
        bind_elim (account_of host env to called.1) _ h2 λ target e3 h3.
          let (named, address, same) = stored-caller host env s1 called.1 called.0 e2 in
          let (account, kept) = stored-account_of host env to called.1 target.1 target.0 e3 in
          let before = same ∙ stored-charge host env _ s s1 e1 in
          let target_is =
            account ∙ ap (λ (x : Store Ledger). env.to_account_id x.ledger to) before in
          (
            called.0.0,
            named,
            rw (← address, ← target_is)
                (Paid-stored s target.1 t _ s.allowances called.0.0 target.0 value (kept ∙ before)
                  (stored-payment called.0.0 target.0 value _ _ out target.1 t h3)),
          )

  pub stored-withdraw :
      (dest value : ℕ) (s t : State Ledger Meter) (out : List ℕ)
      → withdraw host env dest value s ≡ done (out, t)
      → (account : ℕ) × (env.caller_account ≡ some account)
        × Paid s t
            (withdrawal_event (env.to_address account) dest value)
            s.allowances
            account
            dest
            value
  unfolding withdraw
  stored-withdraw dest value s t out h = bind_elim (charge host env _ s) _ h λ s1 e1 h1.
      bind_elim (caller host env s1) _ h1 λ called e2 h2.
        let (named, address, same) = stored-caller host env s1 called.1 called.0 e2 in
        let before = same ∙ stored-charge host env _ s s1 e1 in
        (
          called.0.0,
          named,
          rw (← address) (
              Paid-stored s called.1 t _ s.allowances called.0.0 dest value before
                (stored-payment called.0.0 dest value _ _ out called.1 t h2)),
        )

  -- The allowance suffices, unless the owner spends, and is lowered.
  pub stored-spend :
      (from spender value : ℕ) (s t : State Ledger Meter)
      → spend host env from spender value s ≡ done t
      → (from ≢ spender → value ≤ s.allowances from spender)
        × (stored t ≡ record (stored s) { allowances = spent s.allowances from spender value })
  unfolding spend
  stored-spend from spender value s t h = split (from == spender) refl h
    where
      split :
          (own : Bool)
          → (from == spender) ≡ own
          → (if own
              then done s
              else (ok_or (checked_sub (s.allowances from spender) value) insufficient_allowance
                  >>= λ left.
                      done (record s { allowances = insert s.allowances from spender left })))
            ≡ done t
          → (from ≢ spender → value ≤ s.allowances from spender)
            × (stored t ≡ record (stored s) {
              allowances =
                  if own
                  then s.allowances
                  else insert s.allowances from spender (s.allowances from spender - value);
            })
      split true e h = (λ ne. ground (arith, e, ne), ap stored (sym (done-injective h)))
      split false e h =
          bind_elim (ok_or (checked_sub (s.allowances from spender) value) insufficient_allowance) _
            h
            λ left q p.
              let enough =
                checked_sub-some (s.allowances from spender) value left
                  (ok_or-some insufficient_allowance _ left q) in
              (
                λ ne. enough.0,
                ap stored (sym (done-injective p))
                    ∙ ap
                        (λ n. record (stored s) { allowances = insert s.allowances from spender n })
                        enough.1,
              )

  pub stored-transfer_from :
      (from to value : ℕ) (s t : State Ledger Meter) (out : List ℕ)
      → transfer_from host env from to value s ≡ done (out, t)
      → (account : ℕ) × (env.caller_account ≡ some account)
        × (from ≢ env.to_address account → value ≤ s.allowances from (env.to_address account))
        × Paid s t
            (transfer_event from to value)
            (spent s.allowances from (env.to_address account) value)
            (env.to_account_id s.ledger from)
            (env.to_account_id s.ledger to)
            value
  unfolding transfer_from
  stored-transfer_from from to value s t out h = bind_elim (charge host env _ s) _ h λ s1 e1 h1.
      bind_elim (caller host env s1) _ h1 λ called e2 h2.
        bind_elim (spend host env from called.0.1 value called.1) _ h2 λ s3 e3 h3.
          bind_elim (account_of host env from s3) _ h3 λ source e4 h4.
            bind_elim (account_of host env to source.1) _ h4 λ target e5 h5.
              let (named, address, same) = stored-caller host env s1 called.1 called.0 e2 in
              let before = same ∙ stored-charge host env _ s s1 e1 in
              let (enough, lowered) = stored-spend from called.0.1 value called.1 s3 e3 in
              let (source_account, kept) =
                stored-account_of host env from s3 source.1 source.0 e4 in
              let (target_account, kept') =
                stored-account_of host env to source.1 target.1 target.0 e5 in
              let after =
                lowered
                ∙ ap
                    (λ (x : Store Ledger). record x {
                      allowances = spent x.allowances from called.0.1 value;
                    })
                    before in
              let source_is =
                source_account ∙ ap (λ (x : Store Ledger). env.to_account_id x.ledger from) after in
              let target_is =
                target_account
                ∙ ap (λ (x : Store Ledger). env.to_account_id x.ledger to) (kept ∙ after) in
              let allowed = ap (λ (x : Store Ledger). x.allowances from called.0.1) before in
              (
                called.0.0,
                named,
                rw (← address) (λ ne. rw (← allowed) (enough ne)),
                rw (← address, ← source_is, ← target_is)
                    (Paid-stored s target.1 t _ _ source.0 target.0 value (kept' ∙ kept ∙ after)
                      (stored-payment source.0 target.0 value _ _ out target.1 t h5)),
              )
