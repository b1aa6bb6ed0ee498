-- ===== src/Erc20/Calls.antt =====
-- runtime/src/balances_erc20.rs: the guards of a call, and what it leaves alone.
use numen.Prelude.{
  ℕ, ◌≡◌, ◌⊎◌, inl, inr, refl, sym, ap, ◌∙◌, Bool, true, false, not, ◌&&◌, List, arith, ◌==◌,
  if◌then◌else◌,
}
use numen.Host.Ops.{Host, preserve}
use numen.Host.Laws.{IssuanceLaws}
use numen.Erc20.Interface.{
  Ext, State, Call, name_call, symbol_call, decimals_call, total_supply_call, balance_of_call,
  allowance_call, approve_call, transfer_call, transfer_from_call, withdraw_call, deposit_call,
  nonces_call, domain_separator_call, permit_call, Outcome, done, error, ◌>>=◌, bind_elim,
  done-injective, reverted, call_the_token, non_static_call, not_payable, balance_of_token,
  transfer_failed,
}
use numen.Erc20.Literals.{token_address}
use numen.Erc20.Ops.{
  charge, charge_token, total_supply, balance_of, allowance, nonces, send, open_recipient, lifted,
}
use numen.Erc20.Permit.{domain, domain_separator}
use numen.Erc20.Dispatch.{call, dispatch, writes, is_deposit}
use numen.Erc20.Steps.{Store, stored, stored-charge, stored-charge_token, Sent, nothing, paid}
use numen.Erc20.Writes.{stored-approve, stored-transfer, stored-transfer_from, stored-withdraw}
use numen.Erc20.Deposits.{stored-deposit, map_err-ok, lifted-ok}
use numen.Erc20.Digest.{stored-domain_separator}
use numen.Erc20.Permits.{permit-effect}

module _ {Ledger Meter : Type 0} (host : Host Ledger) (env : Ext Ledger Meter) where
  -- The guards that a call has passed when it succeeds.
  pub call-dispatch :
      (input : Call) (s t : State Ledger Meter) (out : List ℕ)
      → call host env input s ≡ done (out, t)
      → (env.address ≡ token_address)
        × ((writes input ≡ false) ⊎ (env.read_only ≡ false))
        × ((is_deposit input ≡ true) ⊎ (env.value_transferred ≡ 0))
        × (dispatch host env input s ≡ done (out, t))
  unfolding call
  call-dispatch input s t out h =
      guarded (env.address == token_address) (writes input) env.read_only (is_deposit input)
        (env.value_transferred == 0) refl refl h
    where
      guarded :
          (at_token w r d z : Bool)
          → (env.address == token_address) ≡ at_token
          → (env.value_transferred == 0) ≡ z
          → (if not at_token
              then error (reverted call_the_token)
              else if w && r
              then error (reverted non_static_call)
              else if not d && not z
              then error (reverted not_payable)
              else dispatch host env input s)
            ≡ done (out, t)
          → (env.address ≡ token_address)
            × ((w ≡ false) ⊎ (r ≡ false))
            × ((d ≡ true) ⊎ (env.value_transferred ≡ 0))
            × (dispatch host env input s ≡ done (out, t))
      guarded true false r true z e f h = (ground (arith, e), inl refl, inl refl, h)
      guarded true false r false true e f h =
          (ground (arith, e), inl refl, inr (ground (arith, f)), h)
      guarded true false r false false e f h = cc
      guarded true true false true z e f h = (ground (arith, e), inr refl, inl refl, h)
      guarded true true false false true e f h =
          (ground (arith, e), inr refl, inr (ground (arith, f)), h)
      guarded true true false false false e f h = cc
      guarded true true true d z e f h = cc
      guarded false w r d z e f h = cc

  same_store :
      (s1 s t : State Ledger Meter) (ret out : List ℕ)
      → stored s1 ≡ stored s
      → ◌≡◌ {A = Outcome (List ℕ × State Ledger Meter)} (done (ret, s1)) (done (out, t))
      → stored t ≡ stored s
  same_store s1 s t ret out e p =
      ap (λ (q : List ℕ × State Ledger Meter). stored q.1) (sym (done-injective p)) ∙ e

  -- A call that is not among those that write leaves all but the meter.
  pub stored-view :
      (input : Call) (s t : State Ledger Meter) (out : List ℕ)
      → writes input ≡ false
      → dispatch host env input s ≡ done (out, t)
      → stored t ≡ stored s
  unfolding total_supply balance_of allowance nonces domain
  stored-view name_call s t out w h = same_store s s t _ out refl h
  stored-view symbol_call s t out w h = same_store s s t _ out refl h
  stored-view decimals_call s t out w h = same_store s s t _ out refl h
  stored-view total_supply_call s t out w h =
      bind_elim (charge host env (env.reads 1) s) _ h
        λ s1 e p. same_store s1 s t _ out (stored-charge host env _ s s1 e) p
  stored-view (balance_of_call owner) s t out w h =
      bind_elim (charge_token host env balance_of_token s) _ h
        λ s1 e p. same_store s1 s t _ out (stored-charge_token host env _ s s1 e) p
  stored-view (allowance_call owner spender) s t out w h =
      bind_elim (charge host env (env.reads 1) s) _ h
        λ s1 e p. same_store s1 s t _ out (stored-charge host env _ s s1 e) p
  stored-view (nonces_call owner) s t out w h =
      bind_elim (charge host env (env.reads 1) s) _ h
        λ s1 e p. same_store s1 s t _ out (stored-charge host env _ s s1 e) p
  stored-view domain_separator_call s t out w h =
      bind_elim (charge host env (env.reads 1) s) _ h λ s1 e h1.
        bind_elim (domain_separator host env s1) _ h1 λ hashed e2 p.
          same_store hashed.1 s t _ out
            ((stored-domain_separator env host s1 hashed.1 hashed.0 e2).1
              ∙ stored-charge host env _ s s1 e)
            p
  stored-view (approve_call spender value) s t out w h = cc
  stored-view (transfer_call to value) s t out w h = cc
  stored-view (transfer_from_call from to value) s t out w h = cc
  stored-view (withdraw_call dest value) s t out w h = cc
  stored-view deposit_call s t out w h = cc
  stored-view (permit_call c) s t out w h = cc

  -- In a static context a call either fails or leaves the ledger, the allowances, the nonces and the
  -- events as they were; and only the proxy's own frame is served.
  pub call_static :
      (input : Call) (s t : State Ledger Meter) (out : List ℕ)
      → env.read_only ≡ true
      → call host env input s ≡ done (out, t)
      → (env.address ≡ token_address) × (stored t ≡ stored s)
  call_static input s t out static h =
      let (at_token, guard, payable, run) = call-dispatch input s t out h in
      (at_token, stored-view input s t out (view guard) run)
    where
      view : ((writes input ≡ false) ⊎ (env.read_only ≡ false)) → writes input ≡ false
      view (inl w) = w
      view (inr r) = cc

  module _ (laws : IssuanceLaws host) where
    active-send :
        (l l' : Ledger) (from to amount : ℕ)
        → send host env l from to amount ≡ done l'
        → host.active_issuance l' ≡ host.active_issuance l
    unfolding send open_recipient
    active-send l l' from to amount h = bind_elim (open_recipient host env l to) _ h λ u e p.
        laws.active-transfer u l' from to amount preserve (map_err-ok _ transfer_failed l' p)
        ∙ opened (host.account_exists l to) u e
      where
        opened :
            (there : Bool) (u : Ledger)
            → (if there
                then done l
                else (lifted (host.mint_into l to host.minimum_balance) >>= λ l'.
                    done (host.deactivate l' host.minimum_balance)))
              ≡ done u
            → host.active_issuance u ≡ host.active_issuance l
        opened true u h = ap host.active_issuance (sym (done-injective h))
        opened false u h =
            bind_elim (lifted (host.mint_into l to host.minimum_balance)) _ h λ m e p.
              ap host.active_issuance (sym (done-injective p))
              ∙ laws.active-mint_deactivate l m to host.minimum_balance (lifted-ok _ m e)

    active-Sent :
        (from to value : ℕ) (l l' : Ledger)
        → Sent host env from to value l l'
        → host.active_issuance l' ≡ host.active_issuance l
    active-Sent from to value l l' (nothing z) = refl
    active-Sent from to value l l' (paid ne e) = active-send l l' from to value e

    -- No call changes the active issuance: payments move it, the deposit of a new account is minted
    -- inactive, and the rest leaves the ledger.
    pub call-active_issuance :
        (input : Call) (s t : State Ledger Meter) (out : List ℕ)
        → call host env input s ≡ done (out, t)
        → host.active_issuance t.ledger ≡ host.active_issuance s.ledger
    call-active_issuance input s t out h = run input (call-dispatch input s t out h).3
      where
        active :
            {x y : Store Ledger}
            → x ≡ y
            → host.active_issuance x.ledger ≡ host.active_issuance y.ledger
        active e = ap (λ (x : Store Ledger). host.active_issuance x.ledger) e

        run :
            (input : Call)
            → dispatch host env input s ≡ done (out, t)
            → host.active_issuance t.ledger ≡ host.active_issuance s.ledger
        run (approve_call spender value) h =
            active (stored-approve host env spender value s t out h).2
        run (transfer_call to value) h =
            let (account, named, (after, fits, sent)) =
              stored-transfer host env to value s t out h in
            active-Sent account (env.to_account_id s.ledger to) value s.ledger t.ledger sent
        run (transfer_from_call from to value) h =
            let (account, named, enough, (after, fits, sent)) =
              stored-transfer_from host env from to value s t out h in
            active-Sent (env.to_account_id s.ledger from) (env.to_account_id s.ledger to) value
              s.ledger t.ledger sent
        run (withdraw_call dest value) h =
            let (account, named, (after, fits, sent)) =
              stored-withdraw host env dest value s t out h in
            active-Sent account dest value s.ledger t.ledger sent
        run deposit_call h =
            let (account, named, after, due, sent) = stored-deposit host env s t out h in
            laws.active-transfer s.ledger t.ledger env.account_id account env.value_transferred
              preserve sent
        run (permit_call c) h = active (permit-effect host env c s t out h).2
        run name_call h = active (stored-view name_call s t out refl h)
        run symbol_call h = active (stored-view symbol_call s t out refl h)
        run decimals_call h = active (stored-view decimals_call s t out refl h)
        run total_supply_call h = active (stored-view total_supply_call s t out refl h)
        run (balance_of_call owner) h = active (stored-view (balance_of_call owner) s t out refl h)
        run (allowance_call owner spender) h =
            active (stored-view (allowance_call owner spender) s t out refl h)
        run (nonces_call owner) h = active (stored-view (nonces_call owner) s t out refl h)
        run domain_separator_call h = active (stored-view domain_separator_call s t out refl h)
