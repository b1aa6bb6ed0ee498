-- ===== src/Erc20/Steps.antt =====
-- runtime/src/balances_erc20.rs: what the parts of a call do to the storage, its meter aside.
use numen.Prelude.{
  ℕ, ◌<◌, ◌≡◌, ◌≢◌, refl, sym, ap, ◌∙◌, Bool, true, false, Option, none, some, List, ◌∷◌, arith,
  ltb, ◌==◌, if◌then◌else◌, length,
}
use numen.Host.Ops.{Host}
use numen.Erc20.Interface.{
  Ext, State, Event, deposit_event_token, caller_token, to_account_id_token, hash_keccak256_token,
  Token, done, error, ◌>>=◌, bind_elim, done-injective, amount_overflow, reverted, Reason,
  no_account,
}
use numen.Erc20.Ops.{
  metered, charge, charge_token, caller, account_of, emit, send, move_funds, u128_mod, try_from,
  ok_or,
}
use numen.Erc20.Permit.{keccak}

-- The state without its meter.
pub record Store (Ledger : Type 0) : Type 0 where
  pub ledger : Ledger
  pub allowances : ℕ → ℕ → ℕ
  pub nonces : ℕ → ℕ
  pub events : List Event

abbrev pub stored : {Ledger Meter : Type 0} → State Ledger Meter → Store Ledger
stored s = record {
  ledger = s.ledger;
  allowances = s.allowances;
  nonces = s.nonces;
  events = s.events;
}

stored-metered :
    {Ledger Meter : Type 0} (s t : State Ledger Meter) (left : Option Meter)
    → metered s left ≡ done t
    → stored t ≡ stored s
stored-metered s t none h = cc
stored-metered s t (some meter) h = ap stored (sym (done-injective h))

pub try_from-done :
    (value amount : ℕ) → try_from value ≡ done amount → (amount ≡ value) × (value < u128_mod)
try_from-done value amount h = split (ltb value u128_mod) refl h
  where
    split :
        (fits : Bool)
        → ltb value u128_mod ≡ fits
        → (if fits then done value else error (reverted amount_overflow)) ≡ done amount
        → (amount ≡ value) × (value < u128_mod)
    split true e h = (sym (done-injective h), ground (arith, e))
    split false e h = cc

pub ok_or-some {ℓ} :
    {A : Type ℓ} (reason : Reason) (value : Option A) (a : A)
    → ok_or value reason ≡ done a
    → value ≡ some a
ok_or-some reason none a h = cc
ok_or-some reason (some b) a h = ap some (done-injective h)

module _ {Ledger Meter : Type 0} (host : Host Ledger) (env : Ext Ledger Meter) where
  pub stored-charge :
      (weight : env.Weight) (s t : State Ledger Meter)
      → charge host env weight s ≡ done t
      → stored t ≡ stored s
  unfolding charge
  stored-charge weight s t h = stored-metered s t (env.charge s.meter weight) h

  pub stored-charge_token :
      (token : Token) (s t : State Ledger Meter)
      → charge_token host env token s ≡ done t
      → stored t ≡ stored s
  unfolding charge_token
  stored-charge_token token s t h = stored-metered s t (env.charge_weight_token s.meter token) h

  -- The caller has an account, and its address is the one that the account maps to.
  pub stored-caller :
      (s t : State Ledger Meter) (who : ℕ × ℕ)
      → caller host env s ≡ done (who, t)
      → (env.caller_account ≡ some who.0) × (who.1 ≡ env.to_address who.0) × (stored t ≡ stored s)
  unfolding caller
  stored-caller s t who h = bind_elim (charge_token host env caller_token s) _ h λ s' e h'.
      bind_elim (ok_or env.caller_account no_account) _ h' λ account e' p.
        let same = done-injective p in
        (
          ok_or-some no_account env.caller_account account e' ∙ ap (λ q. some q.0.0) same,
          ap (λ q. q.0.1) (sym same) ∙ ap (λ q. env.to_address q.0.0) same,
          ap (λ q. stored q.1) (sym same) ∙ stored-charge_token caller_token s s' e,
        )

  pub stored-account_of :
      (address : ℕ) (s t : State Ledger Meter) (account : ℕ)
      → account_of host env address s ≡ done (account, t)
      → (account ≡ env.to_account_id s.ledger address) × (stored t ≡ stored s)
  unfolding account_of
  stored-account_of address s t account h =
      bind_elim (charge_token host env to_account_id_token s) _ h λ s' e p.
        let same = stored-charge_token to_account_id_token s s' e in
        let ended = done-injective p in
        (
          ap (λ q. q.0) (sym ended)
              ∙ ap (λ (u : Store Ledger). env.to_account_id u.ledger address) same,
          ap (λ q. stored q.1) (sym ended) ∙ same,
        )

  pub stored-emit :
      (event : Event) (s t : State Ledger Meter)
      → emit host env event s ≡ done t
      → stored t ≡ record (stored s) { events = event ∷ s.events }
  unfolding emit
  stored-emit event s t h =
      let token = deposit_event_token (env.log_data event).0 (env.log_data event).1 in
      bind_elim (charge_token host env token s) _ h λ s' e p.
        ap stored (sym (done-injective p))
        ∙ ap (λ (u : Store Ledger). record u { events = event ∷ u.events })
            (stored-charge_token token s s' e)

  -- A call that ends with an event.
  pub stored-ending :
      (event : Event) (ret out : List ℕ) (s t : State Ledger Meter)
      → ◌>>=◌ {B = List ℕ × State Ledger Meter} (emit host env event s) (λ u. done (ret, u))
        ≡ done (out, t)
      → stored t ≡ record (stored s) { events = event ∷ s.events }
  stored-ending event ret out s t h =
      bind_elim (emit host env event s) _ h
        λ u e p. ap (λ q. stored q.1) (sym (done-injective p)) ∙ stored-emit event s u e

  pub stored-keccak :
      (bytes hash : List ℕ) (s t : State Ledger Meter)
      → keccak host env bytes s ≡ done (hash, t)
      → (hash ≡ env.keccak256 bytes) × (stored t ≡ stored s)
  unfolding keccak
  stored-keccak bytes hash s t h =
      let token = hash_keccak256_token (length bytes) in
      bind_elim (charge_token host env token s) _ h λ s' e p.
        let same = done-injective p in
        (
          ap (λ q. q.0) (sym same),
          ap (λ q. stored q.1) (sym same) ∙ stored-charge_token token s s' e,
        )

  -- The ledger after a transfer of a value: untouched for none, else what the payment left.
  pub data Sent (from to value : ℕ) (l : Ledger) : Ledger → Type 0 where
    nothing : value ≡ 0 → Sent from to value l l
    paid :
        {l' : Ledger}
        → value ≢ 0
        → send host env l from to value ≡ done l'
        → Sent from to value l l'

  pub stored-move_funds :
      (from to value : ℕ) (s t : State Ledger Meter)
      → move_funds host env from to value s ≡ done t
      → (value < u128_mod)
        × ((stored t ≡ record (stored s) { ledger = t.ledger })
            × Sent from to value s.ledger t.ledger)
  unfolding move_funds
  stored-move_funds from to value s t h = bind_elim (try_from value) _ h λ amount e h'.
      let fits = try_from-done value amount e in (fits.1, ended (amount == 0) refl fits.0 h')
    where
      ended :
          {amount : ℕ} (none_due : Bool)
          → (amount == 0) ≡ none_due
          → amount ≡ value
          → (if none_due
              then done s
              else (send host env s.ledger from to amount >>= λ l. done (record s { ledger = l })))
            ≡ done t
          → (stored t ≡ record (stored s) { ledger = t.ledger })
            × Sent from to value s.ledger t.ledger
      ended true e v h = rw (← done-injective h) (refl, nothing (ground (arith, e, v)))
      ended {amount = amount} false e v h =
          bind_elim (send host env s.ledger from to amount) _ h
            λ l sent p. rw (← done-injective p) (refl, paid (ground (arith, e, v)) (rw (v) at sent))
