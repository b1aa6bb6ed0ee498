-- ===== src/Validator/Defs/Sweep.antt =====
-- pallets/validator/src/lib.rs: genesis and `on_initialize`, which releases expired locks and
-- renews the active ones. The weight that the hook returns is not modelled.
use numen.Prelude.{
  ℕ, ◌-◌, Bool, ◌&&◌, ◌||◌, not, Option, none, some, List, [], ◌∷◌, leb, length, ◌==◌, is_some,
  if◌then◌else◌, ltb, ◌++◌,
}
use numen.Prelude.Maps.{Map, lookup, insert, erase}
use numen.Prelude.Sets.{add}
use numen.Validator.Defs.State.{
  active, LockInfo, validator_locked, lock_released, Config, Currency, State,
}
use numen.Validator.Defs.Calls.{block_add, status_is_active}

-- What the first pass collects.
pub record Scan : Type 0 where
  pub to_release : List (ℕ × ℕ)
  pub to_renew : List ℕ

-- The test of the first pass for a lock that has not expired: an active one, whose elapsed window
-- has reached the interval.
unfoldable pub due_for_renewal : Config → ℕ → LockInfo → Bool
due_for_renewal cfg now info =
    let elapsed_window = cfg.lock_duration - (info.expiry_block - now) in
    not (cfg.renew_interval == 0 || not (status_is_active info.status))
    && leb cfg.renew_interval elapsed_window

unfoldable pub scan : Config → ℕ → Map LockInfo → Scan
unfolding due_for_renewal
scan cfg now [] = record { to_release = []; to_renew = [] }
scan cfg now ((who, info) ∷ rest) =
    let found = scan cfg now rest in
    if leb info.expiry_block now
    then record found { to_release = (who, info.amount) ∷ found.to_release }
    else if due_for_renewal cfg now info
    then record found { to_renew = who ∷ found.to_renew }
    else found

module _ {Ledger : Type 0} ⦃cur : Currency Ledger⦄ where
  unfoldable pub release : State Ledger → List (ℕ × ℕ) → State Ledger
  release s [] = s
  release s ((who, amount) ∷ rest) =
      release
        (record s {
          ledger = cur.remove_lock s.ledger who;
          locks = erase who s.locks;
          events = lock_released who amount ∷ s.events;
        })
        rest

-- The body of `ValidatorLocks::mutate` in the renewal loop.
abbrev pub renewed : {Ledger : Type 0} → State Ledger → ℕ → ℕ → Option LockInfo → State Ledger
renewed s who expiry none = s
renewed s who expiry (some info) = record s {
  locks = insert who (record info { expiry_block = expiry }) s.locks;
  events = validator_locked who info.amount expiry ∷ s.events;
}

module _ {Ledger : Type 0} where
  unfoldable pub renew : ℕ → State Ledger → List ℕ → State Ledger
  renew expiry s [] = s
  renew expiry s (who ∷ rest) = renew expiry (renewed s who expiry (lookup who s.locks)) rest

module _ {Ledger : Type 0} ⦃cur : Currency Ledger⦄ where
  unfoldable pub on_initialize : Config → State Ledger → ℕ → State Ledger
  unfolding scan release renew
  on_initialize cfg s now =
      let found = scan cfg now s.locks in
      renew (block_add now cfg.lock_duration) (release s found.to_release) found.to_renew

-- The writes of one round of `GenesisConfig::build`. The source collects the set in a local vector
-- that it stores at the end.
unfoldable pub enrol : {Ledger : Type 0} → Config → State Ledger → ℕ → State Ledger
enrol cfg s who = record s {
  locks =
      insert who
        (record {
          amount = 0;
          lock_block = 0;
          expiry_block = block_add 0 cfg.lock_duration;
          status = active;
        })
        s.locks;
  exempt = add who s.exempt;
  desired = s.desired ++ who ∷ [];
}

-- One round of `GenesisConfig::build`; `none` is the panic of `expect` on a full vector.
unfoldable pub appoint : {Ledger : Type 0} → Config → State Ledger → ℕ → Option (State Ledger)
unfolding enrol
appoint cfg s who =
    if is_some (lookup who s.locks)
    then some s
    else if ltb (length s.desired) cfg.max_validators
    then some (enrol cfg s who)
    else none

-- `GenesisConfig::build`, from an empty storage.
unfoldable pub build_genesis :
    {Ledger : Type 0} → Config → State Ledger → List ℕ → Option (State Ledger)
unfolding appoint
build_genesis cfg s [] = some s
build_genesis cfg s (who ∷ rest) = elim (appoint cfg s who) [
  | none ↦ none
  | some s' ↦ build_genesis cfg s' rest
]
