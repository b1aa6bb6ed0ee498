-- ===== src/Validator/Defs/Calls.antt =====
-- pallets/validator/src/lib.rs: the dispatchable calls. A call that fails returns its error alone:
-- FRAME runs each call in a storage layer that a failure rolls back.
use numen.Prelude.{
  ℕ, max, Bool, true, false, ◌||◌, not, Option, none, some, List, [], ◌∷◌, ◌++◌, ltb, leb, length,
  if◌then◌else◌, u32_mod, sat_add, ◌-◌,
}
use numen.Prelude.Maps.{Map, lookup, insert, erase}
use numen.Prelude.Sets.{contains, add, without, remove_first}
use numen.Frame.{Origin, signed, root, unsigned}
use numen.Validator.Defs.State.{
  ValidatorStatus, active, exit_requested, kicked, LockInfo, validator_locked,
  validator_exit_requested, stake_exempt_set, Error, already_validator, not_validator,
  invalid_status, in_cooldown, insufficient_balance, too_many_validators,
  session_keys_not_registered, identity_not_qualified, bad_origin, Config, Gates, Currency, State,
}

pub data Result {ℓ} (A : Type ℓ) : Type ℓ where
  ok : A → Result A
  err : Error → Result A

-- `?` hands an error on.
infixl 5 ◌>>=◌
abbrev pub ◌>>=◌ {ℓ κ} : {A : Type ℓ} {B : Type κ} → Result A → (A → Result B) → Result B
err reason >>= rest = err reason
ok value >>= rest = rest value

infixl 5 ◌>>◌
abbrev pub ◌>>◌ {ℓ} : {B : Type ℓ} → Result (Unit {0}) → Result B → Result B
check >> rest = check >>= λ passed. rest

abbrev pub ensure : Bool → Error → Result (Unit {0})
ensure false reason = err reason
ensure true reason = ok tt

abbrev pub ensure_signed : Origin → Result ℕ
ensure_signed (signed who) = ok who
ensure_signed root = err bad_origin
ensure_signed unsigned = err bad_origin

-- `saturating_add` on block numbers and lengths, which are 32-bit words.
abbrev pub block_add : ℕ → ℕ → ℕ
block_add = sat_add (u32_mod - 1)

abbrev pub status_is_active : ValidatorStatus → Bool
status_is_active active = true
status_is_active exit_requested = false
status_is_active kicked = false

-- `ValidatorLocks::get(who).map(|info| info.status == Active).unwrap_or(false)`
abbrev pub info_is_active : Option LockInfo → Bool
info_is_active none = false
info_is_active (some info) = status_is_active info.status

unfoldable pub is_active : Map LockInfo → ℕ → Bool
is_active locks who = info_is_active (lookup who locks)

-- `deadline >= now` for the cooldown entry of the caller, if there is one.
abbrev pub cooling : Option ℕ → ℕ → Bool
cooling none now = false
cooling (some deadline) now = leb now deadline

-- The amount and the expiry of the lock that `lock` writes.
abbrev pub refreshed : Option LockInfo → ℕ → ℕ → ℕ × ℕ
refreshed none required fresh_expiry = (required, fresh_expiry)
refreshed (some previous) required fresh_expiry =
    (max previous.amount required, max previous.expiry_block fresh_expiry)

-- `BoundedVec::try_push`: a full vector is left as it is.
abbrev pub try_push : ℕ → ℕ → List ℕ → List ℕ
try_push bound a xs = if ltb (length xs) bound then xs ++ a ∷ [] else xs

module _ {Ledger : Type 0} ⦃cur : Currency Ledger⦄ (cfg : Config) where
  unfoldable pub required_lock : State Ledger → ℕ → ℕ
  required_lock s who = if contains who s.exempt then 0 else cfg.lock_amount

  -- The last part of `lock`: the writes.
  unfoldable pub place_lock : State Ledger → ℕ → ℕ × ℕ → State Ledger
  place_lock s who (amount, expiry) = record s {
    cooldown = erase who s.cooldown;
    pending = try_push cfg.max_validators who s.pending;
    ledger = cur.set_lock s.ledger who amount;
    locks =
        insert who
          (record {
            amount = amount;
            lock_block = s.block_number;
            expiry_block = expiry;
            status = active;
          })
          s.locks;
    events = validator_locked who amount expiry ∷ s.events;
  }

  -- The amount and the expiry that `lock` settles on.
  unfoldable pub new_terms : State Ledger → ℕ → ℕ × ℕ
  unfolding required_lock
  new_terms s who =
      refreshed (lookup who s.locks) (required_lock s who)
        (block_add s.block_number cfg.lock_duration)

  unfoldable pub lock : Gates → State Ledger → Origin → Result (State Ledger)
  unfolding place_lock new_terms
  lock gates s origin = do
    who ← ensure_signed origin
    ensure (not (contains who s.desired || contains who s.pending)) already_validator
    ensure (ltb (block_add (length s.desired) (length s.pending)) cfg.max_validators)
        too_many_validators
    ensure (gates.has_keys who) session_keys_not_registered
    ensure (gates.identity_qualified who) identity_not_qualified
    ensure (not (cooling (lookup who s.cooldown) s.block_number)) in_cooldown
    let terms = new_terms s who
    ensure (leb terms.0 (cur.free_balance s.ledger who)) insufficient_balance
    ok (place_lock s who terms)

-- `try_mutate` on the caller's lock record in `request_exit`.
abbrev pub exiting : Option LockInfo → Result LockInfo
exiting none = err not_validator
exiting (some info) =
    if status_is_active info.status
    then ok (record info { status = exit_requested })
    else err invalid_status

module _ {Ledger : Type 0} where
  -- The writes of `request_exit`, with the caller's new record.
  unfoldable pub leave : State Ledger → ℕ → LockInfo → State Ledger
  leave s who info = record s {
    locks = insert who info s.locks;
    pending = remove_first who s.pending;
    events = validator_exit_requested who ∷ s.events;
  }

  unfoldable pub request_exit : State Ledger → Origin → Result (State Ledger)
  unfolding leave
  request_exit s origin = do
    who ← ensure_signed origin
    info ← exiting (lookup who s.locks)
    ok (leave s who info)

  -- `permitted` is the answer of `ExemptOrigin::ensure_origin`.
  unfoldable pub set_stake_exempt : State Ledger → Bool → ℕ → Bool → Result (State Ledger)
  set_stake_exempt s permitted who exempt = do
    ensure permitted bad_origin
    ok (record s {
      exempt = (if exempt then add who s.exempt else without who s.exempt);
      events = stake_exempt_set who exempt ∷ s.events;
    })
