-- ===== src/Validator/Joining.antt =====
-- `lock` of pallets/validator/src/lib.rs: exactly when it succeeds, and the terms it settles on.
use numen.Prelude.{
  ℕ, ◌+◌, ◌≤◌, ◌<◌, ◌≡◌, refl, ◌↔◌, true, false, Option, none, some, [], ◌∷◌, arith, length,
  u32_mod, max, min, ◌-◌, ◌⊎◌, inl, inr, ap, ap₂, sym, ◌∙◌, ◌++◌, if◌then◌else◌,
}
use numen.Prelude.Maps.{lookup, insert, erase}
use numen.Prelude.Sets.{contains}
use numen.Validator.Defs.State.{LockInfo, active, Config, Gates, Currency, State, validator_locked}
use numen.Frame.{Origin, signed, root, unsigned}
use numen.Validator.Defs.Calls.{
  ok, block_add, cooling, required_lock, place_lock, new_terms, lock, refreshed, try_push,
}

-- What `lock` demands of its caller.
pub record MayLock {Ledger : Type 0} ⦃cur : Currency Ledger⦄ (cfg : Config) (gates : Gates)
    (s : State Ledger) (who : ℕ) : Type 0 where
  pub not_active : contains who s.desired ≡ false
  pub not_pending : contains who s.pending ≡ false
  pub room : length s.desired + length s.pending < cfg.max_validators
  pub keys_registered : gates.has_keys who ≡ true
  pub identified : gates.identity_qualified who ≡ true
  pub cooled_down : cooling (lookup who s.cooldown) s.block_number ≡ false
  pub covered : (new_terms cfg s who).0 ≤ cur.free_balance s.ledger who

-- The amount and the expiry of a lock record, 0 where there is none.
abbrev pub held : Option LockInfo → ℕ
held none = 0
held (some info) = info.amount

abbrev pub expiry_of : Option LockInfo → ℕ
expiry_of none = 0
expiry_of (some info) = info.expiry_block

abbrev fresh_lock : ℕ × ℕ → ℕ → LockInfo
fresh_lock (amount, expiry) now = record {
  amount = amount;
  lock_block = now;
  expiry_block = expiry;
  status = active;
}

cooled :
    (deadline : Option ℕ) (now : ℕ)
    → (cooling deadline now ≡ false)
      ↔ ((deadline ≡ none) ⊎ (d : ℕ) × (deadline ≡ some d) × (d < now))
cooled none now = (λ h. inl refl, λ c. refl)
cooled (some d) now = (λ h. inr (d, refl, ground (arith, h)), λ c. ground (arith, c))

module _ {Ledger : Type 0} ⦃cur : Currency Ledger⦄ (cfg : Config) where
  -- The stake of an account that joins, and the block at which its lock ends.
  abbrev pub stake_due : State Ledger → ℕ → ℕ
  stake_due s who =
      max (if contains who s.exempt then 0 else cfg.lock_amount) (held (lookup who s.locks))

  abbrev pub expiry_due : State Ledger → ℕ → ℕ
  expiry_due s who =
      max (min (u32_mod - 1) (s.block_number + cfg.lock_duration)) (expiry_of (lookup who s.locks))

  -- Who may join, said without the tests of the code.
  pub record IsAdmitted (gates : Gates) (s : State Ledger) (who : ℕ) : Type 0 where
    pub not_active : contains who s.desired ≡ false
    pub not_pending : contains who s.pending ≡ false
    pub room : length s.desired + length s.pending < cfg.max_validators
    pub keys_registered : gates.has_keys who ≡ true
    pub identified : gates.identity_qualified who ≡ true
    pub cooled_down :
        (lookup who s.cooldown ≡ none)
        ⊎ (d : ℕ) × (lookup who s.cooldown ≡ some d) × (d < s.block_number)
    pub covered : stake_due s who ≤ cur.free_balance s.ledger who

  -- The state once an account has joined the queue.
  abbrev pub joined : State Ledger → ℕ → State Ledger
  joined s who = record s {
    cooldown = erase who s.cooldown;
    pending = s.pending ++ who ∷ [];
    ledger = cur.set_lock s.ledger who (stake_due s who);
    locks =
        insert who
          (record {
            amount = stake_due s who;
            lock_block = s.block_number;
            expiry_block = expiry_due s who;
            status = active;
          })
          s.locks;
    events = validator_locked who (stake_due s who) (expiry_due s who) ∷ s.events;
  }

module _ {Ledger : Type 0} ⦃cur : Currency Ledger⦄ (cfg : Config) (gates : Gates) where
  pub lock-MayLock :
      (s : State Ledger) (who : ℕ) {t : State Ledger}
      → cfg.max_validators < u32_mod
      → lock cfg gates s (signed who) ≡ ok t
      → MayLock cfg gates s who × (t ≡ place_lock cfg s who (new_terms cfg s who))
  unfolding lock
  lock-MayLock s who u h = ground arith

  pub MayLock-lock :
      (s : State Ledger) (who : ℕ)
      → MayLock cfg gates s who
      → lock cfg gates s (signed who) ≡ ok (place_lock cfg s who (new_terms cfg s who))
  unfolding lock
  MayLock-lock s who m = ground arith

  new_terms_lem :
      (s : State Ledger) (who : ℕ)
      → new_terms cfg s who ≡ (stake_due cfg s who, expiry_due cfg s who)
  unfolding new_terms required_lock
  new_terms_lem s who = terms (lookup who s.locks)
    where
      terms :
          (previous : Option LockInfo)
          → refreshed previous
              (required_lock cfg s who)
              (block_add s.block_number cfg.lock_duration)
            ≡ (
              max (if contains who s.exempt then 0 else cfg.lock_amount) (held previous),
              max (min (u32_mod - 1) (s.block_number + cfg.lock_duration)) (expiry_of previous),
            )
      terms none = ap₂ (λ a b. (a, b)) (ground arith) (ground arith)
      terms (some info) = ap₂ (λ a b. (a, b)) (ground arith) (ground arith)

  MayLock-IsAdmitted :
      (s : State Ledger) (who : ℕ) → MayLock cfg gates s who → IsAdmitted cfg gates s who
  MayLock-IsAdmitted s who m = record {
    not_active = m.not_active;
    not_pending = m.not_pending;
    room = m.room;
    keys_registered = m.keys_registered;
    identified = m.identified;
    cooled_down = (cooled (lookup who s.cooldown) s.block_number).0 m.cooled_down;
    covered = rw (ap (λ t. t.0) (sym (new_terms_lem s who))) m.covered;
  }

  IsAdmitted-MayLock :
      (s : State Ledger) (who : ℕ) → IsAdmitted cfg gates s who → MayLock cfg gates s who
  IsAdmitted-MayLock s who m = record {
    not_active = m.not_active;
    not_pending = m.not_pending;
    room = m.room;
    keys_registered = m.keys_registered;
    identified = m.identified;
    cooled_down = (cooled (lookup who s.cooldown) s.block_number).1 m.cooled_down;
    covered = rw (ap (λ t. t.0) (new_terms_lem s who)) m.covered;
  }

  place_lock-joined :
      (s : State Ledger) (who : ℕ)
      → length s.desired + length s.pending < cfg.max_validators
      → place_lock cfg s who (new_terms cfg s who) ≡ joined cfg s who
  unfolding place_lock
  place_lock-joined s who room = ap (place_lock cfg s who) (new_terms_lem s who) ∙ rw pushed refl
    where
      pushed : try_push cfg.max_validators who s.pending ≡ s.pending ++ who ∷ []
      pushed = ground arith

  -- Where the bound on validators is a 32-bit number, `lock` succeeds exactly when its caller is
  -- signed and is neither a member of the set nor queued, the set and the queue leave room, session
  -- keys and identity are there, the deadline of its cooldown, if it has one, has passed, and the
  -- free balance covers the stake: the amount required, or that of its lock record if it is larger.
  -- In its result the caller stands last in the queue, its cooldown is gone, the currency locks the
  -- stake, the lock record is active with the stake, the current block and the later of a full
  -- duration and the old expiry, one event says so, and nothing else has changed.
  pub lock-ok_iff :
      cfg.max_validators < u32_mod
      → (s : State Ledger) (origin : Origin) (t : State Ledger)
      → (lock cfg gates s origin ≡ ok t)
        ↔ ((who : ℕ) × (origin ≡ signed who) × IsAdmitted cfg gates s who × (t ≡ joined cfg s who))
  lock-ok_iff u s origin t = (forward origin, backward)
    where
      forward :
          (o : Origin)
          → lock cfg gates s o ≡ ok t
          → (who : ℕ) × (o ≡ signed who) × IsAdmitted cfg gates s who × (t ≡ joined cfg s who)
      forward (signed who) h =
          let (m, e) = lock-MayLock s who u h in
          (who, refl, MayLock-IsAdmitted s who m, e ∙ place_lock-joined s who m.room)
      forward root h = unfold lock in cc
      forward unsigned h = unfold lock in cc

      backward :
          (who : ℕ) × (origin ≡ signed who) × IsAdmitted cfg gates s who × (t ≡ joined cfg s who)
          → lock cfg gates s origin ≡ ok t
      backward (who, e, m, p) =
          rw (e, p, ← place_lock-joined s who m.room)
            (MayLock-lock s who (IsAdmitted-MayLock s who m))
