-- ===== src/Validator/Preserve/ByCalls.antt =====
-- The dispatchable calls of pallets/validator/src/lib.rs keep the invariant.
use numen.Prelude.{ℕ, ◌<◌, ◌≡◌, true, false, Bool, [], ◌∷◌, arith, some, length-append, u32_mod}
use numen.Prelude.Maps.{lookup, lookup-insert, insert-Distinct}
use numen.Prelude.Sets.{
  contains, contains-append, contains-remove_first, length-remove_first, remove_first-Distinct,
}
use numen.Validator.Defs.State.{LockInfo, exit_requested, Config, Gates, Currency, State}
use numen.Frame.{Origin, signed, root, unsigned}
use numen.Validator.Defs.Calls.{
  ok, leave, is_active, place_lock, new_terms, lock, request_exit, set_stake_exempt,
}
use numen.Validator.Joining.{expiry_of, MayLock, lock-MayLock}
use numen.Validator.Leaving.{request_exit-lock}
use numen.Validator.Boundary.{Distinct-snoc}
use numen.Validator.Invariant.{IsConsistent, IsConsistent-same}

module _ {Ledger : Type 0} ⦃cur : Currency Ledger⦄ (cfg : Config) (gates : Gates) where
  new_terms-fits :
      (s : State Ledger) (who : ℕ)
      → expiry_of (lookup who s.locks) < u32_mod
      → (new_terms cfg s who).1 < u32_mod
  unfolding new_terms
  new_terms-fits s who h = ground arith

  place_lock-IsConsistent :
      (s : State Ledger) (who : ℕ)
      → MayLock cfg gates s who
      → IsConsistent cfg s
      → IsConsistent cfg (place_lock cfg s who (new_terms cfg s who))
  unfolding place_lock is_active contains
  place_lock-IsConsistent s who m c = record {
    locks_distinct = insert-Distinct who _ s.locks c.locks_distinct;
    desired_distinct = c.desired_distinct;
    pending_distinct = ground (arith, Distinct-snoc who s.pending c.pending_distinct m.not_pending);
    disjoint =
        λ a. ground (arith, m.not_active, c.disjoint a, contains-append a s.pending (who ∷ []));
    bounded = ground (arith, m.room, c.bounded, length-append s.pending (who ∷ []));
    active_is_member = λ a h. grind (
      arith,
      m.room,
      c.active_is_member a,
      contains-append a s.pending (who ∷ []),
      lookup-insert,
    );
    funds_match = λ a. grind (arith, c.funds_match a, cur.locked-set_lock, lookup-insert);
    expiry_fits =
        λ a. grind (arith, c.expiry_fits a, c.expiry_fits who, new_terms-fits s who, lookup-insert);
  }

  pub lock-IsConsistent :
      (s : State Ledger) (origin : Origin) {t : State Ledger}
      → cfg.max_validators < u32_mod
      → lock cfg gates s origin ≡ ok t
      → IsConsistent cfg s
      → IsConsistent cfg t
  lock-IsConsistent s (signed who) u h c =
      let (m, e) = lock-MayLock cfg gates s who u h in rw e (place_lock-IsConsistent s who m c)
  lock-IsConsistent s root u h c = unfold lock in cc
  lock-IsConsistent s unsigned u h c = unfold lock in cc

module _ {Ledger : Type 0} ⦃cur : Currency Ledger⦄ (cfg : Config) where
  leave-IsConsistent :
      (s : State Ledger) (who : ℕ) (info : LockInfo)
      → lookup who s.locks ≡ some info
      → IsConsistent cfg s
      → IsConsistent cfg (leave s who (record info { status = exit_requested }))
  unfolding leave is_active
  leave-IsConsistent s who info e c = record {
    locks_distinct = insert-Distinct who _ s.locks c.locks_distinct;
    desired_distinct = c.desired_distinct;
    pending_distinct = remove_first-Distinct who s.pending c.pending_distinct;
    disjoint =
        λ a. ground (arith, c.disjoint a, contains-remove_first a who s.pending c.pending_distinct);
    bounded = omega (arith, length-remove_first who s.pending, c.bounded);
    active_is_member = λ a m. grind (
      arith,
      c.active_is_member a,
      contains-remove_first a who s.pending c.pending_distinct,
      lookup-insert,
    );
    funds_match = λ a. grind (arith, c.funds_match a, c.funds_match who, lookup-insert);
    expiry_fits = λ a. grind (arith, c.expiry_fits a, c.expiry_fits who, lookup-insert);
  }

  pub request_exit-IsConsistent :
      (s : State Ledger) (origin : Origin) {t : State Ledger}
      → request_exit s origin ≡ ok t
      → IsConsistent cfg s
      → IsConsistent cfg t
  request_exit-IsConsistent s (signed who) h c =
      let (info, e, _, p) = request_exit-lock s who h in rw p (leave-IsConsistent s who info e c)
  request_exit-IsConsistent s root h c = unfold request_exit in cc
  request_exit-IsConsistent s unsigned h c = unfold request_exit in cc

  pub set_stake_exempt-IsConsistent :
      (s : State Ledger) (permitted : Bool) (who : ℕ) (exempt : Bool) {t : State Ledger}
      → set_stake_exempt s permitted who exempt ≡ ok t
      → IsConsistent cfg s
      → IsConsistent cfg t
  unfolding set_stake_exempt
  set_stake_exempt-IsConsistent s false who exempt h c = cc
  set_stake_exempt-IsConsistent s true who exempt {t} h c =
      IsConsistent-same cfg s t (ground arith) (ground arith) (ground arith) (ground arith) c
