-- ===== src/Validator/Genesis.antt =====
-- `GenesisConfig::build` of pallets/validator/src/lib.rs: what it appoints, and that the storage it
-- leaves satisfies the invariant.
use numen.Prelude.{
  ℕ, ◌+◌, ◌≤◌, ◌<◌, ◌∙◌, ◌≡◌, refl, false, ◌||◌, ◌==◌, List, [], ◌∷◌, arith, length, length-append,
  some, is_some, Bool-cases, inl, inr,
}
use numen.Prelude.Maps.{lookup, keys, lookup-insert, insert-Distinct}
use numen.Prelude.Sets.{contains, contains-append}
use numen.Validator.Defs.State.{Config, Currency, State, empty_state}
use numen.Validator.Defs.Calls.{is_active}
use numen.Validator.Defs.Sweep.{enrol, appoint, build_genesis}
use numen.Validator.Boundary.{Distinct-snoc}
use numen.Validator.Invariant.{IsConsistent}

-- The storage while genesis runs: the appointed accounts are those with a lock record, nobody is
-- queued, and no funds are locked.
pub record IsFounding {Ledger : Type 0} ⦃cur : Currency Ledger⦄ (cfg : Config) (s : State Ledger)
    : Type 0 where
  pub consistent : IsConsistent cfg s
  pub no_queue : s.pending ≡ []
  pub appointed : (a : ℕ) → contains a s.desired ≡ is_some (lookup a s.locks)

module _ {Ledger : Type 0} ⦃cur : Currency Ledger⦄ (cfg : Config) where
  enrol-IsFounding :
      (s : State Ledger) (who : ℕ)
      → IsFounding cfg s
      → is_some (lookup who s.locks) ≡ false
      → length s.desired < cfg.max_validators
      → IsFounding cfg (enrol cfg s who)
  unfolding enrol contains is_active
  enrol-IsFounding s who f new room =
      let c = f.consistent in
      record {
        consistent = record {
          locks_distinct = insert-Distinct who _ s.locks c.locks_distinct;
          desired_distinct = Distinct-snoc who s.desired c.desired_distinct (f.appointed who ∙ new);
          pending_distinct = c.pending_distinct;
          disjoint = λ a. rw f.no_queue (ground arith);
          bounded = rw f.no_queue (omega (arith, length-append s.desired (who ∷ [])));
          active_is_member = λ a h.
              grind (arith, f.no_queue, c.active_is_member a, contains-append, lookup-insert);
          funds_match = λ a. grind (arith, c.funds_match a, c.funds_match who, lookup-insert);
          expiry_fits = λ a. grind (arith, c.expiry_fits a, lookup-insert);
        };
        no_queue = f.no_queue;
        appointed = λ a. grind (arith, f.appointed a, contains-append, lookup-insert);
      }

  appoint-IsFounding :
      (s : State Ledger) (who : ℕ)
      → IsFounding cfg s
      → length s.desired < cfg.max_validators
      → (t : State Ledger) × (appoint cfg s who ≡ some t)
        × IsFounding cfg t
        × (length t.desired ≤ length s.desired + 1)
        × ((a : ℕ) → contains a t.desired ≡ (contains a s.desired || a == who))
  unfolding appoint contains enrol
  appoint-IsFounding s who f room = elim (Bool-cases (is_some (lookup who s.locks))) [
    | inl old ↦ (s, rw old, f, omega arith, λ a. ground (arith, f.appointed who))
    | inr new ↦ (
      enrol cfg s who,
      ground arith,
      enrol-IsFounding s who f new room,
      omega (arith, length-append s.desired (who ∷ [])),
      λ a. ground (arith, contains-append a s.desired (who ∷ [])),
    )
  ]

  build_genesis_from :
      (xs : List ℕ) (s : State Ledger)
      → IsFounding cfg s
      → length s.desired + length xs ≤ cfg.max_validators
      → (t : State Ledger) × (build_genesis cfg s xs ≡ some t)
        × IsFounding cfg t
        × ((a : ℕ) → contains a t.desired ≡ (contains a s.desired || contains a xs))
  unfolding build_genesis contains
  build_genesis_from [] s f room = (s, refl, f, λ a. ground arith)
  build_genesis_from (who ∷ xs) s f room =
      let (s', e, f', l, m) = appoint-IsFounding s who f (omega arith) in
      let (t, e', f'', m') = build_genesis_from xs s' f' (omega arith) in
      (t, rw (e, build_genesis) e', f'', λ a. ground (arith, m a, m' a))

  -- Genesis over at most `MaxValidators` accounts does not panic. The set then holds exactly the
  -- accounts given, the queue is empty, and the invariant holds, if the currency starts with nothing
  -- locked.
  pub build_genesis-IsConsistent :
      (l : Ledger) (xs : List ℕ)
      → ((a : ℕ) → cur.locked l a ≡ 0)
      → length xs ≤ cfg.max_validators
      → (t : State Ledger) × (build_genesis cfg (empty_state l) xs ≡ some t)
        × IsConsistent cfg t
        × (t.pending ≡ [])
        × ((a : ℕ) → contains a t.desired ≡ contains a xs)
  unfolding contains lookup keys is_active
  build_genesis-IsConsistent l xs free room =
      let founding : IsFounding cfg (empty_state l) = record {
        consistent = record {
          locks_distinct = tt;
          desired_distinct = tt;
          pending_distinct = tt;
          disjoint = λ a. refl;
          bounded = omega arith;
          active_is_member = λ a h. cc;
          funds_match = free;
          expiry_fits = λ a. omega arith;
        };
        no_queue = refl;
        appointed = λ a. refl;
      } in
      let (t, e, f, m) = build_genesis_from xs (empty_state l) founding (omega arith) in
      (t, e, f.consistent, f.no_queue, m)
