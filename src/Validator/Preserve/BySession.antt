-- ===== src/Validator/Preserve/BySession.antt =====
-- The reports and the session boundary of pallets/validator/src/lib.rs keep the invariant.
use numen.Prelude.{
  ℕ, ◌≤◌, ◌≡◌, refl, true, false, Bool, List, [], arith, length, ◌∙◌, sym, Option, ◌&&◌, ◌||◌,
}
use numen.Prelude.Maps.{lookup}
use numen.Prelude.Sets.{contains, Distinct}
use numen.Validator.Defs.State.{LockInfo, Config, Gates, Currency, State}
use numen.Validator.Defs.Calls.{is_active}
use numen.Validator.Defs.Session.{
  note_offline, note_equivocation, process_reports, next_set, new_session, retain,
}
use numen.Validator.Joining.{held, expiry_of}
use numen.Validator.Demotion.{Demotes, terms, process_reports-Demotes, promote_all-Demotes}
use numen.Validator.Boundary.{
  length-retain, contains-retain, retain-Distinct, promote_all_mono, promote_all-covers,
  length-promote_all, promote_all-Distinct,
}
use numen.Validator.Invariant.{IsConsistent, IsConsistent-same}

-- The amount of a lock record is one of its terms.
pub held_of_terms : (o p : Option LockInfo) → terms o ≡ terms p → held o ≡ held p
held_of_terms o p h = ground arith

pub expiry_of-terms : (o p : Option LockInfo) → terms o ≡ terms p → expiry_of o ≡ expiry_of p
expiry_of-terms o p h = ground arith

and_false : (b : Bool) → (b && false) ≡ false
and_false b = ground arith

module _ {Ledger : Type 0} ⦃cur : Currency Ledger⦄ (cfg : Config) where
  pub Demotes-IsConsistent :
      (s t : State Ledger) → Demotes s t → IsConsistent cfg s → IsConsistent cfg t
  Demotes-IsConsistent s t d c = record {
    locks_distinct = d.distinct c.locks_distinct;
    desired_distinct = rw d.same_desired c.desired_distinct;
    pending_distinct = rw d.same_pending c.pending_distinct;
    disjoint = λ a. rw (d.same_desired, d.same_pending) (c.disjoint a);
    bounded = rw (d.same_desired, d.same_pending) c.bounded;
    active_is_member =
        λ a m. rw (d.same_desired, d.same_pending) (c.active_is_member a (d.active_before a m));
    funds_match = λ a. rw d.same_ledger (
        c.funds_match a
        ∙ sym (held_of_terms (lookup a t.locks) (lookup a s.locks) (d.same_terms a)));
    expiry_fits = λ a.
        rw (expiry_of-terms (lookup a t.locks) (lookup a s.locks) (d.same_terms a))
          (c.expiry_fits a);
  }

  pub note_offline-IsConsistent :
      (s : State Ledger) (who : ℕ) → IsConsistent cfg s → IsConsistent cfg (note_offline s who)
  unfolding note_offline
  note_offline-IsConsistent s who c =
      IsConsistent-same cfg s (note_offline s who) (ground arith) (ground arith) (ground arith)
        (ground arith) c

  pub note_equivocation-IsConsistent :
      (s : State Ledger) (who : ℕ) → IsConsistent cfg s → IsConsistent cfg (note_equivocation s who)
  unfolding note_equivocation
  note_equivocation-IsConsistent s who c =
      IsConsistent-same cfg s (note_equivocation s who) (ground arith) (ground arith) (ground arith)
        (ground arith) c

  retain-gives :
      (s : State Ledger)
      → IsConsistent cfg s
      → (length (retain cfg s.locks s.desired []) ≤ cfg.max_validators)
        × Distinct (retain cfg s.locks s.desired [])
  unfolding contains
  retain-gives s c = (
    omega (arith, length-retain cfg s.locks s.desired [], c.bounded),
    retain-Distinct cfg s.locks s.desired [] tt c.desired_distinct (λ a. refl),
  )

  active_is_kept :
      (gates : Gates) (s : State Ledger)
      → IsConsistent cfg s
      → (a : ℕ)
      → let (t, next) = next_set cfg gates s in
        is_active t.locks a ≡ true → (contains a next || contains a t.pending) ≡ true
  unfolding next_set contains
  active_is_kept gates s c a m =
      let kept = retain cfg s.locks s.desired [] in
      let p : State Ledger × List ℕ = (record s { pending = [] }, kept) in
      let before = (promote_all-Demotes cfg gates p s.pending).active_before a m in
      ground (
        arith,
        before,
        c.bounded,
        c.active_is_member a before,
        contains-retain cfg s.locks a s.desired [],
        promote_all_mono cfg gates s.pending p a,
        promote_all-covers cfg gates s.pending p a,
      )

  pub next_set-IsConsistent :
      (gates : Gates) (s : State Ledger)
      → IsConsistent cfg s
      → let (t, next) = next_set cfg gates s in IsConsistent cfg (record t { desired = next })
  unfolding next_set contains
  next_set-IsConsistent gates s c =
      let kept = retain cfg s.locks s.desired [] in
      let taken : State Ledger = record s { pending = [] } in
      let d = promote_all-Demotes cfg gates (taken, kept) s.pending in
      let (fits, single) = retain-gives s c in
      record {
        locks_distinct = d.distinct c.locks_distinct;
        desired_distinct = promote_all-Distinct cfg gates s.pending (taken, kept) single;
        pending_distinct = rw d.same_pending tt;
        disjoint = λ a. rw d.same_pending (and_false _);
        bounded =
            rw d.same_pending
              (omega (arith, length-promote_all cfg gates s.pending (taken, kept) fits));
        active_is_member = λ a m. active_is_kept gates s c a m;
        funds_match = λ a.
            rw d.same_ledger
              (c.funds_match a ∙ sym (held_of_terms _ (lookup a s.locks) (d.same_terms a)));
        expiry_fits = λ a.
            rw
              (expiry_of-terms (lookup a (next_set cfg gates s).0.locks) (lookup a s.locks)
                (d.same_terms a))
              (c.expiry_fits a);
      }

  process_reports-IsConsistent :
      (s : State Ledger) → IsConsistent cfg s → IsConsistent cfg (process_reports cfg s)
  process_reports-IsConsistent s c =
      Demotes-IsConsistent s (process_reports cfg s) (process_reports-Demotes cfg s) c

  pub new_session-IsConsistent :
      (gates : Gates) (s : State Ledger)
      → IsConsistent cfg s
      → IsConsistent cfg (new_session cfg gates s).0
  unfolding new_session
  new_session-IsConsistent gates s c =
      next_set-IsConsistent gates (process_reports cfg s) (process_reports-IsConsistent s c)
