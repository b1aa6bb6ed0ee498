-- ===== src/Validator/Stake.antt =====
-- How long a validator's stake stays locked (pallets/validator/src/lib.rs).
use numen.Prelude.{
  ℕ, ◌≤◌, ◌<◌, ◌≡◌, refl, true, false, Bool, Option, some, none, arith, u32_mod, ◌∙◌, [],
}
use numen.Prelude.Maps.{lookup, lookup-insert}
use numen.Validator.Defs.State.{LockInfo, exit_requested, Config, Gates, Currency, State}
use numen.Frame.{Origin, signed, root, unsigned}
use numen.Validator.Defs.Calls.{
  ok, lock, request_exit, set_stake_exempt, place_lock, new_terms, leave,
}
use numen.Validator.Defs.Session.{
  note_offline, note_equivocation, new_session, process_reports, next_set, retain,
}
use numen.Validator.Joining.{held, expiry_of, lock-MayLock}
use numen.Validator.Leaving.{request_exit-lock}
use numen.Validator.Demotion.{Demotes, terms, process_reports-Demotes, promote_all-Demotes}
use numen.Validator.Expiry.{swept, lookup-on_initialize, block-on_initialize}
use numen.Validator.Invariant.{IsConsistent}
use numen.Validator.Preserve.BySession.{held_of_terms, expiry_of-terms}
use numen.Validator.Runs.{
  Step, locking, exiting, exempting, reporting_offline, reporting_equivocation, rotating, advancing,
  banking, Reach, here, next, Reach-IsConsistent, next_block,
}

-- One commitment binds at least as hard as another.
abbrev pub Binds : Option LockInfo → Option LockInfo → Type 0
Binds o p = (held o ≤ held p) × (expiry_of o ≤ expiry_of p)

same-Binds : (o p : Option LockInfo) → p ≡ o → Binds o p
same-Binds o p e = rw e (omega arith)

swept-Binds :
    (cfg : Config) (now : ℕ) (o : Option LockInfo)
    → now < expiry_of o
    → expiry_of o < u32_mod
    → Binds o (swept cfg now o)
swept-Binds cfg now none h f = elim h [ ]
swept-Binds cfg now (some info) h f = ground arith

-- A session boundary may end statuses, and changes no amount, start or expiry of any lock.
pub new_session-terms :
    {Ledger : Type 0} (cfg : Config) (gates : Gates) (s : State Ledger) (a : ℕ)
    → terms (lookup a (new_session cfg gates s).0.locks) ≡ terms (lookup a s.locks)
unfolding new_session next_set
new_session-terms cfg gates s a =
    let r = process_reports cfg s in
    (promote_all-Demotes cfg gates (record r { pending = [] }, retain cfg r.locks r.desired [])
        r.pending).same_terms
      a
    ∙ (process_reports-Demotes cfg s).same_terms a

module _ {Ledger : Type 0} ⦃cur : Currency Ledger⦄ (cfg : Config) (a : ℕ) where
  place_lock-Binds :
      (s : State Ledger) (who : ℕ)
      → Binds (lookup a s.locks) (lookup a (place_lock cfg s who (new_terms cfg s who)).locks)
  unfolding place_lock new_terms
  place_lock-Binds s who = grind (arith, lookup-insert)

  leave-Binds :
      (s : State Ledger) (who : ℕ) (info : LockInfo)
      → lookup who s.locks ≡ some info
      → Binds
          (lookup a s.locks)
          (lookup a (leave s who (record info { status = exit_requested })).locks)
  unfolding leave
  leave-Binds s who info e = grind (arith, lookup-insert)

  Demotes-Binds : (s t : State Ledger) → Demotes s t → Binds (lookup a s.locks) (lookup a t.locks)
  Demotes-Binds s t d =
      rw
        (
          held_of_terms (lookup a t.locks) (lookup a s.locks) (d.same_terms a),
          expiry_of-terms (lookup a t.locks) (lookup a s.locks) (d.same_terms a),
        )
        (omega arith)

  new_session-Binds :
      (gates : Gates) (s : State Ledger)
      → Binds (lookup a s.locks) (lookup a (new_session cfg gates s).0.locks)
  new_session-Binds gates s =
      let same = new_session-terms cfg gates s a in
      let t = (new_session cfg gates s).0 in
      rw
        (
          held_of_terms (lookup a t.locks) (lookup a s.locks) same,
          expiry_of-terms (lookup a t.locks) (lookup a s.locks) same,
        )
        (omega arith)

  lock-Binds :
      (gates : Gates) (s : State Ledger) (o : Origin) {t : State Ledger}
      → cfg.max_validators < u32_mod
      → lock cfg gates s o ≡ ok t
      → Binds (lookup a s.locks) (lookup a t.locks)
  lock-Binds gates s (signed who) u h =
      let (m, e) = lock-MayLock cfg gates s who u h in rw e (place_lock-Binds s who)
  lock-Binds gates s root u h = unfold lock in cc
  lock-Binds gates s unsigned u h = unfold lock in cc

  request_exit-Binds :
      (s : State Ledger) (o : Origin) {t : State Ledger}
      → request_exit s o ≡ ok t
      → Binds (lookup a s.locks) (lookup a t.locks)
  request_exit-Binds s (signed who) h =
      let (info, e, _, p) = request_exit-lock s who h in rw p (leave-Binds s who info e)
  request_exit-Binds s root h = unfold request_exit in cc
  request_exit-Binds s unsigned h = unfold request_exit in cc

  set_stake_exempt-Binds :
      (s : State Ledger) (permitted : Bool) (who : ℕ) (exempt : Bool) {t : State Ledger}
      → set_stake_exempt s permitted who exempt ≡ ok t
      → Binds (lookup a s.locks) (lookup a t.locks)
  unfolding set_stake_exempt
  set_stake_exempt-Binds s false who exempt h = cc
  set_stake_exempt-Binds s true who exempt {t} h =
      same-Binds (lookup a s.locks) (lookup a t.locks) (ground arith)

  advancing-Binds :
      (s : State Ledger) (n : ℕ)
      → IsConsistent cfg s
      → n < expiry_of (lookup a s.locks)
      → Binds (lookup a s.locks) (lookup a (next_block cfg s n).locks)
  advancing-Binds s n c h =
      rw (lookup-on_initialize cfg (record s { block_number = n }) n c.locks_distinct a)
        (swept-Binds cfg n (lookup a s.locks) h (c.expiry_fits a))

  -- Until its expiry block no event weakens a commitment.
  Step-Binds :
      (s t : State Ledger)
      → cfg.max_validators < u32_mod
      → IsConsistent cfg s
      → Step cfg s t
      → t.block_number < expiry_of (lookup a s.locks)
      → Binds (lookup a s.locks) (lookup a t.locks)
  Step-Binds s t u c (locking gates o e) h = lock-Binds gates s o u e
  Step-Binds s t u c (exiting o e) h = request_exit-Binds s o e
  Step-Binds s t u c (exempting permitted who exempt e) h =
      set_stake_exempt-Binds s permitted who exempt e
  Step-Binds s t u c (reporting_offline who) h =
      unfold note_offline in
      same-Binds (lookup a s.locks) (lookup a (note_offline s who).locks) (ground arith)
  Step-Binds s t u c (reporting_equivocation who) h =
      unfold note_equivocation in
      same-Binds (lookup a s.locks) (lookup a (note_equivocation s who).locks) (ground arith)
  Step-Binds s t u c (rotating gates) h = new_session-Binds gates s
  Step-Binds s t u c (advancing n _) h =
      advancing-Binds s n c (rw (block-on_initialize cfg (record s { block_number = n }) n) at h)
  Step-Binds s t u c (banking l same) h = same-Binds (lookup a s.locks) (lookup a s.locks) refl

module _ {Ledger : Type 0} ⦃cur : Currency Ledger⦄ (cfg : Config) where
  lock-block :
      (gates : Gates) (s : State Ledger) (o : Origin) {t : State Ledger}
      → lock cfg gates s o ≡ ok t
      → t.block_number ≡ s.block_number
  unfolding lock place_lock
  lock-block gates s (signed who) h = ground arith
  lock-block gates s root h = cc
  lock-block gates s unsigned h = cc

  request_exit-block :
      (s : State Ledger) (o : Origin) {t : State Ledger}
      → request_exit s o ≡ ok t
      → t.block_number ≡ s.block_number
  unfolding request_exit leave
  request_exit-block s (signed who) h = ground arith
  request_exit-block s root h = cc
  request_exit-block s unsigned h = cc

  new_session-block :
      (gates : Gates) (s : State Ledger) → (new_session cfg gates s).0.block_number ≡ s.block_number
  unfolding new_session next_set
  new_session-block gates s =
      let r = process_reports cfg s in
      (promote_all-Demotes cfg gates (record r { pending = [] }, retain cfg r.locks r.desired [])
        r.pending).same_block
      ∙ (process_reports-Demotes cfg s).same_block

  Step-block : (s t : State Ledger) → Step cfg s t → s.block_number ≤ t.block_number
  Step-block s t (locking gates o e) = omega (arith, lock-block gates s o e)
  Step-block s t (exiting o e) = omega (arith, request_exit-block s o e)
  Step-block s t (exempting permitted who exempt e) = unfold set_stake_exempt in ground arith
  Step-block s t (reporting_offline who) = unfold note_offline in ground arith
  Step-block s t (reporting_equivocation who) = unfold note_equivocation in ground arith
  Step-block s t (rotating gates) = omega (arith, new_session-block gates s)
  Step-block s t (advancing n h) =
      omega (arith, block-on_initialize cfg (record s { block_number = n }) n, h)
  Step-block s t (banking l same) = omega arith

  Reach-Binds :
      (a : ℕ) {s t : State Ledger}
      → cfg.max_validators < u32_mod
      → IsConsistent cfg s
      → Reach cfg s t
      → t.block_number < expiry_of (lookup a s.locks)
      → Binds (lookup a s.locks) (lookup a t.locks)
  Reach-Binds a u c here h = omega arith
  Reach-Binds a u c (next {t = t} {u = v} r st) h =
      let moved = Step-block t v st in
      let before = Reach-Binds a u c r (omega arith) in
      let after = Step-Binds cfg a t v u (Reach-IsConsistent cfg u c r) st (omega arith) in
      omega (arith, before, after)

  -- From a state that satisfies the invariant, with a 32-bit bound on validators, whatever
  -- happens in whatever order, an account's stake stays locked in the currency, at no less than
  -- its amount now, until the block before its present expiry.
  pub stake_stays_locked :
      (a : ℕ) {s t : State Ledger}
      → cfg.max_validators < u32_mod
      → IsConsistent cfg s
      → Reach cfg s t
      → t.block_number < expiry_of (lookup a s.locks)
      → held (lookup a s.locks) ≤ cur.locked t.ledger a
  stake_stays_locked a u c r h =
      rw ((Reach-IsConsistent cfg u c r).funds_match a) (Reach-Binds a u c r h).0
