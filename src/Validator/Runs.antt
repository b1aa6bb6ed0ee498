-- ===== src/Validator/Runs.antt =====
-- Runs of the validator pallet: any order of calls, reports, session boundaries and blocks
-- (pallets/validator/src/lib.rs).
use numen.Prelude.{ℕ, ◌≤◌, ◌<◌, ◌≡◌, Bool, u32_mod}
use numen.Validator.Defs.State.{Config, Gates, Currency, State}
use numen.Frame.{Origin}
use numen.Validator.Defs.Calls.{ok, lock, request_exit, set_stake_exempt}
use numen.Validator.Defs.Sweep.{on_initialize}
use numen.Validator.Defs.Session.{note_offline, note_equivocation, new_session}
use numen.Validator.Invariant.{IsConsistent}
use numen.Validator.Preserve.ByCalls.{
  lock-IsConsistent, request_exit-IsConsistent, set_stake_exempt-IsConsistent,
}
use numen.Validator.Preserve.BySession.{
  note_offline-IsConsistent, note_equivocation-IsConsistent, new_session-IsConsistent,
}
use numen.Validator.Preserve.BySweep.{on_initialize-IsConsistent}

-- The block number moves and the hook runs.
abbrev pub next_block :
    {Ledger : Type 0} ⦃cur : Currency Ledger⦄ → Config → State Ledger → ℕ → State Ledger
next_block cfg s n = on_initialize cfg (record s { block_number = n }) n

-- One event on the chain. The last one is anything that other pallets do to the currency: it leaves
-- this pallet's locks alone.
pub data Step {Ledger : Type 0} ⦃cur : Currency Ledger⦄ (cfg : Config) (s : State Ledger)
    : State Ledger → Type 0 where
  locking :
      (gates : Gates) (o : Origin) {t : State Ledger} → lock cfg gates s o ≡ ok t → Step cfg s t
  exiting : (o : Origin) {t : State Ledger} → request_exit s o ≡ ok t → Step cfg s t
  exempting :
      (permitted : Bool) (who : ℕ) (exempt : Bool) {t : State Ledger}
      → set_stake_exempt s permitted who exempt ≡ ok t
      → Step cfg s t
  reporting_offline : (who : ℕ) → Step cfg s (note_offline s who)
  reporting_equivocation : (who : ℕ) → Step cfg s (note_equivocation s who)
  rotating : (gates : Gates) → Step cfg s (new_session cfg gates s).0
  advancing : (n : ℕ) → s.block_number ≤ n → Step cfg s (next_block cfg s n)
  banking :
      (l : Ledger)
      → ((a : ℕ) → cur.locked l a ≡ cur.locked s.ledger a)
      → Step cfg s (record s { ledger = l })

pub data Reach {Ledger : Type 0} ⦃cur : Currency Ledger⦄ (cfg : Config) (s : State Ledger)
    : State Ledger → Type 0 where
  here : Reach cfg s s
  next : {t u : State Ledger} → Reach cfg s t → Step cfg t u → Reach cfg s u

module _ {Ledger : Type 0} ⦃cur : Currency Ledger⦄ (cfg : Config) where
  banking-IsConsistent :
      (s : State Ledger) (l : Ledger)
      → ((a : ℕ) → cur.locked l a ≡ cur.locked s.ledger a)
      → IsConsistent cfg s
      → IsConsistent cfg (record s { ledger = l })
  banking-IsConsistent s l same c = record {
    locks_distinct = c.locks_distinct;
    desired_distinct = c.desired_distinct;
    pending_distinct = c.pending_distinct;
    disjoint = c.disjoint;
    bounded = c.bounded;
    active_is_member = c.active_is_member;
    funds_match = λ a. rw (same a) (c.funds_match a);
    expiry_fits = c.expiry_fits;
  }

  pub Step-IsConsistent :
      (s t : State Ledger)
      → cfg.max_validators < u32_mod
      → Step cfg s t
      → IsConsistent cfg s
      → IsConsistent cfg t
  Step-IsConsistent s t u (locking gates o h) c = lock-IsConsistent cfg gates s o u h c
  Step-IsConsistent s t u (exiting o h) c = request_exit-IsConsistent cfg s o h c
  Step-IsConsistent s t u (exempting permitted who exempt h) c =
      set_stake_exempt-IsConsistent cfg s permitted who exempt h c
  Step-IsConsistent s t u (reporting_offline who) c = note_offline-IsConsistent cfg s who c
  Step-IsConsistent s t u (reporting_equivocation who) c =
      note_equivocation-IsConsistent cfg s who c
  Step-IsConsistent s t u (rotating gates) c = new_session-IsConsistent cfg gates s c
  Step-IsConsistent s t u (advancing n h) c =
      on_initialize-IsConsistent cfg (record s { block_number = n }) n c
  Step-IsConsistent s t u (banking l same) c = banking-IsConsistent s l same c

  -- Where the bound on validators is a 32-bit number, whatever calls, reports, session boundaries
  -- and blocks follow in whatever order on a state that satisfies the invariant, the invariant
  -- holds: no account is listed twice, the set and the queue fit the bound, each active lock
  -- belongs to a member of the set or of the queue, the currency holds exactly what the lock
  -- records say, and expiries are 32-bit numbers.
  pub Reach-IsConsistent :
      {s t : State Ledger}
      → cfg.max_validators < u32_mod
      → IsConsistent cfg s
      → Reach cfg s t
      → IsConsistent cfg t
  Reach-IsConsistent u c here = c
  Reach-IsConsistent u c (next r st) = Step-IsConsistent _ _ u st (Reach-IsConsistent u c r)
