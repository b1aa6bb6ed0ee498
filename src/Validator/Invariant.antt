-- ===== src/Validator/Invariant.antt =====
-- The invariant of the validator pallet (pallets/validator/src/lib.rs).
use numen.Prelude.{ℕ, ◌+◌, ◌≤◌, ◌<◌, u32_mod, ◌≡◌, true, false, ◌&&◌, ◌||◌, List, length}
use numen.Prelude.Maps.{Map, lookup, keys}
use numen.Prelude.Sets.{contains, Distinct}
use numen.Validator.Defs.State.{LockInfo, Config, Currency, State}
use numen.Validator.Defs.Calls.{is_active}
use numen.Validator.Joining.{held, expiry_of}

-- Over the parts of the storage that it is about.
pub record AreConsistent {Ledger : Type 0} ⦃cur : Currency Ledger⦄ (cfg : Config)
    (locks : Map LockInfo) (desired pending : List ℕ) (ledger : Ledger) : Type 0 where
  -- No account is listed twice, in the set or in the queue or in both.
  pub locks_distinct : Distinct (keys locks)
  pub desired_distinct : Distinct desired
  pub pending_distinct : Distinct pending
  pub disjoint : (a : ℕ) → (contains a desired && contains a pending) ≡ false
  -- The set and the queue together fit the bound.
  pub bounded : length desired + length pending ≤ cfg.max_validators
  -- A lock that auto-renewal extends belongs to a member of the set or of the queue.
  pub active_is_member :
      (a : ℕ) → is_active locks a ≡ true → (contains a desired || contains a pending) ≡ true
  -- The currency holds exactly the amount of the lock record.
  pub funds_match : (a : ℕ) → cur.locked ledger a ≡ held (lookup a locks)
  -- Block numbers are 32-bit words.
  pub expiry_fits : (a : ℕ) → expiry_of (lookup a locks) < u32_mod

abbrev pub IsConsistent : {Ledger : Type 0} ⦃cur : Currency Ledger⦄ → Config → State Ledger → Type 0
IsConsistent cfg s = AreConsistent cfg s.locks s.desired s.pending s.ledger

-- The invariant reads four parts of the storage only.
pub IsConsistent-same :
    {Ledger : Type 0} ⦃cur : Currency Ledger⦄ (cfg : Config) (s t : State Ledger)
    → t.locks ≡ s.locks
    → t.desired ≡ s.desired
    → t.pending ≡ s.pending
    → t.ledger ≡ s.ledger
    → IsConsistent cfg s
    → IsConsistent cfg t
IsConsistent-same cfg s t l d p b c = rw (l, d, p, b) c
