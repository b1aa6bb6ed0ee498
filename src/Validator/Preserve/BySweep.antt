-- ===== src/Validator/Preserve/BySweep.antt =====
-- Genesis and `on_initialize` of pallets/validator/src/lib.rs establish and keep the invariant.
use numen.Prelude.{u32_mod, ◌<◌, if◌then◌else◌, ℕ, ◌≡◌, true, arith, Option}
use numen.Prelude.Maps.{lookup}
use numen.Validator.Defs.State.{LockInfo, Config, Currency, State}
use numen.Validator.Defs.Calls.{is_active, info_is_active}
use numen.Validator.Defs.Sweep.{on_initialize}
use numen.Validator.Joining.{held, expiry_of}
use numen.Validator.Expiry.{
  swept, expired, lookup-on_initialize, locked-on_initialize, on_initialize-keeps,
}
use numen.Validator.Invariant.{IsConsistent}

-- The sweep makes no lock active.
pub swept-active :
    (cfg : Config) (now : ℕ) (o : Option LockInfo)
    → info_is_active (swept cfg now o) ≡ true
    → info_is_active o ≡ true
swept-active cfg now o h = ground arith

swept-held :
    (cfg : Config) (now : ℕ) (o : Option LockInfo) (amount : ℕ)
    → amount ≡ held o
    → (if expired now o then 0 else amount) ≡ held (swept cfg now o)
swept-held cfg now o amount h = ground arith

swept-fits :
    (cfg : Config) (now : ℕ) (o : Option LockInfo)
    → expiry_of o < u32_mod
    → expiry_of (swept cfg now o) < u32_mod
swept-fits cfg now o h = ground arith

module _ {Ledger : Type 0} ⦃cur : Currency Ledger⦄ (cfg : Config) where
  pub on_initialize-IsConsistent :
      (s : State Ledger) (now : ℕ) → IsConsistent cfg s → IsConsistent cfg (on_initialize cfg s now)
  unfolding is_active
  on_initialize-IsConsistent s now c =
      let (p, d, k) = on_initialize-keeps cfg s now in
      let found = lookup-on_initialize cfg s now c.locks_distinct in
      record {
        locks_distinct = k c.locks_distinct;
        desired_distinct = rw d c.desired_distinct;
        pending_distinct = rw p c.pending_distinct;
        disjoint = λ a. rw (d, p) (c.disjoint a);
        bounded = rw (d, p) c.bounded;
        active_is_member =
            λ a m. rw (d, p) (c.active_is_member a (swept-active cfg now _ (rw (found a) at m)));
        funds_match = λ a.
            rw (locked-on_initialize cfg s now c.locks_distinct a, found a)
              (swept-held cfg now (lookup a s.locks) _ (c.funds_match a));
        expiry_fits = λ a. rw (found a) (swept-fits cfg now (lookup a s.locks) (c.expiry_fits a));
      }
