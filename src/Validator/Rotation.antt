-- ===== src/Validator/Rotation.antt =====
-- What a session boundary of pallets/validator/src/lib.rs leaves behind: the set, the queue, and what
-- pallet_session is told.
use numen.Prelude.{
  ℕ, ◌≡◌, ◌≢◌, ◌↔◌, refl, true, false, ◌||◌, Bool, List, [], ◌∷◌, arith, some, none,
}
use numen.Prelude.Sets.{contains}
use numen.Validator.Defs.State.{Config, Gates, Currency, State}
use numen.Validator.Defs.Calls.{is_active}
use numen.Validator.Defs.Session.{
  same_accounts, session_change, process_reports, next_set, new_session, retain,
}
use numen.Validator.Demotion.{process_reports-Demotes, promote_all-Demotes}
use numen.Validator.Boundary.{contains-retain, promote_all-active}
use numen.Validator.Invariant.{IsConsistent}
use numen.Validator.Preserve.BySession.{new_session-IsConsistent, Demotes-IsConsistent}

same_accounts_iff : (xs ys : List ℕ) → (same_accounts xs ys ≡ true) ↔ (xs ≡ ys)
unfolding same_accounts
same_accounts_iff [] [] = (λ _. refl, λ _. refl)
same_accounts_iff [] (y ∷ ys) = (λ h. cc, λ h. cc)
same_accounts_iff (x ∷ xs) [] = (λ h. cc, λ h. cc)
same_accounts_iff (x ∷ xs) (y ∷ ys) =
    let ih = same_accounts_iff xs ys in (λ h. ground (arith, ih.0), λ h. ground (arith, ih.1))

session_change_empty : (previous : List ℕ) → session_change [] previous ≡ none
unfolding session_change
session_change_empty [] = refl
session_change_empty (x ∷ previous) = refl

-- pallet_session is handed a set exactly when the set is new and not empty.
session_change_iff :
    (next previous v : List ℕ)
    → (session_change next previous ≡ some v) ↔ ((v ≡ next) × (v ≢ []) × (v ≢ previous))
unfolding session_change
session_change_iff next previous v = (forward next, backward next)
  where
    forward :
        (n : List ℕ) → session_change n previous ≡ some v → (v ≡ n) × (v ≢ []) × (v ≢ previous)
    forward [] h = cc (session_change_empty previous)
    forward (x ∷ n) h =
        (ground arith, λ e. ground arith, λ e. ground (arith, same_accounts_iff (x ∷ n) previous))

    backward :
        (n : List ℕ) → (v ≡ n) × (v ≢ []) × (v ≢ previous) → session_change n previous ≡ some v
    backward [] h = absurd (h.1 h.0)
    backward (x ∷ n) h = ground (arith, same_accounts_iff (x ∷ n) previous)

session_change_from :
    (next previous before v : List ℕ)
    → previous ≡ before
    → (session_change next previous ≡ some v) ↔ ((v ≡ next) × (v ≢ []) × (v ≢ before))
session_change_from next previous before v e = rw (← e) (session_change_iff next previous v)

module _ {Ledger : Type 0} (cfg : Config) (gates : Gates) (s : State Ledger) where
  no_pending : (new_session cfg gates s).0.pending ≡ []
  unfolding new_session next_set
  no_pending =
      let r = process_reports cfg s in
      (promote_all-Demotes cfg gates (record r { pending = [] }, retain cfg r.locks r.desired [])
        r.pending).same_pending

module _ {Ledger : Type 0} ⦃cur : Currency Ledger⦄ (cfg : Config) (gates : Gates)
    (s : State Ledger) where
  members_active :
      IsConsistent cfg s
      → (a : ℕ) → contains a (new_session cfg gates s).0.desired ≡ true
      → is_active (new_session cfg gates s).0.locks a ≡ true
  unfolding new_session next_set contains
  members_active c =
      let r = process_reports cfg s in
      let c' = Demotes-IsConsistent cfg s r (process_reports-Demotes cfg s) c in
      promote_all-active cfg gates r.pending
        (record r { pending = [] }, retain cfg r.locks r.desired [])
        (λ a m. ground (arith, contains-retain cfg r.locks a r.desired [], c'.bounded))

  -- At a session boundary from a consistent state the queue is emptied, and an account is in the new
  -- set exactly when its lock is active.
  pub new_session-members :
      (a : ℕ)
      → IsConsistent cfg s
      → ((new_session cfg gates s).0.pending ≡ [])
        × (contains a (new_session cfg gates s).0.desired
            ≡ is_active (new_session cfg gates s).0.locks a)
  unfolding contains
  new_session-members a c =
      let t = (new_session cfg gates s).0 in
      let empty = no_pending cfg gates s in
      (
        empty,
        both (contains a t.desired) (is_active t.locks a) (members_active c a) λ active.
            or_false (contains a t.desired)
              (rw empty at ((new_session-IsConsistent cfg gates s c).active_is_member a active)),
      )
    where
      both : (p q : Bool) → (p ≡ true → q ≡ true) → (q ≡ true → p ≡ true) → p ≡ q
      both p q f g = ground arith

      or_false : (p : Bool) → (p || false) ≡ true → p ≡ true
      or_false p h = ground arith

module _ {Ledger : Type 0} (cfg : Config) (gates : Gates) (s : State Ledger) where
  -- `new_session` hands pallet_session a set exactly when the new set is not empty and differs from
  -- the previous one, and it is the new set then.
  pub new_session-returns :
      (v : List ℕ)
      → ((new_session cfg gates s).1 ≡ some v)
        ↔ ((v ≡ (new_session cfg gates s).0.desired) × (v ≢ []) × (v ≢ s.desired))
  unfolding new_session
  new_session-returns v =
      let r = process_reports cfg s in
      session_change_from (next_set cfg gates r).1 r.desired s.desired v
        (process_reports-Demotes cfg s).same_desired
