-- ===== src/Validator/Boundary.antt =====
-- The active set that `new_session` computes (pallets/validator/src/lib.rs): what it holds, in
-- terms of the locks, the previous set and the pending accounts.
use numen.Prelude.{
  ℕ, ◌+◌, ◌≤◌, ◌≡◌, refl, true, false, ◌&&◌, ◌||◌, List, [], ◌∷◌, ◌++◌, arith, length,
  length-append, if◌then◌else◌,
}
use numen.Prelude.Maps.{Map, lookup-insert}
use numen.Prelude.Sets.{contains, Distinct, contains-append}
use numen.Validator.Defs.State.{LockInfo, Config, Gates, State}
use numen.Validator.Defs.Calls.{is_active, try_push}
use numen.Validator.Defs.Session.{retain, drop_pending_candidate, promote, promote_all}
use numen.Validator.Demotion.{promote_all-Demotes}

pub Distinct-snoc :
    (a : ℕ) (xs : List ℕ) → Distinct xs → contains a xs ≡ false → Distinct (xs ++ a ∷ [])
unfolding contains
Distinct-snoc a [] d h = (refl, tt)
Distinct-snoc a (x ∷ xs) d h = ground (arith, Distinct-snoc a xs d.1, contains-append x xs (a ∷ []))

pub length-retain :
    (cfg : Config) (locks : Map LockInfo) (xs next : List ℕ)
    → length (retain cfg locks xs next) ≤ length next + length xs
unfolding retain
length-retain cfg locks [] next = omega arith
length-retain cfg locks (x ∷ xs) next = ground (
  arith,
  length-retain cfg locks xs next,
  length-retain cfg locks xs (next ++ x ∷ []),
  length-append next (x ∷ []),
)

-- With room for every member, the first loop keeps exactly the active ones.
pub contains-retain :
    (cfg : Config) (locks : Map LockInfo) (a : ℕ) (xs next : List ℕ)
    → length next + length xs ≤ cfg.max_validators
    → contains a (retain cfg locks xs next)
      ≡ (contains a next || (contains a xs && is_active locks a))
unfolding retain contains
contains-retain cfg locks a [] next h = ground arith
contains-retain cfg locks a (x ∷ xs) next h = ground (
  arith,
  contains-retain cfg locks a xs next,
  contains-retain cfg locks a xs (next ++ x ∷ []),
  length-append next (x ∷ []),
  contains-append a next (x ∷ []),
)

pub retain-Distinct :
    (cfg : Config) (locks : Map LockInfo) (xs next : List ℕ)
    → Distinct next
    → Distinct xs
    → ((a : ℕ) → (contains a next && contains a xs) ≡ false)
    → Distinct (retain cfg locks xs next)
unfolding retain contains
retain-Distinct cfg locks [] next d e h = d
retain-Distinct cfg locks (x ∷ xs) next d e h =
    retain-Distinct cfg locks xs
      (if is_active locks x then try_push cfg.max_validators x next else next)
      (ground (arith, Distinct-snoc x next d, h x)) e.1
      (λ a. ground (arith, h a, contains-append a next (x ∷ [])))

pub is_active-drop_pending_candidate :
    {Ledger : Type 0} (s : State Ledger) (who : ℕ)
    → is_active (drop_pending_candidate s who).locks who ≡ false
unfolding drop_pending_candidate is_active
is_active-drop_pending_candidate s who = grind (arith, lookup-insert)

module _ {Ledger : Type 0} (cfg : Config) (gates : Gates) where
  promote_mono :
      (p : State Ledger × List ℕ) (who a : ℕ)
      → contains a p.1 ≡ true
      → contains a (promote cfg gates p who).1 ≡ true
  unfolding promote contains
  promote_mono (s, next) who a h = ground (arith, contains-append a next (who ∷ []))

  promote-covers :
      (p : State Ledger × List ℕ) (who : ℕ)
      → is_active (promote cfg gates p who).0.locks who ≡ true
      → contains who (promote cfg gates p who).1 ≡ true
  unfolding promote contains
  promote-covers (s, next) who h =
      ground (arith, contains-append who next (who ∷ []), is_active-drop_pending_candidate s who)

  length-promote :
      (p : State Ledger × List ℕ) (who : ℕ)
      → length p.1 ≤ cfg.max_validators
      → length (promote cfg gates p who).1 ≤ cfg.max_validators
  unfolding promote
  length-promote (s, next) who h = ground (arith, length-append next (who ∷ []))

  promote-Distinct :
      (p : State Ledger × List ℕ) (who : ℕ) → Distinct p.1 → Distinct (promote cfg gates p who).1
  unfolding promote
  promote-Distinct (s, next) who d = ground (arith, Distinct-snoc who next d)

  -- Every member of the new set is active.
  promote-active :
      (p : State Ledger × List ℕ) (who : ℕ)
      → ((a : ℕ) → contains a p.1 ≡ true → is_active p.0.locks a ≡ true)
      → (a : ℕ) → contains a (promote cfg gates p who).1 ≡ true
      → is_active (promote cfg gates p who).0.locks a ≡ true
  unfolding promote contains drop_pending_candidate is_active
  promote-active (s, next) who h a m = grind (arith, h a, h who, contains-append, lookup-insert)

  pub promote_all_mono :
      (l : List ℕ) (p : State Ledger × List ℕ) (a : ℕ)
      → contains a p.1 ≡ true
      → contains a (promote_all cfg gates p l).1 ≡ true
  unfolding promote_all
  promote_all_mono [] p a h = h
  promote_all_mono (who ∷ rest) p a h =
      promote_all_mono rest (promote cfg gates p who) a (promote_mono p who a h)

  -- A pending account whose lock is still active afterwards has been promoted.
  pub promote_all-covers :
      (l : List ℕ) (p : State Ledger × List ℕ) (a : ℕ)
      → contains a l ≡ true
      → is_active (promote_all cfg gates p l).0.locks a ≡ true
      → contains a (promote_all cfg gates p l).1 ≡ true
  unfolding promote_all contains
  promote_all-covers [] p a m h = cc
  promote_all-covers (who ∷ rest) p a m h =
      let p' = promote cfg gates p who in
      ground (
        arith,
        promote_all-covers rest p' a,
        promote_all_mono rest p' a,
        promote-covers p who,
        (promote_all-Demotes cfg gates p' rest).active_before a h,
      )

  pub length-promote_all :
      (l : List ℕ) (p : State Ledger × List ℕ)
      → length p.1 ≤ cfg.max_validators
      → length (promote_all cfg gates p l).1 ≤ cfg.max_validators
  unfolding promote_all
  length-promote_all [] p h = h
  length-promote_all (who ∷ rest) p h =
      length-promote_all rest (promote cfg gates p who) (length-promote p who h)

  pub promote_all-Distinct :
      (l : List ℕ) (p : State Ledger × List ℕ)
      → Distinct p.1
      → Distinct (promote_all cfg gates p l).1
  unfolding promote_all
  promote_all-Distinct [] p d = d
  promote_all-Distinct (who ∷ rest) p d =
      promote_all-Distinct rest (promote cfg gates p who) (promote-Distinct p who d)

  pub promote_all-active :
      (l : List ℕ) (p : State Ledger × List ℕ)
      → ((a : ℕ) → contains a p.1 ≡ true → is_active p.0.locks a ≡ true)
      → (a : ℕ) → contains a (promote_all cfg gates p l).1 ≡ true
      → is_active (promote_all cfg gates p l).0.locks a ≡ true
  unfolding promote_all
  promote_all-active [] p h = h
  promote_all-active (who ∷ rest) p h =
      promote_all-active rest (promote cfg gates p who) (promote-active p who h)
