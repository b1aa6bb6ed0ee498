-- ===== src/Validator/Expiry.antt =====
-- `on_initialize` of pallets/validator/src/lib.rs against what it does to each lock by itself.
use numen.Prelude.{
  ℕ, ◌+◌, ◌≡◌, refl, Bool, false, ◌&&◌, ltb, not, Option, none, some, List, [], ◌∷◌, arith, leb,
  if◌then◌else◌, ◌==◌, ◌∙◌,
}
use numen.Prelude.Maps.{
  Map, lookup, keys, lookup-insert, lookup-erase, contains-keys, insert-Distinct, erase-Distinct,
}
use numen.Prelude.Sets.{contains, Distinct}
use numen.Validator.Defs.State.{LockInfo, Config, Currency, State}
use numen.Validator.Defs.Calls.{block_add, status_is_active}
use numen.Validator.Defs.Sweep.{scan, due_for_renewal, release, renew, renewed, on_initialize}

abbrev pub expired : ℕ → Option LockInfo → Bool
expired now none = false
expired now (some info) = leb info.expiry_block now

-- Renewal is on, the lock is active and not expired, and at least the interval has passed since the
-- lock had its full duration ahead.
abbrev pub renewable : Config → ℕ → Option LockInfo → Bool
renewable cfg now none = false
renewable cfg now (some info) =
    ltb 0 cfg.renew_interval
    && status_is_active info.status
    && ltb now info.expiry_block
    && leb (info.expiry_block + cfg.renew_interval) (now + cfg.lock_duration)

abbrev pub extended : ℕ → Option LockInfo → Option LockInfo
extended expiry none = none
extended expiry (some info) = some (record info { expiry_block = expiry })

-- What the hook leaves of one lock: nothing once it has expired, a fresh expiry when it is due.
abbrev pub swept : Config → ℕ → Option LockInfo → Option LockInfo
swept cfg now o =
    if expired now o
    then none
    else if renewable cfg now o
    then extended (block_add now cfg.lock_duration) o
    else o

module _ (cfg : Config) (now : ℕ) where
  scan-absent :
      (a : ℕ) (m : Map LockInfo)
      → contains a (keys m) ≡ false
      → (contains a (keys (scan cfg now m).to_release) ≡ false)
        × (contains a (scan cfg now m).to_renew ≡ false)
  unfolding scan contains keys
  scan-absent a [] h = (refl, refl)
  scan-absent a ((k, info) ∷ m) h = ground (arith, scan-absent a m)

  scan-release :
      (a : ℕ) (m : Map LockInfo)
      → Distinct (keys m)
      → contains a (keys (scan cfg now m).to_release) ≡ expired now (lookup a m)
  unfolding scan contains keys lookup
  scan-release a [] d = refl
  scan-release a ((k, info) ∷ m) d =
      ground (arith, scan-release a m d.1, scan-absent a m, contains-keys a m)

  due-renewable :
      (info : LockInfo)
      → not (leb info.expiry_block now) && due_for_renewal cfg now info
        ≡ renewable cfg now (some info)
  unfolding due_for_renewal
  due-renewable info = ground arith

  scan-renew :
      (a : ℕ) (m : Map LockInfo)
      → Distinct (keys m)
      → contains a (scan cfg now m).to_renew ≡ renewable cfg now (lookup a m)
  unfolding scan contains keys lookup
  scan-renew a [] d = refl
  scan-renew a ((k, info) ∷ m) d =
      ground (arith, scan-renew a m d.1, scan-absent a m, contains-keys a m, due-renewable info)

module _ {Ledger : Type 0} ⦃cur : Currency Ledger⦄ where
  lookup-release :
      (a : ℕ) (l : List (ℕ × ℕ)) (s : State Ledger)
      → lookup a (release s l).locks ≡ (if contains a (keys l) then none else lookup a s.locks)
  unfolding release contains keys
  lookup-release a [] s = refl
  lookup-release a ((who, amount) ∷ l) s =
      rw (lookup-release a l) (rw (lookup-erase a who s.locks) (ground arith))

  locked-release :
      (a : ℕ) (l : List (ℕ × ℕ)) (s : State Ledger)
      → cur.locked (release s l).ledger a
        ≡ (if contains a (keys l) then 0 else cur.locked s.ledger a)
  unfolding release contains keys
  locked-release a [] s = refl
  locked-release a ((who, amount) ∷ l) s =
      rw (locked-release a l) (rw (cur.locked-remove_lock s.ledger who a) (ground arith))

  release-keeps :
      (l : List (ℕ × ℕ)) (s : State Ledger)
      → ((release s l).pending ≡ s.pending)
        × ((release s l).desired ≡ s.desired)
        × (Distinct (keys s.locks) → Distinct (keys (release s l).locks))
  unfolding release
  release-keeps [] s = (refl, refl, λ d. d)
  release-keeps ((who, amount) ∷ l) s =
      let (p, d, k) = release-keeps l _ in (p, d, λ h. k (erase-Distinct who s.locks h))

module _ {Ledger : Type 0} where
  lookup-renewed :
      (a who expiry : ℕ) (s : State Ledger)
      → lookup a (renewed s who expiry (lookup who s.locks)).locks
        ≡ (let o = lookup a s.locks in if a == who then extended expiry o else o)
  lookup-renewed a who expiry s = grind (arith, lookup-insert)

  lookup-renew :
      (a expiry : ℕ) (l : List ℕ) (s : State Ledger)
      → lookup a (renew expiry s l).locks
        ≡ (let o = lookup a s.locks in if contains a l then extended expiry o else o)
  unfolding renew contains
  lookup-renew a expiry [] s = refl
  lookup-renew a expiry (who ∷ l) s = ground (
    arith,
    lookup-renew a expiry l (renewed s who expiry (lookup who s.locks)),
    lookup-renewed a who expiry s,
  )

  renewed-keeps :
      (who expiry : ℕ) (s : State Ledger)
      → let t = renewed s who expiry (lookup who s.locks) in
        (t.pending ≡ s.pending)
        × (t.desired ≡ s.desired)
        × (t.ledger ≡ s.ledger)
        × (Distinct (keys s.locks) → Distinct (keys t.locks))
  renewed-keeps who expiry s =
      (ground arith, ground arith, ground arith, λ d. grind (arith, insert-Distinct))

  renew-keeps :
      (expiry : ℕ) (l : List ℕ) (s : State Ledger)
      → let t = renew expiry s l in
        (t.pending ≡ s.pending)
        × (t.desired ≡ s.desired)
        × (t.ledger ≡ s.ledger)
        × (Distinct (keys s.locks) → Distinct (keys t.locks))
  unfolding renew
  renew-keeps expiry [] s = (refl, refl, refl, λ d. d)
  renew-keeps expiry (who ∷ l) s =
      let (p, d, b, k) = renewed-keeps who expiry s in
      let (p', d', b', k') = renew-keeps expiry l (renewed s who expiry (lookup who s.locks)) in
      (p' ∙ p, d' ∙ d, b' ∙ b, λ h. k' (k h))

module _ {Ledger : Type 0} ⦃cur : Currency Ledger⦄ (cfg : Config) (s : State Ledger) (now : ℕ) where
  -- Where no account has two lock records, the sweep treats each lock by itself: it removes the
  -- lock once its expiry block is reached, moves the expiry of a lock that is due for renewal to
  -- a full duration from now, and leaves every other lock as it is. A lock is due when renewal is
  -- on, the lock is active, and at least the interval has passed since it had its full duration
  -- ahead.
  pub lookup-on_initialize :
      Distinct (keys s.locks)
      → (a : ℕ) → lookup a (on_initialize cfg s now).locks ≡ swept cfg now (lookup a s.locks)
  unfolding on_initialize
  lookup-on_initialize d a =
      let found = scan cfg now s.locks in
      ground (
        arith,
        lookup-renew a (block_add now cfg.lock_duration) found.to_renew
            (release s found.to_release),
        lookup-release a found.to_release s,
        scan-release cfg now a s.locks d,
        scan-renew cfg now a s.locks d,
      )

  pub locked-on_initialize :
      Distinct (keys s.locks)
      → (a : ℕ)
      → cur.locked (on_initialize cfg s now).ledger a
        ≡ (if expired now (lookup a s.locks) then 0 else cur.locked s.ledger a)
  unfolding on_initialize
  locked-on_initialize d a =
      let found = scan cfg now s.locks in
      rw
        ((renew-keeps (block_add now cfg.lock_duration) found.to_renew
          (release s found.to_release)).2)
        (rw (locked-release a found.to_release s) (rw (scan-release cfg now a s.locks d)))

  pub on_initialize-keeps :
      let t = on_initialize cfg s now in
      (t.pending ≡ s.pending)
      × (t.desired ≡ s.desired)
      × (Distinct (keys s.locks) → Distinct (keys t.locks))
  unfolding on_initialize
  on_initialize-keeps =
      let found = scan cfg now s.locks in
      let (p, d, k) = release-keeps found.to_release s in
      let (p', d', _, k') =
        renew-keeps (block_add now cfg.lock_duration) found.to_renew (release s found.to_release) in
      (p' ∙ p, d' ∙ d, λ h. k' (k h))

module _ {Ledger : Type 0} ⦃cur : Currency Ledger⦄ where
  release-block :
      (l : List (ℕ × ℕ)) (s : State Ledger) → (release s l).block_number ≡ s.block_number
  unfolding release
  release-block [] s = refl
  release-block ((who, amount) ∷ l) s = release-block l _

  renew-block :
      (expiry : ℕ) (l : List ℕ) (s : State Ledger)
      → (renew expiry s l).block_number ≡ s.block_number
  unfolding renew
  renew-block expiry [] s = refl
  renew-block expiry (who ∷ l) s =
      renew-block expiry l (renewed s who expiry (lookup who s.locks)) ∙ ground arith

  pub block-on_initialize :
      (cfg : Config) (s : State Ledger) (now : ℕ)
      → (on_initialize cfg s now).block_number ≡ s.block_number
  unfolding on_initialize
  block-on_initialize cfg s now =
      let found = scan cfg now s.locks in
      renew-block (block_add now cfg.lock_duration) found.to_renew (release s found.to_release)
      ∙ release-block found.to_release s
