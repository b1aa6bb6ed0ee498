-- ===== src/Prime/Access.antt =====
-- pallets/prime/src/lib.rs: who may use the prime key.
use numen.Prelude.{ℕ, ◌≡◌, ◌≢◌, ◌↔◌, refl, some, ◌∷◌, arith}
use numen.Frame.{Origin, signed, root, unsigned}
use numen.Prime.Defs.{
  State, key_changed, ok, err, require_prime, ensure_prime, set_key, accepted, try_origin,
}

-- `set_key` succeeds exactly for a signed holder of the key, and then the new account holds it and the
-- hand-over is reported.
pub set_key-ok_iff :
    (s : State) (origin : Origin) (new : ℕ) (t : State)
    → (set_key s origin new ≡ ok t) ↔ (
        (who : ℕ) × (origin ≡ signed who)
        × (s.key ≡ some who)
        × (t ≡ record { key = some new; events = key_changed who new ∷ s.events }))
unfolding set_key
set_key-ok_iff s origin new t = (forward origin, backward)
  where
    forward :
        (o : Origin)
        → set_key s o new ≡ ok t
        → (who : ℕ) × (o ≡ signed who)
          × (s.key ≡ some who)
          × (t ≡ record { key = some new; events = key_changed who new ∷ s.events })
    forward (signed who) h = (who, refl, ground arith, ground arith)
    forward root h = cc
    forward unsigned h = cc

    backward :
        (who : ℕ) × (origin ≡ signed who)
          × (s.key ≡ some who)
          × (t ≡ record { key = some new; events = key_changed who new ∷ s.events })
        → set_key s origin new ≡ ok t
    backward (who, e, k, p) = rw (e, p) (ground arith)

-- The two checks of the prime key agree: `EnsurePrime` accepts an origin as an account exactly where
-- `ensure_prime` does.
pub try_origin-ensure_prime :
    (s : State) (origin : Origin) (who : ℕ)
    → (try_origin s origin ≡ accepted who) ↔ (ensure_prime s origin ≡ ok who)
unfolding try_origin ensure_prime
try_origin-ensure_prime s (signed a) who = ground arith
try_origin-ensure_prime s root who = (λ h. cc, λ h. cc)
try_origin-ensure_prime s unsigned who = (λ h. cc, λ h. cc)

-- After a hand-over to another account the former holder is refused, and the new one is accepted.
pub set_key_hands_over :
    (s : State) (a b : ℕ) {t : State}
    → a ≢ b
    → set_key s (signed a) b ≡ ok t
    → (ensure_prime t (signed a) ≡ err require_prime) × (ensure_prime t (signed b) ≡ ok b)
unfolding set_key ensure_prime
set_key_hands_over s a b ne h = ground arith
