-- ===== src/Prime/Tests.antt =====
-- pallets/prime/src/lib.rs on small inputs.
use numen.Prelude.{ℕ, ◌≡◌, ◌↔◌, refl, some, [], ◌∷◌}
use numen.Frame.{signed}
use numen.Prime.Defs.{State, key_changed, ok, set_key}
use numen.Prime.Access.{set_key-ok_iff}

abbrev before : State
before = record { key = some 3; events = [] }

abbrev after : State
after = record { key = some 4; events = key_changed 3 4 ∷ [] }

handed_over : set_key before (signed 3) 4 ≡ ok after
unfolding set_key
handed_over = refl

set_key-ok_iff_example : (set_key before (signed 3) 4 ≡ ok after) ↔ (
    (who : ℕ) × (signed 3 ≡ signed who)
    × (before.key ≡ some who)
    × (after ≡ record { key = some 4; events = key_changed who 4 ∷ before.events }))
set_key-ok_iff_example = set_key-ok_iff before (signed 3) 4 after
