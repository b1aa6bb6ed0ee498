-- ===== src/Inherents/Tests.antt =====
-- runtime/src/inherent_checks.rs on small inputs, with a result that only counts as ok or not.
use numen.Prelude.{◌+◌, ◌≤◌, ◌≡◌, ◌↔◌, refl, Bool, true, false, arith}
use numen.Inherents.{Report, check_timestamp_drift, check_timestamp_drift-ok_iff}

abbrev flag : Report Bool
flag = record { put_error = λ r e. false; is_ok = λ r. r; ok-put_error = λ r e. refl }

drift_allowed :
    (check_timestamp_drift flag true 122000 120000 100000 ≡ true)
    ↔ ((100000 ≤ 122000) × (122000 ≤ 120000 + 2000))
drift_allowed = check_timestamp_drift-ok_iff flag true 122000 120000 100000 refl (omega arith)
