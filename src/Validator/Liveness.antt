-- ===== src/Validator/Liveness.antt =====
-- The reports of a session, account by account (pallets/validator/src/lib.rs): what
-- `process_equivocations` and `process_offline_counters` do to one account's entries.
use numen.Prelude.{ℕ, false, ◌||◌, not, Bool, Option, some, none, ltb, if◌then◌else◌}
use numen.Prelude.Maps.{lookup}
use numen.Prelude.Sets.{contains}
use numen.Validator.Defs.State.{LockInfo, kicked, Config, State}
use numen.Validator.Defs.Calls.{block_add, info_is_active}
use numen.Validator.Defs.Session.{offline_sessions}

-- The entries of one account.
pub record Entry : Type 0 where
  pub info : Option LockInfo
  pub cooldown : Option ℕ
  pub offline_count : Option ℕ
  pub reported : Bool

abbrev pub entry : {Ledger : Type 0} → ℕ → State Ledger → Entry
entry a s = record {
  info = lookup a s.locks;
  cooldown = lookup a s.cooldown;
  offline_count = lookup a s.offline_count;
  reported = contains a s.offline_now;
}

abbrev kicked_entry : Config → ℕ → Entry → Option LockInfo → Entry
kicked_entry cfg now e none = e
kicked_entry cfg now e (some info) = record {
  info = some (record info { status = kicked });
  cooldown = some (block_add now cfg.rejoin_cooldown_period);
  offline_count = none;
  reported = false;
}

-- A kick: only an active account is kicked; its cooldown starts, and its reports are forgotten.
abbrev pub kick_entry : Config → ℕ → Entry → Entry
kick_entry cfg now e = if info_is_active e.info then kicked_entry cfg now e e.info else e

-- The offline accounting of one member of the set: an account that is not active or that was not
-- reported has no count; a report below the threshold counts; at the threshold it is a kick.
abbrev pub offline_entry : Config → ℕ → Entry → Entry
offline_entry cfg now e =
    let count = block_add (offline_sessions e.offline_count) 1 in
    if not (info_is_active e.info) || not e.reported
    then record e { offline_count = none }
    else if ltb count cfg.offline_threshold
    then record e { offline_count = some count; reported = false }
    else kick_entry cfg now e

-- The second pass over one account, and the end of the session's offline reports.
abbrev pub counted_entry : Config → Bool → ℕ → Entry → Entry
counted_entry cfg member now e = record (if member then offline_entry cfg now e else e) {
  reported = false;
}

-- Both passes over one account.
abbrev pub report_entry : Config → ℕ → Bool → Bool → Entry → Entry
report_entry cfg now flagged member e =
    counted_entry cfg member now (if flagged then kick_entry cfg now e else e)
