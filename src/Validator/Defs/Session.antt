-- ===== src/Validator/Defs/Session.antt =====
-- pallets/validator/src/lib.rs: liveness reports, kicks, and the session boundary.
use numen.Prelude.{
  ℕ, Bool, true, false, ◌&&◌, ◌||◌, not, Option, none, some, List, [], ◌∷◌, ltb, leb, length, ◌==◌,
  is_some, if◌then◌else◌,
}
use numen.Prelude.Maps.{Map, lookup, insert, erase}
use numen.Prelude.Sets.{contains, add, without}
use numen.Validator.Defs.State.{
  exit_requested, kicked, LockInfo, KickReason, offline, equivocation, validator_kicked,
  equivocation_reported, pending_validator_dropped, Config, Gates, State,
}
use numen.Validator.Defs.Calls.{block_add, status_is_active, is_active, try_push}

-- `==` on vectors of accounts.
unfoldable pub same_accounts : List ℕ → List ℕ → Bool
same_accounts [] [] = true
same_accounts [] (y ∷ ys) = false
same_accounts (x ∷ xs) [] = false
same_accounts (x ∷ xs) (y ∷ ys) = x == y && same_accounts xs ys

abbrev pub is_empty : List ℕ → Bool
is_empty [] = true
is_empty (x ∷ xs) = false

-- `OfflineSessionCount::get`, which is 0 for a missing entry.
abbrev pub offline_sessions : Option ℕ → ℕ
offline_sessions none = 0
offline_sessions (some n) = n

abbrev pub mark_exit : Option LockInfo → ℕ → Map LockInfo → Map LockInfo
mark_exit none who locks = locks
mark_exit (some info) who locks = insert who (record info { status = exit_requested }) locks

-- The first loop of `new_session`: `next` grows by the members that are still active.
unfoldable pub retain : Config → Map LockInfo → List ℕ → List ℕ → List ℕ
unfolding is_active
retain cfg locks [] next = next
retain cfg locks (who ∷ rest) next =
    retain cfg locks rest
      (if is_active locks who then try_push cfg.max_validators who next else next)

module _ {Ledger : Type 0} where
  unfoldable pub note_offline : State Ledger → ℕ → State Ledger
  note_offline s who =
      if not (is_some (lookup who s.locks))
      then s
      else record s { offline_now = add who s.offline_now }

  unfoldable pub note_equivocation : State Ledger → ℕ → State Ledger
  unfolding is_active
  note_equivocation s who =
      if not (is_active s.locks who)
      then s
      else if contains who s.equivocations
      then s
      else record s {
        equivocations = add who s.equivocations;
        events = equivocation_reported who ∷ s.events;
      }

  -- The rest of `kick_validator`, on the caller's lock record.
  abbrev pub kick_info : Config → State Ledger → ℕ → KickReason → Option LockInfo → State Ledger
  kick_info cfg s who reason none = s
  kick_info cfg s who reason (some info) =
      if status_is_active info.status
      then record s {
        locks = insert who (record info { status = kicked }) s.locks;
        cooldown = insert who (block_add s.block_number cfg.rejoin_cooldown_period) s.cooldown;
        offline_count = erase who s.offline_count;
        offline_now = without who s.offline_now;
        events = validator_kicked who reason ∷ s.events;
      }
      else s

  -- The Boolean result only decides whether a line is logged, and is left out.
  unfoldable pub kick_validator : Config → State Ledger → ℕ → KickReason → State Ledger
  kick_validator cfg s who reason = kick_info cfg s who reason (lookup who s.locks)

  unfoldable pub kick_all : Config → State Ledger → List ℕ → State Ledger
  unfolding kick_validator
  kick_all cfg s [] = s
  kick_all cfg s (who ∷ rest) = kick_all cfg (kick_validator cfg s who equivocation) rest

  -- `drain` hands out the flagged accounts and empties the map.
  unfoldable pub process_equivocations : Config → State Ledger → State Ledger
  unfolding kick_all
  process_equivocations cfg s = kick_all cfg (record s { equivocations = [] }) s.equivocations

  -- One round of the loop in `process_offline_counters`.
  unfoldable pub count_offline : Config → State Ledger → ℕ → State Ledger
  unfolding is_active kick_validator
  count_offline cfg s who =
      let count = block_add (offline_sessions (lookup who s.offline_count)) 1 in
      let taken = record s { offline_now = without who s.offline_now } in
      if not (is_active s.locks who)
      then record s { offline_count = erase who s.offline_count }
      else if not (contains who s.offline_now)
      then record s { offline_count = erase who s.offline_count }
      else if ltb count cfg.offline_threshold
      then record taken { offline_count = insert who count s.offline_count }
      else kick_validator cfg taken who offline

  unfoldable pub count_all : Config → State Ledger → List ℕ → State Ledger
  unfolding count_offline
  count_all cfg s [] = s
  count_all cfg s (who ∷ rest) = count_all cfg (count_offline cfg s who) rest

  unfoldable pub process_offline_counters : Config → State Ledger → State Ledger
  unfolding count_all
  process_offline_counters cfg s =
      let counted = count_all cfg s s.desired in record counted { offline_now = [] }

  -- The closure of that name in `new_session`.
  unfoldable pub drop_pending_candidate : State Ledger → ℕ → State Ledger
  drop_pending_candidate s who = record s {
    locks = mark_exit (lookup who s.locks) who s.locks;
    offline_count = erase who s.offline_count;
    offline_now = without who s.offline_now;
    events = pending_validator_dropped who ∷ s.events;
  }

  -- One round of the second loop of `new_session`, over the pending accounts.
  unfoldable pub promote : Config → Gates → State Ledger × List ℕ → ℕ → State Ledger × List ℕ
  unfolding is_active drop_pending_candidate
  promote cfg gates (s, next) who =
      if not (is_active s.locks who) || contains who next
      then (s, next)
      else if not (gates.has_keys who) || leb cfg.max_validators (length next)
      then (drop_pending_candidate s who, next)
      else (s, try_push cfg.max_validators who next)

  unfoldable pub promote_all :
      Config → Gates → State Ledger × List ℕ → List ℕ → State Ledger × List ℕ
  unfolding promote
  promote_all cfg gates p [] = p
  promote_all cfg gates p (who ∷ rest) = promote_all cfg gates (promote cfg gates p who) rest

-- What `new_session` returns, from the new set and the previous one.
unfoldable pub session_change : List ℕ → List ℕ → Option (List ℕ)
unfolding same_accounts
session_change next previous =
    if same_accounts next previous
    then none
    else if is_empty next && not (is_empty previous)
    then none
    else some next

module _ {Ledger : Type 0} where
  -- The state after the reports of the session have been turned into kicks.
  unfoldable pub process_reports : Config → State Ledger → State Ledger
  unfolding process_equivocations process_offline_counters
  process_reports cfg s = process_offline_counters cfg (process_equivocations cfg s)

  -- The state after the pending accounts are taken, with the new set.
  unfoldable pub next_set : Config → Gates → State Ledger → State Ledger × List ℕ
  unfolding retain promote_all
  next_set cfg gates s =
      promote_all cfg gates (record s { pending = [] }, retain cfg s.locks s.desired []) s.pending

  unfoldable pub new_session : Config → Gates → State Ledger → State Ledger × Option (List ℕ)
  unfolding process_reports next_set session_change
  new_session cfg gates s =
      let reported = process_reports cfg s in
      let (promoted, next) = next_set cfg gates reported in
      (record promoted { desired = next }, session_change next reported.desired)

  -- `new_session_genesis`.
  unfoldable pub new_session_genesis : State Ledger → Option (List ℕ)
  new_session_genesis s = some s.desired
