-- ===== src/Validator/Tests.antt =====
-- pallets/validator/src/lib.rs on small inputs.
use numen.Prelude.{
  ℕ, ◌≤◌, ◌<◌, ◌≡◌, ◌≢◌, ◌↔◌, refl, true, false, some, none, List, [], ◌∷◌, arith, ◌==◌,
  if◌then◌else◌,
}
use numen.Prelude.Maps.{lookup, keys, insert, erase}
use numen.Prelude.Sets.{contains, Distinct, add, without}
use numen.Frame.{signed}
use numen.Validator.Defs.State.{Config, Gates, Currency, State, empty_state}
use numen.Validator.Defs.Calls.{ok, lock, place_lock, new_terms, is_active}
use numen.Validator.Defs.Session.{new_session, process_reports, note_offline}
use numen.Validator.Defs.Sweep.{on_initialize, build_genesis}
use numen.Validator.Invariant.{IsConsistent}
use numen.Validator.Joining.{IsAdmitted, joined, held, expiry_of, lock-ok_iff}
use numen.Validator.Expiry.{swept, lookup-on_initialize}
use numen.Validator.Genesis.{build_genesis-IsConsistent}
use numen.Validator.Rotation.{new_session-members, new_session-returns}
use numen.Validator.Runs.{
  Reach, here, next, locking, rotating, advancing, next_block, Step-IsConsistent,
  Reach-IsConsistent,
}
use numen.Validator.Stake.{stake_stays_locked}

-- A currency in which every account has 1000 and a lock is a number for each account.
instance abbrev purse : Currency (ℕ → ℕ)
purse = record {
  free_balance = λ l who. 1000;
  set_lock = λ l who amount j. if j == who then amount else l j;
  remove_lock = λ l who j. if j == who then 0 else l j;
  locked = λ l j. l j;
  locked-set_lock = λ l who amount j. refl;
  locked-remove_lock = λ l who j. refl;
}

abbrev settings : Config
settings = record {
  lock_amount = 100;
  lock_duration = 50;
  max_validators = 3;
  renew_interval = 10;
  offline_threshold = 2;
  rejoin_cooldown_period = 20;
}

abbrev gates : Gates
gates = record { has_keys = λ a. true; identity_qualified = λ a. true }

abbrev start : State (ℕ → ℕ)
start = empty_state (λ j. 0)

start-IsConsistent : IsConsistent settings start
unfolding contains lookup keys is_active
start-IsConsistent = record {
  locks_distinct = tt;
  desired_distinct = tt;
  pending_distinct = tt;
  disjoint = λ a. refl;
  bounded = omega arith;
  active_is_member = λ a h. cc;
  funds_match = λ a. refl;
  expiry_fits = λ a. omega arith;
}

-- Account 7 has locked its stake.
abbrev staked : State (ℕ → ℕ)
staked = place_lock settings start 7 (new_terms settings start 7)

staked_ok : lock settings gates start (signed 7) ≡ ok staked
unfolding lock lookup insert erase contains add without
staked_ok = refl

staked-IsConsistent : IsConsistent settings staked
staked-IsConsistent =
    Step-IsConsistent settings start staked (omega arith) (locking gates (signed 7) staked_ok)
      start-IsConsistent

abbrev seated : State (ℕ → ℕ)
seated = (new_session settings gates staked).0

abbrev later : State (ℕ → ℕ)
later = next_block settings seated 20

early : seated.block_number ≤ 20
unfolding new_session place_lock lookup insert erase contains add without
early = omega arith

history : Reach settings staked later
history = next (next here (rotating gates)) (advancing 20 early)

Reach-IsConsistent_example : IsConsistent settings later
Reach-IsConsistent_example = Reach-IsConsistent settings (omega arith) staked-IsConsistent history

in_time : later.block_number < expiry_of (lookup 7 staked.locks)
unfolding on_initialize place_lock new_terms lookup insert erase contains add without new_session
in_time = omega arith

stake_stays_locked_example : held (lookup 7 staked.locks) ≤ later.ledger 7
stake_stays_locked_example =
    stake_stays_locked settings 7 (omega arith) staked-IsConsistent history in_time

held_now : held (lookup 7 staked.locks) ≡ 100
unfolding place_lock new_terms lookup insert erase contains add without
held_now = refl

new_session-members_example :
    (seated.pending ≡ []) × (contains 7 seated.desired ≡ is_active seated.locks 7)
new_session-members_example = new_session-members settings gates staked 7 staked-IsConsistent

seated_set : seated.desired ≡ 7 ∷ []
unfolding new_session place_lock new_terms lookup insert erase contains add without
seated_set = refl

abbrev alone : List ℕ
alone = 7 ∷ []

new_session-returns_example :
    ((new_session settings gates staked).1 ≡ some alone)
    ↔ ((alone ≡ seated.desired) × (alone ≢ []) × (alone ≢ staked.desired))
new_session-returns_example = new_session-returns settings gates staked alone

new_session_told : (new_session settings gates staked).1 ≡ some (7 ∷ [])
unfolding new_session place_lock new_terms lookup insert erase contains add without
new_session_told = refl

seated-Distinct : Distinct seated.desired
unfolding contains
seated-Distinct = rw seated_set (refl, tt)

-- Account 7 is reported offline in its second session in a row.
abbrev missing : State (ℕ → ℕ)
missing = note_offline (process_reports settings (note_offline seated 7)) 7

kicked_now : is_active (process_reports settings missing).locks 7 ≡ false
unfolding note_offline process_reports new_session place_lock new_terms lookup insert erase contains
    add without
kicked_now = refl

lookup-on_initialize_example :
    lookup 7 (on_initialize settings staked 20).locks ≡ swept settings 20 (lookup 7 staked.locks)
lookup-on_initialize_example =
    lookup-on_initialize settings staked 20 staked-IsConsistent.locks_distinct 7

renewed_now : expiry_of (lookup 7 (on_initialize settings staked 20).locks) ≡ 70
unfolding on_initialize place_lock new_terms lookup insert erase contains add without
renewed_now = refl

released_now : lookup 7 (on_initialize settings staked 50).locks ≡ none
unfolding on_initialize place_lock new_terms lookup insert erase contains add without
released_now = refl

lock-ok_iff_example : (lock settings gates start (signed 7) ≡ ok staked) ↔ (
    (who : ℕ) × (signed 7 ≡ signed who)
    × IsAdmitted settings gates start who
    × (staked ≡ joined settings start who))
lock-ok_iff_example = lock-ok_iff settings gates (omega arith) start (signed 7) staked

build_genesis-IsConsistent_example :
    (t : State (ℕ → ℕ)) × (build_genesis settings start (4 ∷ 5 ∷ []) ≡ some t)
    × IsConsistent settings t
    × (t.pending ≡ [])
    × ((a : ℕ) → contains a t.desired ≡ contains a (4 ∷ 5 ∷ []))
build_genesis-IsConsistent_example =
    build_genesis-IsConsistent settings (λ j. 0) (4 ∷ 5 ∷ []) (λ a. refl) (omega arith)
