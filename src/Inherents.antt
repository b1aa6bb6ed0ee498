-- ===== src/Inherents.antt =====
-- runtime/src/inherent_checks.rs: the timestamp inherent and the limits on a block's timestamp.
use numen.Prelude.{
  ℕ, ◌+◌, ◌%◌, ◌≤◌, ◌<◌, ◌≡◌, ◌↔◌, Bool, true, false, Option, none, some, List, arith, ltb,
  if◌then◌else◌, u64_mod,
}
mod Tests

-- An extrinsic's call: the timestamp's `set`, or any other.
pub data RuntimeCall : Type 0 where
  set : ℕ → RuntimeCall
  another : RuntimeCall

abbrev pub set_time : Option RuntimeCall → Option ℕ
set_time none = none
set_time (some (set now)) = some now
set_time (some another) = none

-- `decode` is the codec of extrinsics.
unfoldable pub timestamp_from_inherent : (List ℕ → Option RuntimeCall) → List ℕ → Option ℕ
timestamp_from_inherent decode encoded = set_time (decode encoded)

abbrev pub max_timestamp_drift_ms : ℕ
max_timestamp_drift_ms = 2000

pub data InherentError : Type 0 where
  too_far_in_future too_early : InherentError

-- `CheckInherentsResult` of sp_inherents: `put_error` leaves a result that is not ok.
pub record Report (R : Type 0) : Type 0 where
  pub put_error : R → InherentError → R
  pub is_ok : R → Bool
  pub ok-put_error : (r : R) (e : InherentError) → is_ok (put_error r e) ≡ false

module _ {R : Type 0} (report : Report R) where
  unfoldable pub check_timestamp_drift : R → ℕ → ℕ → ℕ → R
  check_timestamp_drift result block_ts_ms node_ts_ms parent_ts_ms =
      let drifted =
        if ltb ((node_ts_ms + max_timestamp_drift_ms) % u64_mod) block_ts_ms
        then report.put_error result too_far_in_future
        else result in
      if ltb block_ts_ms parent_ts_ms then report.put_error drifted too_early else drifted

  -- A result without errors stays so exactly when the block's time is not before its parent's and at
  -- most two seconds ahead of the node's clock, if that bound is a 64-bit number.
  pub check_timestamp_drift-ok_iff :
      (result : R) (block_ts_ms node_ts_ms parent_ts_ms : ℕ)
      → report.is_ok result ≡ true
      → node_ts_ms + 2000 < u64_mod
      → (report.is_ok (check_timestamp_drift result block_ts_ms node_ts_ms parent_ts_ms) ≡ true)
        ↔ ((parent_ts_ms ≤ block_ts_ms) × (block_ts_ms ≤ node_ts_ms + 2000))
  unfolding check_timestamp_drift
  check_timestamp_drift-ok_iff result b n p ok fits = grind (arith, report.ok-put_error)
