-- ===== src/Difficulty/Hook/Defs.antt =====
-- pallets/difficulty/src/lib.rs: the storage items and the functions that read and write them.
-- Heights, timestamps and the configured times are 64-bit words, difficulties and targets U256.
use numen.Prelude.{
  ℕ, ◌-◌, ◌/◌, ◌&&◌, Option, none, some, ltb, leb, ◌==◌, if◌then◌else◌, u64_mod, sat_add,
}
use numen.Prelude.Int.{sub_ℕ}
use numen.Difficulty.Asert.Defs.{u256_max, Width, compute_next_target}

pub record Config : Type 0 where
  pub target_block_time : ℕ
  pub halflife : ℕ
  pub break_threshold_secs : ℕ

pub record Storage : Type 0 where
  pub current_difficulty : ℕ
  pub anchor_target : ℕ
  pub anchor_timestamp : ℕ
  pub anchor_height : ℕ
  pub last_block_timestamp : ℕ

-- `GenesisConfig::build`; `none` is the failed assertion on a zero difficulty.
unfoldable pub build_genesis : ℕ → Option Storage
build_genesis initial_difficulty =
    if initial_difficulty == 0
    then none
    else some (record {
      current_difficulty = initial_difficulty;
      anchor_target = u256_max / initial_difficulty;
      anchor_timestamp = 0;
      anchor_height = 0;
      last_block_timestamp = 0;
    })

module _ (w : Width) (cfg : Config) where
  -- The target of the block at a height with a time in seconds.
  unfoldable pub target_from : Storage → ℕ → ℕ → ℕ
  target_from s height secs =
      compute_next_target w s.anchor_target (sub_ℕ secs s.anchor_timestamp)
        (height - s.anchor_height) cfg.target_block_time cfg.halflife

  -- The last part of `on_finalize`: the new difficulty, and a new anchor after an interruption.
  unfoldable pub settle : Storage → ℕ → ℕ → ℕ → Storage
  settle s current_height now_secs next_target =
      let interrupted = ltb cfg.break_threshold_secs (now_secs - s.last_block_timestamp) in
      record {
        current_difficulty = u256_max / next_target;
        anchor_target = (if interrupted then next_target else s.anchor_target);
        anchor_timestamp = (if interrupted then now_secs else s.anchor_timestamp);
        anchor_height = (if interrupted then current_height else s.anchor_height);
        last_block_timestamp = now_secs;
      }

  -- `on_finalize` of the block at a height with a timestamp in milliseconds.
  unfoldable pub on_finalize : Storage → ℕ → ℕ → Storage
  unfolding target_from settle
  on_finalize s current_height now_ms =
      let now_secs = now_ms / 1000 in
      if (s.anchor_timestamp == 0) && ltb 0 now_secs
      then record s {
        anchor_timestamp = now_secs;
        anchor_height = current_height;
        last_block_timestamp = now_secs;
      }
      else if leb current_height s.anchor_height
      then record s { last_block_timestamp = now_secs }
      else if s.anchor_target == 0
      then record s { last_block_timestamp = now_secs }
      else settle s current_height now_secs (target_from s current_height now_secs)

  -- `realtime_difficulty`, at the block number of the parent.
  unfoldable pub realtime_difficulty : Storage → ℕ → ℕ → ℕ
  unfolding target_from
  realtime_difficulty s block_number block_timestamp_secs =
      u256_max / target_from s (sat_add (u64_mod - 1) block_number 1) block_timestamp_secs
