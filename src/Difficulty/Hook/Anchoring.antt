-- ===== src/Difficulty/Hook/Anchoring.antt =====
-- The hook of pallets/difficulty/src/lib.rs: difficulties are never zero, the anchor moves only at the
-- first block and after an interruption, and the difficulty asked of a block is the one it settles.
use native.Mathlib.Nat.{le-div_iff_mul-le, div-le_self, sub-zero}
use numen.Prelude.{
  ℕ, ◌+◌, ◌-◌, ◌*◌, ◌/◌, ◌≤◌, ◌<◌, ◌≡◌, ◌⊎◌, refl, arith, ap, sym, ◌∙◌, some, u64_mod, sat_add,
}
use numen.Prelude.Int.{pos, sub_ℕ}
use numen.Difficulty.Asert.Defs.{u256_max, Width}
use numen.Difficulty.Asert.Monotone.{
  compute_next_target_range, compute_next_target_on_schedule, compute_next_target_saturates,
}
use numen.Difficulty.Hook.Defs.{
  Config, Storage, build_genesis, target_from, settle, on_finalize, realtime_difficulty,
}

-- What the pallet keeps: a difficulty that is not zero and an anchor target in range.
pub record IsSound (s : Storage) : Type 0 where
  pub positive : 1 ≤ s.current_difficulty
  pub difficulty_fits : s.current_difficulty ≤ u256_max
  pub target_positive : 1 ≤ s.anchor_target
  pub target_fits : s.anchor_target ≤ u256_max

quotient_range : (d : ℕ) → 1 ≤ d → d ≤ u256_max → (1 ≤ u256_max / d) × (u256_max / d ≤ u256_max)
quotient_range d a b = ((le-div_iff_mul-le (omega arith)).1 (omega arith), div-le_self u256_max d)

next_height : (n : ℕ) → n + 1 < u64_mod → sat_add (u64_mod - 1) n 1 ≡ n + 1
next_height n h = omega arith

one_later : (n : ℕ) → n + 1 - n ≡ 1
one_later n = omega arith

ahead : (secs time : ℕ) → sub_ℕ (secs + time) secs ≡ pos (time * 1)
ahead secs time = ground arith

module _ (w : Width) (cfg : Config) where
  target_from_range :
      (s : Storage) (height secs : ℕ)
      → IsSound s
      → (1 ≤ target_from w cfg s height secs) × (target_from w cfg s height secs ≤ u256_max)
  unfolding target_from
  target_from_range s height secs g =
      compute_next_target_range w s.anchor_target _ _ _ _ g.target_positive g.target_fits

  -- Genesis with a difficulty between 1 and the largest U256 succeeds and is sound.
  pub build_genesis-IsSound :
      (d : ℕ)
      → 1 ≤ d
      → d ≤ u256_max
      → (s : Storage) × (build_genesis d ≡ some s) × (s.current_difficulty ≡ d) × IsSound s
  unfolding build_genesis
  build_genesis-IsSound d a b = (
    record {
      current_difficulty = d;
      anchor_target = u256_max / d;
      anchor_timestamp = 0;
      anchor_height = 0;
      last_block_timestamp = 0;
    },
    ground arith,
    refl,
    record {
      positive = a;
      difficulty_fits = b;
      target_positive = (quotient_range d a b).0;
      target_fits = (quotient_range d a b).1;
    },
  )

  -- After any block, from a storage in which the difficulty and the anchor's target lie between 1 and
  -- the largest U256, they still do.
  pub on_finalize-IsSound :
      (s : Storage) (height now_ms : ℕ) → IsSound s → IsSound (on_finalize w cfg s height now_ms)
  unfolding on_finalize settle
  on_finalize-IsSound s height now_ms g =
      let secs = now_ms / 1000 in
      let t = target_from_range s height secs g in
      ground (arith, t, quotient_range (target_from w cfg s height secs))

  -- The difficulty that a node asks of a block on top of a parent, from the parent's storage and
  -- the block's time, is the difficulty that the block's own `on_finalize` settles, once the
  -- chain has an anchor with a time and a target that are not 0, at or below the parent's height,
  -- and where the block's height is a 64-bit number.
  pub realtime_difficulty-on_finalize :
      (s : Storage) (parent now_ms : ℕ)
      → 1 ≤ s.anchor_timestamp
      → 1 ≤ s.anchor_target
      → s.anchor_height ≤ parent
      → parent + 1 < u64_mod
      → realtime_difficulty w cfg s parent (now_ms / 1000)
        ≡ (on_finalize w cfg s (parent + 1) now_ms).current_difficulty
  unfolding realtime_difficulty on_finalize settle
  realtime_difficulty-on_finalize s parent now_ms a b c d = rw (next_height parent d) (ground arith)

  -- With an anchor whose time and target are not 0, and a height above it, the block settles the
  -- difficulty of its target and its own time; a gap to the parent beyond the threshold moves the
  -- anchor to this block, with its target, time and height; any other gap leaves the anchor
  -- alone.
  pub anchor-on_finalize :
      (s : Storage) (height now_ms : ℕ)
      → 1 ≤ s.anchor_timestamp
      → 1 ≤ s.anchor_target
      → s.anchor_height < height
      → let secs = now_ms / 1000 in
        let t = on_finalize w cfg s height now_ms in
        let target = target_from w cfg s height secs in
        (t.current_difficulty ≡ u256_max / target)
        × (t.last_block_timestamp ≡ secs)
        × (((cfg.break_threshold_secs < secs - s.last_block_timestamp)
              × (t.anchor_target ≡ target)
              × (t.anchor_timestamp ≡ secs)
              × (t.anchor_height ≡ height))
            ⊎ ((secs - s.last_block_timestamp ≤ cfg.break_threshold_secs)
                × (t.anchor_target ≡ s.anchor_target)
                × (t.anchor_timestamp ≡ s.anchor_timestamp)
                × (t.anchor_height ≡ s.anchor_height)))
  unfolding on_finalize settle
  anchor-on_finalize s height now_ms a b c = ground arith

  reanchored :
      (s : Storage) (height now_ms : ℕ)
      → 1 ≤ s.anchor_timestamp
      → 1 ≤ s.anchor_target
      → s.anchor_height < height
      → cfg.break_threshold_secs < now_ms / 1000 - s.last_block_timestamp
      → let t = on_finalize w cfg s height now_ms in
        (t.current_difficulty ≡ u256_max / t.anchor_target)
        × (t.anchor_timestamp ≡ now_ms / 1000)
        × (t.anchor_height ≡ height)
  reanchored s height now_ms a b c gap = ground (arith, anchor-on_finalize s height now_ms a b c)

  target_on_schedule :
      (u : Storage) (height secs : ℕ)
      → u.anchor_timestamp ≡ secs
      → u.anchor_height ≡ height
      → 1 ≤ u.anchor_target
      → u.anchor_target ≤ u256_max
      → cfg.target_block_time < u64_mod
      → target_from w cfg u (height + 1) (secs + cfg.target_block_time) ≡ u.anchor_target
  unfolding target_from
  target_on_schedule u height secs e f a b h =
      rw (e, f, one_later height, ahead secs cfg.target_block_time)
        (compute_next_target_on_schedule w u.anchor_target 1 cfg.target_block_time cfg.halflife a b
          (omega arith))

  -- After an interruption the chain resumes at the difficulty of the block that ended it: a next
  -- block on schedule is asked for exactly that difficulty, however long the interruption was.
  -- The storage before has its difficulty and target in range and an anchor with a time below the
  -- block, the next height and the target block time are 64-bit numbers, and an interruption is a
  -- gap beyond the threshold.
  pub recovery_resumes :
      (s : Storage) (height now_ms : ℕ)
      → IsSound s
      → 1 ≤ s.anchor_timestamp
      → s.anchor_height < height
      → height + 1 < u64_mod
      → cfg.target_block_time < u64_mod
      → cfg.break_threshold_secs < now_ms / 1000 - s.last_block_timestamp
      → let t = on_finalize w cfg s height now_ms in
        realtime_difficulty w cfg t height (now_ms / 1000 + cfg.target_block_time)
        ≡ t.current_difficulty
  unfolding realtime_difficulty
  recovery_resumes s height now_ms g a c d e gap =
      let t = on_finalize w cfg s height now_ms in
      let (settled, time, at) = reanchored s height now_ms a g.target_positive c gap in
      let sound = on_finalize-IsSound s height now_ms g in
      rw (next_height height d) (
        ap (λ x. u256_max / x)
          (target_on_schedule t height (now_ms / 1000) time at sound.target_positive
            sound.target_fits e)
        ∙ sym settled)

  -- Before the first block has set the anchor's time and height, from a storage with its
  -- difficulty and target in range, the difficulty asked of a block is 1 whatever the initial
  -- difficulty was, if the block's time in seconds is at least 256 halflives beyond the ideal
  -- time of its height, the halflife is not 0, and height and ideal time are 64-bit numbers.
  pub realtime_difficulty_unanchored :
      (s : Storage) (parent secs : ℕ)
      → IsSound s
      → s.anchor_timestamp ≡ 0
      → s.anchor_height ≡ 0
      → parent + 1 < u64_mod
      → 0 < cfg.halflife
      → cfg.target_block_time * (parent + 1) < u64_mod
      → cfg.target_block_time * (parent + 1) + 256 * cfg.halflife ≤ secs
      → realtime_difficulty w cfg s parent secs ≡ 1
  unfolding realtime_difficulty target_from
  realtime_difficulty_unanchored s parent secs g at0 height0 d p fits late =
      rw (next_height parent d, at0, height0, sub-zero (parent + 1))
        (ap (λ x. u256_max / x)
          (compute_next_target_saturates w s.anchor_target secs (parent + 1) cfg.target_block_time
            cfg.halflife g.target_positive g.target_fits p fits late))
