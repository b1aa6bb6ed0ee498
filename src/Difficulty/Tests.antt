-- ===== src/Difficulty/Tests.antt =====
-- pallets/difficulty/src on small inputs, with a concrete number of bits.
use native.Mathlib.Nat.{pow-suc}
use numen.Prelude.{
  ℕ, zero, suc, ◌+◌, ◌*◌, ◌/◌, ◌^◌, ◌≤◌, ◌<◌, ◌≡◌, ◌↔◌, refl, some, arith, ◌==◌, if◌then◌else◌,
}
use numen.Prelude.Int.{pos}
use numen.Difficulty.Asert.Factor.{factor}
use numen.Difficulty.Asert.Defs.{Width, u256_max, exponent_fp, compute_next_target}
use numen.Difficulty.Asert.Reference.{target_at, pow_pos, compute_next_target-formula}
use numen.Difficulty.Asert.Monotone.{compute_next_target_mono}
use numen.Difficulty.Hook.Defs.{Config, Storage, build_genesis, on_finalize, realtime_difficulty}
use numen.Difficulty.Hook.Anchoring.{
  IsSound, on_finalize-IsSound, realtime_difficulty-on_finalize, realtime_difficulty_unanchored,
}

-- The cubic just below a whole step: 2 to the fraction is about 131071 here, 0.57% more.
factor_at_top : factor 65535 ≡ 130330
unfolding factor
factor_at_top = refl

-- The number of binary digits, by halving.
unfoldable bits_upto : ℕ → ℕ → ℕ
bits_upto zero n = 0
bits_upto (suc f) n = let rest = bits_upto f (n / 2) in if n == 0 then 0 else suc rest

lt-pow_upto : (f n k : ℕ) → n ≤ f → (n < 2 ^ k) ↔ (bits_upto f n ≤ k)
unfolding bits_upto
lt-pow_upto zero n k h = (λ _. omega arith, λ _. omega (arith, pow_pos k))
lt-pow_upto (suc f) n zero h = (λ l. ground arith, λ l. ground arith)
lt-pow_upto (suc f) n (suc k) h =
    let ih = lt-pow_upto f (n / 2) k (omega arith) in
    let double : 2 ^ suc k ≡ 2 ^ k * 2 = pow-suc 2 k in
    (
      λ l. ground (arith, ih.0 (omega (arith, double))),
      λ l. ground (arith, ih.1, double, pow_pos k),
    )

abbrev digits : Width
digits = record { bits = λ n. bits_upto n n; lt-pow_iff = λ n k. lt-pow_upto n n k (omega arith) }

abbrev settings : Config
settings = record { target_block_time = 20; halflife = 3600; break_threshold_secs = 600 }

-- The chain after its first block: difficulty 1000, anchored at height 1 and time 1000.
abbrev anchored : Storage
anchored = record {
  current_difficulty = 1000;
  anchor_target = u256_max / 1000;
  anchor_timestamp = 1000;
  anchor_height = 1;
  last_block_timestamp = 1000;
}

anchored-IsSound : IsSound anchored
anchored-IsSound = record {
  positive = omega arith;
  difficulty_fits = omega arith;
  target_positive = omega arith;
  target_fits = omega arith;
}

compute_next_target-formula_example :
    compute_next_target digits 5000 (pos 90) 3 20 3600
    ≡ target_at 5000 (exponent_fp (pos 90) 3 20 3600)
compute_next_target-formula_example =
    compute_next_target-formula digits 5000 (pos 90) 3 20 3600 (omega arith) (omega arith)

compute_next_target_mono_example :
    compute_next_target digits 5000 (pos 90) 3 20 3600
    ≤ compute_next_target digits 5000 (pos 900) 3 20 3600
compute_next_target_mono_example =
    compute_next_target_mono digits 5000 (pos 90) (pos 900) 3 20 3600 (omega arith) (omega arith)
      (omega arith) (omega arith)

on_finalize-IsSound_example : IsSound (on_finalize digits settings anchored 2 1025000)
on_finalize-IsSound_example =
    on_finalize-IsSound digits settings anchored 2 1025000 anchored-IsSound

realtime_difficulty-on_finalize_example :
    realtime_difficulty digits settings anchored 1 (1025000 / 1000)
    ≡ (on_finalize digits settings anchored (1 + 1) 1025000).current_difficulty
realtime_difficulty-on_finalize_example =
    realtime_difficulty-on_finalize digits settings anchored 1 1025000 (omega arith) (omega arith)
      (omega arith) (omega arith)

-- The storage that genesis leaves.
abbrev founded : Storage
founded = record {
  current_difficulty = 1000;
  anchor_target = u256_max / 1000;
  anchor_timestamp = 0;
  anchor_height = 0;
  last_block_timestamp = 0;
}

founded_built : build_genesis 1000 ≡ some founded
unfolding build_genesis
founded_built = refl

founded-IsSound : IsSound founded
founded-IsSound = record {
  positive = omega arith;
  difficulty_fits = omega arith;
  target_positive = omega arith;
  target_fits = omega arith;
}

realtime_difficulty_unanchored_example :
    realtime_difficulty digits settings founded 0 1700000000 ≡ 1
realtime_difficulty_unanchored_example =
    realtime_difficulty_unanchored digits settings founded 0 1700000000 founded-IsSound refl refl
      (omega arith) (omega arith) (omega arith) (omega arith)
