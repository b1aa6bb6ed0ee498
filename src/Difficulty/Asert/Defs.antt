-- ===== src/Difficulty/Asert/Defs.antt =====
-- `compute_next_target` of pallets/difficulty/src/asert.rs. An i128 is an integer and a U256 a
-- number; `time_delta`, the difference of two u64 seconds, keeps every i128 far from its limits. A
-- halflife of 0, on which the division panics, gives the exponent 0 here; the runtime's is a nonzero
-- constant.
use numen.Prelude.{
  ℕ, suc, ◌-◌, ◌*◌, ◌/◌, ◌%◌, ◌^◌, ◌<◌, ◌≤◌, ◌↔◌, ltb, leb, ◌==◌, if◌then◌else◌, u64_mod,
}
use numen.Prelude.Int.{ℤ, pos, negsuc, pos_part, ◌+ℤ◌, ◌-ℤ◌, ◌*ℤ◌, quot, floor_div}

abbrev pub u256_mod : ℕ
u256_mod = 2 ^ 256

abbrev pub u256_max : ℕ
u256_max = u256_mod - 1

abbrev pub frac_one : ℕ
frac_one = 65536

-- `U256::bits`, the least number of bits that hold the value.
pub record Width : Type 0 where
  pub bits : ℕ → ℕ
  pub lt-pow_iff : (n k : ℕ) → (n < 2 ^ k) ↔ (bits n ≤ k)

-- The exponent in fixed point. The product of the two u64 wraps, as in a release build.
unfoldable pub exponent_fp : ℤ → ℕ → ℕ → ℕ → ℤ
exponent_fp time_delta height_delta target_block_time halflife =
    let ideal_time = (target_block_time * height_delta) % u64_mod in
    quot ((time_delta -ℤ pos ideal_time) *ℤ pos frac_one) halflife

-- The cubic approximation of 2 ^ x, all in fixed point.
unfoldable pub frac_factor : ℤ → ℤ
frac_factor x =
    let term1 = quot (pos 45426 *ℤ x) frac_one in
    let term2 = quot (quot (pos 15736 *ℤ x) frac_one *ℤ x) frac_one in
    let term3 = quot (quot (quot (pos 3638 *ℤ x) frac_one *ℤ x) frac_one *ℤ x) frac_one in
    pos frac_one +ℤ term1 +ℤ term2 +ℤ term3

-- `checked_mul`, and the U512 product where that overflows.
unfoldable pub scale : ℕ → ℕ → ℕ
scale anchor_target factor =
    if ltb (anchor_target * factor) u256_mod
    then anchor_target * factor / frac_one
    else if ltb (anchor_target * factor / frac_one) u256_mod
    then anchor_target * factor / frac_one
    else u256_max

abbrev pub clamp_one : ℕ → ℕ
clamp_one result = if result == 0 then 1 else result

-- The integer part of the exponent, with the early returns and the final clamp.
unfoldable pub shift : Width → ℕ → ℤ → ℕ
shift w result (pos int_part) =
    if leb 256 int_part
    then u256_max
    else if ltb (256 - w.bits result) int_part
    then u256_max
    else clamp_one (result * 2 ^ int_part % u256_mod)
shift w result (negsuc n) = if leb 256 (suc n) then 1 else clamp_one (result / 2 ^ suc n)

unfoldable pub compute_next_target : Width → ℕ → ℤ → ℕ → ℕ → ℕ → ℕ
unfolding exponent_fp frac_factor scale shift
compute_next_target w anchor_target time_delta height_delta target_block_time halflife =
    let exponent = exponent_fp time_delta height_delta target_block_time halflife in
    let int_part = floor_div exponent frac_one in
    let frac_part = exponent -ℤ int_part *ℤ pos frac_one in
    shift w (scale anchor_target (pos_part (frac_factor frac_part))) int_part
