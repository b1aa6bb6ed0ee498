-- ===== src/Difficulty/Asert/Factor.antt =====
-- The fraction and its factor in pallets/difficulty/src/asert.rs: their ranges, and that the factor
-- grows with the fraction.
use native.Mathlib.Nat.{mul-le-mul}
use numen.Prelude.{ℕ, ◌+◌, ◌-◌, ◌*◌, ◌/◌, ◌%◌, ◌≤◌, ◌<◌, ◌≡◌, refl, arith}
use numen.Prelude.Int.{ℤ, pos, negsuc, ◌-ℤ◌, ◌*ℤ◌, floor_div, +ℤ-pos, *ℤ-pos, quot-pos}
use numen.Difficulty.Asert.Defs.{frac_one, frac_factor}

-- The fraction of an exponent as a number.
abbrev pub fraction : ℤ → ℕ
fraction (pos n) = n % frac_one
fraction (negsuc n) = frac_one - 1 - n % frac_one

pub fraction_lem : (e : ℤ) → e -ℤ floor_div e frac_one *ℤ pos frac_one ≡ pos (fraction e)
unfolding ◌-ℤ◌ ◌*ℤ◌ floor_div
fraction_lem (pos n) = ground arith
fraction_lem (negsuc n) = ground arith

pub fraction-lt : (e : ℤ) → fraction e < frac_one
fraction-lt (pos n) = omega arith
fraction-lt (negsuc n) = omega arith

-- The factor on numbers.
unfoldable pub factor : ℕ → ℕ
factor x =
    frac_one
    + 45426 * x / frac_one
    + 15736 * x / frac_one * x / frac_one
    + 3638 * x / frac_one * x / frac_one * x / frac_one

pub frac_factor-pos : (x : ℕ) → frac_factor (pos x) ≡ pos (factor x)
unfolding frac_factor factor
frac_factor-pos x = simp (*ℤ-pos, quot-pos, +ℤ-pos)

pub factor-ge : (x : ℕ) → frac_one ≤ factor x
unfolding factor
factor-ge x = omega arith

step_mono : (a b x y : ℕ) → a ≤ b → x ≤ y → a * x / frac_one ≤ b * y / frac_one
step_mono a b x y h k = omega (arith, mul-le-mul h k)

pub factor_mono : (x y : ℕ) → x ≤ y → factor x ≤ factor y
unfolding factor
factor_mono x y h =
    let one = step_mono 45426 45426 x y (omega arith) h in
    let two = step_mono 15736 15736 x y (omega arith) h in
    let two' = step_mono (15736 * x / frac_one) (15736 * y / frac_one) x y two h in
    let three = step_mono 3638 3638 x y (omega arith) h in
    let three' = step_mono (3638 * x / frac_one) (3638 * y / frac_one) x y three h in
    let three'' =
      step_mono (3638 * x / frac_one * x / frac_one) (3638 * y / frac_one * y / frac_one) x y three'
        h in
    omega (arith, one, two', three'')

factor_top : factor 65535 ≡ 130330
unfolding factor
factor_top = refl

pub factor-lt : (x : ℕ) → x < frac_one → factor x < 2 * frac_one
factor-lt x h = omega (arith, factor_mono x 65535 (omega arith), factor_top)

pub factor-zero : factor 0 ≡ frac_one
unfolding factor
factor-zero = refl
