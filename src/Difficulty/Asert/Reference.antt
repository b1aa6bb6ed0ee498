-- ===== src/Difficulty/Asert/Reference.antt =====
-- `compute_next_target` of pallets/difficulty/src/asert.rs against a formula on unbounded numbers: one
-- product with the cubic factor, one power of two, and one clamp to the range of targets.
use native.Mathlib.Nat.{
  pow-suc, pow-le-pow_right, mul-lt-mul_of_pos_right, lt_of_mul-lt-mul_right, mul-le-mul,
  div-le_self, mul_assoc, le_refl, add-suc, add-zero, div-lt_iff_lt-mul,
}
use numen.Prelude.{
  ℕ, zero, suc, ◌+◌, ◌-◌, ◌*◌, ◌/◌, ◌%◌, ◌^◌, ◌≤◌, ◌<◌, ◌≡◌, ◌↔◌, arith, min, max, leb, ltb,
  if◌then◌else◌, Bool-cases, inl, inr, ◌∙◌, ap, sym,
}
use numen.Prelude.Int.{ℤ, pos, negsuc, pos_part, floor_div, ◌-ℤ◌, ◌*ℤ◌}
use numen.Difficulty.Asert.Defs.{
  u256_mod, u256_max, frac_one, Width, exponent_fp, frac_factor, scale, shift, clamp_one,
  compute_next_target,
}
use numen.Difficulty.Asert.Factor.{fraction, fraction_lem, factor, factor-ge, frac_factor-pos}

-- q * 2 ^ i, rounded down.
abbrev pub shifted : ℕ → ℤ → ℕ
shifted q (pos k) = q * 2 ^ k
shifted q (negsuc n) = q / 2 ^ suc n

-- The anchor times the cubic factor of the fraction of the exponent, which stands for 2 ^ f.
abbrev pub scaled : ℕ → ℕ → ℕ
scaled anchor x = min u256_max (anchor * factor x / frac_one)

-- The target range: 1 to the largest U256.
abbrev pub in_range : ℕ → ℕ
in_range n = max 1 (min u256_max n)

-- The scaled anchor, shifted by the floor of the exponent.
abbrev pub target_at : ℕ → ℤ → ℕ
target_at anchor exponent =
    in_range (shifted (scaled anchor (fraction exponent)) (floor_div exponent frac_one))

pub pow_add : (a b : ℕ) → 2 ^ (a + b) ≡ 2 ^ a * 2 ^ b
pow_add a zero = rw add-zero (omega arith)
pow_add a (suc b) = rw (add-suc, pow-suc, pow_add a b, pow-suc) (mul_assoc (2 ^ a) (2 ^ b) 2)

pub pow_pos : (k : ℕ) → 0 < 2 ^ k
pow_pos zero = omega arith
pow_pos (suc k) = rw pow-suc (omega (arith, pow_pos k))

split : (k : ℕ) → k ≤ 256 → 2 ^ (256 - k) * 2 ^ k ≡ u256_mod
split k h = sym (pow_add (256 - k) k) ∙ ap (λ n. 2 ^ n) {y = 256} (omega arith)

fits_iff : (q k : ℕ) → k ≤ 256 → (q < 2 ^ (256 - k)) ↔ (q * 2 ^ k < u256_mod)
fits_iff q k h = (
  λ l. rw (← split k h) (mul-lt-mul_of_pos_right l (pow_pos k)),
  λ l. lt_of_mul-lt-mul_right (2 ^ k) (rw (← split k h) at l),
)

pub large : (k : ℕ) → 256 ≤ k → u256_mod ≤ 2 ^ k
large k h = pow-le-pow_right (omega arith) h

-- The shift overflows exactly where the bits do not fit beside it.
headroom :
    (w : Width) (q k : ℕ) → q ≤ u256_max → k < 256 → (q * 2 ^ k < u256_mod) ↔ (k ≤ 256 - w.bits q)
headroom w q k b h =
    let fits = (w.lt-pow_iff q 256).0 (omega arith) in
    let exact = w.lt-pow_iff q (256 - k) in
    let product = fits_iff q k (omega arith) in
    (λ l. omega (arith, exact.0 (product.1 l)), λ l. product.0 (exact.1 (omega arith)))

shift-pos :
    (w : Width) (q k : ℕ) → 1 ≤ q → q ≤ u256_max → shift w q (pos k) ≡ in_range (shifted q (pos k))
unfolding shift
shift-pos w q k a b = elim (Bool-cases (leb 256 k)) [
  | inl e ↦ rw e (omega (arith, product_large (ground arith)))
  | inr e ↦ rw e (below (ground arith))
]
  where
    product_large : 256 ≤ k → u256_mod ≤ q * 2 ^ k
    product_large h = omega (arith, large k h, mul-le-mul a (le_refl (2 ^ k)))

    below :
        k < 256
        → (if ltb (256 - w.bits q) k then u256_max else clamp_one (q * 2 ^ k % u256_mod))
          ≡ in_range (q * 2 ^ k)
    below h = let fits = headroom w q k b h in ground (arith, fits.0, fits.1)

shift-negsuc :
    (w : Width) (q n : ℕ) → q ≤ u256_max → shift w q (negsuc n) ≡ in_range (shifted q (negsuc n))
unfolding shift
shift-negsuc w q n b = elim (Bool-cases (leb 256 (suc n))) [
  | inl e ↦ rw e (omega (arith, vanishes (ground arith)))
  | inr e ↦ rw e (ground (arith, div-le_self q (2 ^ suc n)))
]
  where
    vanishes : 256 ≤ suc n → q / 2 ^ suc n < 1
    vanishes h = (div-lt_iff_lt-mul (pow_pos (suc n))).1 (omega (arith, large (suc n) h))

scale_lem : (anchor f : ℕ) → scale anchor f ≡ min u256_max (anchor * f / frac_one)
unfolding scale
scale_lem anchor f = ground arith

pub scaled_range :
    (anchor x : ℕ)
    → 1 ≤ anchor
    → anchor ≤ u256_max
    → (anchor ≤ scaled anchor x) × (scaled anchor x ≤ u256_max)
scaled_range anchor x a b = omega (arith, mul-le-mul (le_refl anchor) (factor-ge x))

shift_lem :
    (w : Width) (q : ℕ) (i : ℤ) → 1 ≤ q → q ≤ u256_max → shift w q i ≡ in_range (shifted q i)
shift_lem w q (pos k) a b = shift-pos w q k a b
shift_lem w q (negsuc n) a b = shift-negsuc w q n b

-- For an anchor target between 1 and the largest U256, the computed target is the anchor times the cubic
-- `factor` of the exponent's fraction, at most the largest U256, shifted by the exponent's floor and
-- held between 1 and the largest U256. So the fast path, the U512 path, the headroom test and the
-- early returns agree with one multiplication and one shift on unbounded numbers.
pub compute_next_target-formula :
    (w : Width) (anchor : ℕ) (time_delta : ℤ) (height_delta target_block_time halflife : ℕ)
    → 1 ≤ anchor
    → anchor ≤ u256_max
    → compute_next_target w anchor time_delta height_delta target_block_time halflife
      ≡ target_at anchor (exponent_fp time_delta height_delta target_block_time halflife)
unfolding compute_next_target
compute_next_target-formula w anchor time_delta height_delta target_block_time halflife a b =
    at_exponent (exponent_fp time_delta height_delta target_block_time halflife)
  where
    at_exponent :
        (e : ℤ)
        → shift w
            (scale anchor (pos_part (frac_factor (e -ℤ floor_div e frac_one *ℤ pos frac_one))))
            (floor_div e frac_one)
          ≡ target_at anchor e
    at_exponent e =
        rw (fraction_lem e, frac_factor-pos (fraction e), scale_lem anchor (factor (fraction e)))
          (let range = scaled_range anchor (fraction e) a b in
            shift_lem w (scaled anchor (fraction e)) (floor_div e frac_one) (omega arith) range.1)
