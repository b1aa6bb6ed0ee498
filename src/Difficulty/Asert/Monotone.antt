-- ===== src/Difficulty/Asert/Monotone.antt =====
-- pallets/difficulty/src/asert.rs: later blocks never get a harder target, blocks on schedule keep
-- the anchor's, and a target is never out of range.
use native.Mathlib.Nat.{
  pow-suc, pow-le-pow_right, le-div_iff_mul-le, div-mul-le_self, div-le_self, mul-le-mul, le_refl,
  le_trans, mod-eq_of_lt, mul_comm, mul-div-mul_right,
}
use numen.Prelude.{
  ℕ, zero, suc, ◌+◌, ◌-◌, ◌*◌, ◌/◌, ◌%◌, ◌^◌, ◌≤◌, ◌<◌, ◌≡◌, arith, u64_mod, ◌∙◌, ap, ◌⊎◌, inl, inr,
}
use numen.Prelude.Int.{
  ℤ, pos, negsuc, -ℤ_parts, *ℤ-scale_parts, ◌≤ℤ◌, ◌-ℤ◌, ◌*ℤ◌, quot, sub_ℕ, floor_div, pos_part,
  neg_part,
}
use numen.Difficulty.Asert.Defs.{u256_max, frac_one, Width, exponent_fp, compute_next_target}
use numen.Difficulty.Asert.Factor.{fraction, fraction-lt, factor-zero, factor_mono, factor-lt}
use numen.Difficulty.Asert.Reference.{
  shifted, scaled, in_range, target_at, large, scaled_range, pow_pos, compute_next_target-formula,
}

div_mono : (a b d : ℕ) → 0 < d → a ≤ b → a / d ≤ b / d
div_mono a b d p h = (le-div_iff_mul-le p).1 (le_trans (div-mul-le_self a d) h)

shifted_mono : (p q : ℕ) (i : ℤ) → p ≤ q → shifted p i ≤ shifted q i
shifted_mono p q (pos k) h = mul-le-mul h (le_refl (2 ^ k))
shifted_mono p q (negsuc n) h = div_mono p q (2 ^ suc n) (pow_pos (suc n)) h

-- One more in the exponent doubles.
succ : ℤ → ℤ
succ (pos k) = pos (suc k)
succ (negsuc zero) = pos 0
succ (negsuc (suc n)) = negsuc n

shifted-double : (q : ℕ) (i : ℤ) → shifted (2 * q) i ≡ shifted q (succ i)
unfolding succ
shifted-double q (pos k) = rw pow-suc (grind arith)
shifted-double q (negsuc zero) = omega arith
shifted-double q (negsuc (suc n)) =
    ap (λ t. t / 2 ^ suc (suc n)) (mul_comm 2 q)
    ∙ ap (λ t. q * 2 / t) (pow-suc 2 (suc n))
    ∙ mul-div-mul_right q (2 ^ suc n) (omega arith)

abbrev Below : ℤ → ℤ → Type 0
Below i j = pos_part i + neg_part j < pos_part j + neg_part i

succ-le : (i j : ℤ) → Below i j → succ i ≤ℤ j
unfolding succ
succ-le (pos k) j h = ground arith
succ-le (negsuc zero) j h = ground arith
succ-le (negsuc (suc n)) j h = ground arith

shifted_exponent_mono : (q : ℕ) (i j : ℤ) → i ≤ℤ j → shifted q i ≤ shifted q j
shifted_exponent_mono q (pos k) (pos m) h =
    mul-le-mul (le_refl q) (pow-le-pow_right (omega arith) (omega arith))
shifted_exponent_mono q (pos k) (negsuc m) h = absurd (omega arith)
shifted_exponent_mono q (negsuc n) (pos m) h =
    le_trans (div-le_self q (2 ^ suc n)) (omega (arith, mul-le-mul (le_refl q) (pow_pos m)))
shifted_exponent_mono q (negsuc n) (negsuc m) h = (le-div_iff_mul-le (pow_pos (suc m))).1 (
    le_trans (mul-le-mul (le_refl (q / 2 ^ suc n)) (pow-le-pow_right (omega arith) (omega arith)))
      (div-mul-le_self q (2 ^ suc n)))

-- A larger exponent has the same integer part and no smaller fraction, or a larger integer part.
parts_mono :
    (e e' : ℤ)
    → e ≤ℤ e'
    → ((floor_div e frac_one ≡ floor_div e' frac_one) × (fraction e ≤ fraction e'))
      ⊎ Below (floor_div e frac_one) (floor_div e' frac_one)
unfolding floor_div
parts_mono (pos n) (pos m) h = ground arith
parts_mono (pos n) (negsuc m) h = absurd (omega arith)
parts_mono (negsuc n) (pos m) h = inr (omega arith)
parts_mono (negsuc n) (negsuc m) h = ground arith

module _ (anchor : ℕ) (a : 1 ≤ anchor) (b : anchor ≤ u256_max) where
  scaled_mono : (x y : ℕ) → x ≤ y → scaled anchor x ≤ scaled anchor y
  scaled_mono x y h = omega (arith, mul-le-mul (le_refl anchor) (factor_mono x y h))

  -- The factor stays below 2, so a fraction never outweighs a whole step of the exponent.
  scaled-le-double : (x y : ℕ) → x < frac_one → scaled anchor x ≤ 2 * scaled anchor y
  scaled-le-double x y h =
      omega (arith, scaled_range anchor y a b, mul-le-mul (le_refl anchor) (factor-lt x h))

  formula_mono :
      (e e' : ℤ)
      → e ≤ℤ e'
      → shifted (scaled anchor (fraction e)) (floor_div e frac_one)
        ≤ shifted (scaled anchor (fraction e')) (floor_div e' frac_one)
  formula_mono e e' h = elim (parts_mono e e' h) [
    | inl (same, grows) ↦ rw same (
        shifted_mono (scaled anchor (fraction e)) (scaled anchor (fraction e')) _
          (scaled_mono (fraction e) (fraction e') grows))
    | inr up ↦
        let q = scaled anchor (fraction e) in
        let q' = scaled anchor (fraction e') in
        let i = floor_div e frac_one in
        le_trans
          (shifted_mono q (2 * q') i (scaled-le-double (fraction e) (fraction e') (fraction-lt e)))
          (rw (shifted-double q' i)
            (shifted_exponent_mono q' (succ i) (floor_div e' frac_one) (succ-le i _ up)))
  ]

quot_mono : (z z' : ℤ) (d : ℕ) → 0 < d → z ≤ℤ z' → quot z d ≤ℤ quot z' d
unfolding quot
quot_mono (pos n) (pos m) d p h = omega (arith, div_mono n m d p (omega arith))
quot_mono (pos n) (negsuc m) d p h = absurd (omega arith)
quot_mono (negsuc n) (pos m) d p h = ground arith
quot_mono (negsuc n) (negsuc m) d p h = ground (arith, div_mono (suc m) (suc n) d p (omega arith))

exponent_mono :
    (t t' : ℤ) (height_delta target_block_time halflife : ℕ)
    → 0 < halflife
    → t ≤ℤ t'
    → exponent_fp t height_delta target_block_time halflife
      ≤ℤ exponent_fp t' height_delta target_block_time halflife
unfolding exponent_fp
exponent_mono t t' height_delta target_block_time halflife p h =
    quot_mono _ _ halflife p (scaled_up t t' ((target_block_time * height_delta) % u64_mod) h)
  where
    scaled_up :
        (t t' : ℤ) (ideal : ℕ)
        → t ≤ℤ t'
        → (t -ℤ pos ideal) *ℤ pos frac_one ≤ℤ (t' -ℤ pos ideal) *ℤ pos frac_one
    scaled_up t t' ideal h = omega (
      arith,
      -ℤ_parts t (pos ideal),
      -ℤ_parts t' (pos ideal),
      *ℤ-scale_parts (t -ℤ pos ideal) frac_one,
      *ℤ-scale_parts (t' -ℤ pos ideal) frac_one,
    )

in_range_mono : (m n : ℕ) → m ≤ n → in_range m ≤ in_range n
in_range_mono m n h = omega arith

-- A later block never gets a harder target: with the anchor, the height and the constants fixed,
-- an anchor target between 1 and the largest U256, and a halflife that is not 0, the target does
-- not shrink as the time since the anchor grows.
pub compute_next_target_mono :
    (w : Width) (anchor : ℕ) (t t' : ℤ) (height_delta target_block_time halflife : ℕ)
    → 1 ≤ anchor
    → anchor ≤ u256_max
    → 0 < halflife
    → t ≤ℤ t'
    → compute_next_target w anchor t height_delta target_block_time halflife
      ≤ compute_next_target w anchor t' height_delta target_block_time halflife
compute_next_target_mono w anchor t t' height_delta target_block_time halflife a b p h =
    rw
      (
        compute_next_target-formula w anchor t height_delta target_block_time halflife a b,
        compute_next_target-formula w anchor t' height_delta target_block_time halflife a b,
      )
      (in_range_mono _ _ (
        formula_mono anchor a b _ _
          (exponent_mono t t' height_delta target_block_time halflife p h)))

exponent_on_schedule :
    (height_delta target_block_time halflife : ℕ)
    → target_block_time * height_delta < u64_mod
    → exponent_fp (pos (target_block_time * height_delta)) height_delta target_block_time halflife
      ≡ pos 0
unfolding exponent_fp quot ◌-ℤ◌ ◌*ℤ◌
exponent_on_schedule height_delta target_block_time halflife h = ground (arith, mod-eq_of_lt h)

target_at_zero : (anchor : ℕ) → 1 ≤ anchor → anchor ≤ u256_max → target_at anchor (pos 0) ≡ anchor
unfolding floor_div
target_at_zero anchor a b = rw factor-zero (omega arith)

-- Blocks exactly on schedule keep the anchor's target, for an anchor target between 1 and the
-- largest U256, as long as the ideal time is a 64-bit number.
pub compute_next_target_on_schedule :
    (w : Width) (anchor height_delta target_block_time halflife : ℕ)
    → 1 ≤ anchor
    → anchor ≤ u256_max
    → target_block_time * height_delta < u64_mod
    → compute_next_target w anchor
        (pos (target_block_time * height_delta))
        height_delta
        target_block_time
        halflife
      ≡ anchor
compute_next_target_on_schedule w anchor height_delta target_block_time halflife a b h =
    compute_next_target-formula w anchor _ height_delta target_block_time halflife a b
    ∙ ap (target_at anchor) (exponent_on_schedule height_delta target_block_time halflife h)
    ∙ target_at_zero anchor a b

-- A target always lies between 1 and the largest U256, for an anchor target in that range.
pub compute_next_target_range :
    (w : Width) (anchor : ℕ) (t : ℤ) (height_delta target_block_time halflife : ℕ)
    → 1 ≤ anchor
    → anchor ≤ u256_max
    → let target = compute_next_target w anchor t height_delta target_block_time halflife in
      (1 ≤ target) × (target ≤ u256_max)
compute_next_target_range w anchor t height_delta target_block_time halflife a b =
    rw (compute_next_target-formula w anchor t height_delta target_block_time halflife a b)
      (omega arith)

exponent_late :
    (secs ideal halflife : ℕ)
    → 0 < halflife
    → ideal + 256 * halflife ≤ secs
    → (n : ℕ) × (quot ((sub_ℕ secs 0 -ℤ pos ideal) *ℤ pos frac_one) halflife ≡ pos n)
      × (256 ≤ n / frac_one)
unfolding quot ◌-ℤ◌ ◌*ℤ◌
exponent_late secs ideal halflife p h = ((secs - ideal) * frac_one / halflife, ground arith, far)
  where
    far : 256 ≤ (secs - ideal) * frac_one / halflife / frac_one
    far =
        let enough : 256 * frac_one ≤ (secs - ideal) * frac_one / halflife =
          (le-div_iff_mul-le p).1 (omega arith) in
        omega (arith, enough)

target_at_large :
    (anchor n : ℕ)
    → 1 ≤ anchor
    → anchor ≤ u256_max
    → 256 ≤ n / frac_one
    → target_at anchor (pos n) ≡ u256_max
unfolding floor_div
target_at_large anchor n a b far =
    let q = scaled anchor (fraction (pos n)) in
    let range = scaled_range anchor (fraction (pos n)) a b in
    let one : 1 ≤ q = omega (arith, range.0) in
    omega (arith, large (n / frac_one) far, mul-le-mul one (le_refl (2 ^ (n / frac_one))))

-- With no time set on the anchor, a block 256 halflives or more beyond the ideal time of its height
-- gets the largest target.
pub compute_next_target_saturates :
    (w : Width) (anchor secs height_delta target_block_time halflife : ℕ)
    → 1 ≤ anchor
    → anchor ≤ u256_max
    → 0 < halflife
    → target_block_time * height_delta < u64_mod
    → target_block_time * height_delta + 256 * halflife ≤ secs
    → compute_next_target w anchor (sub_ℕ secs 0) height_delta target_block_time halflife ≡ u256_max
unfolding exponent_fp
compute_next_target_saturates w anchor secs height_delta target_block_time halflife a b p fits
      late =
    compute_next_target-formula w anchor _ height_delta target_block_time halflife a b
    ∙ (let (n, e, far) = exponent_late secs (target_block_time * height_delta) halflife p late in
        rw (mod-eq_of_lt fits, e) (target_at_large anchor n a b far))
