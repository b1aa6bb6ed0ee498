-- ===== src/PoScan/Seals.antt =====
-- consensus/poscan/src/lib.rs: what an accepted seal proves, and which hashes meet a difficulty.
use native.Mathlib.Nat.{le-div_iff_mul-le, mul_comm, mul-le-mul, le_refl, le_trans, div-mul-le_self}
use numen.Prelude.{ℕ, ◌*◌, ◌/◌, ◌≤◌, ◌<◌, ◌≡◌, ◌↔◌, refl, true, Option, none, some, List, arith}
use numen.Difficulty.Asert.Defs.{u256_max}
use numen.PoScan.Defs.{Seal, Toolbox, hash_meets_difficulty, ok, work, seal, judge, verify_seal}

-- A hash meets a difficulty that is not 0 exactly when it is at most the largest U256 divided by the
-- difficulty.
pub hash_meets_difficulty_iff :
    (hash difficulty : ℕ)
    → 0 < difficulty
    → (hash_meets_difficulty hash difficulty ≡ true) ↔ (hash ≤ u256_max / difficulty)
unfolding hash_meets_difficulty
hash_meets_difficulty_iff hash difficulty p =
    let quotient = le-div_iff_mul-le {x = hash} {y = u256_max} p in
    (λ h. quotient.1 (ground arith), λ h. ground (arith, quotient.0 h))

-- A hash at most a target meets the difficulty that the chain stores for that target.
pub target_meets_difficulty :
    (hash target : ℕ) → hash ≤ target → hash_meets_difficulty hash (u256_max / target) ≡ true
unfolding hash_meets_difficulty
target_meets_difficulty hash target h =
    let below : target * (u256_max / target) ≤ u256_max =
      rw (mul_comm target (u256_max / target)) (div-mul-le_self u256_max target) in
    let product = le_trans (mul-le-mul h (le_refl (u256_max / target))) below in
    ground (arith, product)

module _ {Mesh : Type 0} (tools : Toolbox Mesh) where
  -- A seal is accepted exactly when its bytes decode, its work meets the difficulty, and scanning again
  -- from the pre-hash and the nonce gives that work.
  pub verify_seal-ok_iff :
      (pre_hash : ℕ) (raw : List ℕ) (difficulty : ℕ)
      → (verify_seal tools pre_hash raw difficulty ≡ ok true) ↔ (
          (s : Seal) × (tools.decode_all raw ≡ some s)
          × (hash_meets_difficulty s.work difficulty ≡ true)
          × (work tools pre_hash s.nonce ≡ some s.work))
  unfolding verify_seal
  verify_seal-ok_iff pre_hash raw difficulty = decoded (tools.decode_all raw)
    where
      decoded :
          (o : Option Seal)
          → (judge tools pre_hash difficulty o ≡ ok true) ↔ (
              (s : Seal) × (o ≡ some s)
              × (hash_meets_difficulty s.work difficulty ≡ true)
              × (work tools pre_hash s.nonce ≡ some s.work))
      decoded none = (λ h. cc, λ h. cc)
      decoded (some s) = (λ h. (s, refl, ground arith, ground arith), λ h. ground arith)

  -- A seal that a miner computes and encodes is accepted exactly when its work meets the difficulty.
  pub verify_seal-seal :
      (pre_hash nonce difficulty : ℕ) {s : Seal}
      → seal tools pre_hash nonce ≡ some s
      → verify_seal tools pre_hash (tools.encode s) difficulty
        ≡ ok (hash_meets_difficulty s.work difficulty)
  unfolding verify_seal judge seal
  verify_seal-seal pre_hash nonce difficulty {s} h = ground (arith, tools.decode_all-encode s)
