-- ===== src/Rpc/Algorithm.antt =====
-- consensus/poscan-pow/src/lib.rs: difficulty and seals as the runtime judges them.
use numen.Prelude.{ℕ, Bool, Option, none, some}

pub data PowError : Type 0 where
  environment runtime : PowError

pub data Outcome {ℓ} (A : Type ℓ) : Type ℓ where
  ok : A → Outcome A
  failed : PowError → Outcome A

pub data BlockId : Type 0 where
  hash number : ℕ → BlockId

-- The runtime's API at a block: nothing where the call fails. The difficulty is missing where the
-- timestamp inherent is not valid.
pub record PoScanAlgorithm : Type 0 where
  pub difficulty_for_block : ℕ → ℕ → Option (Option ℕ)
  pub verify_seal : ℕ → ℕ → ℕ → ℕ → Option Bool

abbrev difficulty_from : Option (Option ℕ) → Outcome ℕ
difficulty_from none = failed environment
difficulty_from (some none) = failed runtime
difficulty_from (some (some difficulty)) = ok difficulty

unfoldable pub difficulty : PoScanAlgorithm → ℕ → ℕ → Outcome ℕ
difficulty algorithm parent timestamp_inherent =
    difficulty_from (algorithm.difficulty_for_block parent timestamp_inherent)

abbrev verdict_from : Option Bool → Outcome Bool
verdict_from none = failed runtime
verdict_from (some verdict) = ok verdict

unfoldable pub verify : PoScanAlgorithm → BlockId → ℕ → Option ℕ → ℕ → ℕ → Outcome Bool
verify algorithm (hash parent) pre_hash pre_digest seal difficulty =
    verdict_from (algorithm.verify_seal parent pre_hash seal difficulty)
verify algorithm (number n) pre_hash pre_digest seal difficulty = failed environment
