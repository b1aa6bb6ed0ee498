-- ===== src/PoScan/Defs.antt =====
-- consensus/poscan/src/lib.rs: seals, the work function and seal verification. Hashes, the mesh
-- generator, the scan with its quantisation in floating point, and the SCALE codec are parameters.
use numen.Prelude.{
  ℕ, ◌*◌, ◌≡◌, Bool, false, Option, none, some, List, [], ◌∷◌, ◌++◌, ltb, ◌==◌, if◌then◌else◌,
}
use numen.Difficulty.Asert.Defs.{u256_mod}

-- A H256 is the number that its bytes spell, the first byte highest; a U256 is a number.
pub record Seal : Type 0 where
  pub nonce : ℕ
  pub work : ℕ

-- What the module calls: SHA-256 on bytes, the bytes of a hash, of a nonce and of a bucket, the
-- generator with its seed, the scan and its quantised features, and the codec of seals.
pub record Toolbox (Mesh : Type 0) : Type 0 where
  pub sha256 : List ℕ → ℕ
  pub hash_bytes : ℕ → List ℕ
  pub nonce_bytes : ℕ → List ℕ
  pub bucket_bytes : ℕ → List ℕ
  pub asteroid : ℕ → Mesh
  pub scan_buckets : Mesh → Option (List ℕ)
  pub encode : Seal → List ℕ
  pub decode_all : List ℕ → Option Seal
  pub decode_all-encode : (s : Seal) → decode_all (encode s) ≡ some s

-- "poscan-v1" and the zero byte after it.
abbrev pub protocol : List ℕ
protocol = b'p' ∷ b'o' ∷ b's' ∷ b'c' ∷ b'a' ∷ b'n' ∷ b'-' ∷ b'v' ∷ b'1' ∷ 0 ∷ []

-- `hash_meets_difficulty`: the product does not overflow a U256.
unfoldable pub hash_meets_difficulty : ℕ → ℕ → Bool
hash_meets_difficulty hash difficulty = ltb (hash * difficulty) u256_mod

-- What `verify_seal` returns: a verdict, or the codec's error.
pub data Verdict : Type 0 where
  ok : Bool → Verdict
  malformed : Verdict

module _ {Mesh : Type 0} (tools : Toolbox Mesh) where
  open tools use {sha256, hash_bytes, nonce_bytes, bucket_bytes, asteroid, scan_buckets, decode_all}

  unfoldable pub seed_input : ℕ → ℕ → List ℕ
  seed_input pre_hash nonce = protocol ++ (hash_bytes pre_hash ++ nonce_bytes nonce)

  unfoldable pub derive_seed : ℕ → ℕ → ℕ
  unfolding seed_input
  derive_seed pre_hash nonce = sha256 (seed_input pre_hash nonce)

  unfoldable pub buckets_bytes : List ℕ → List ℕ
  buckets_bytes [] = []
  buckets_bytes (bucket ∷ rest) = bucket_bytes bucket ++ buckets_bytes rest

  unfoldable pub work_input : List ℕ → ℕ → List ℕ
  unfolding buckets_bytes
  work_input buckets pre_hash = protocol ++ (hash_bytes pre_hash ++ buckets_bytes buckets)

  unfoldable pub hash_buckets : List ℕ → ℕ → ℕ
  unfolding work_input
  hash_buckets buckets pre_hash = sha256 (work_input buckets pre_hash)

  -- `Compute::mesh`.
  unfoldable pub mesh : ℕ → ℕ → Mesh
  unfolding derive_seed
  mesh pre_hash nonce = asteroid (derive_seed pre_hash nonce)

  -- `Compute::work`.
  unfoldable pub work : ℕ → ℕ → Option ℕ
  unfolding mesh hash_buckets
  work pre_hash nonce = elim (scan_buckets (mesh pre_hash nonce)) [
    | none ↦ none
    | some buckets ↦ some (hash_buckets buckets pre_hash)
  ]

  -- `Compute::seal`.
  unfoldable pub seal : ℕ → ℕ → Option Seal
  seal pre_hash nonce = elim (work pre_hash nonce) [
    | none ↦ none
    | some w ↦ some (record { nonce = nonce; work = w })
  ]

  abbrev pub same_work : Option ℕ → ℕ → Bool
  same_work none w = false
  same_work (some v) w = v == w

  -- The rest of `verify_seal` once the seal is decoded.
  unfoldable pub judge : ℕ → ℕ → Option Seal → Verdict
  unfolding hash_meets_difficulty
  judge pre_hash difficulty none = malformed
  judge pre_hash difficulty (some s) =
      if hash_meets_difficulty s.work difficulty
      then ok (same_work (work pre_hash s.nonce) s.work)
      else ok false

  unfoldable pub verify_seal : ℕ → List ℕ → ℕ → Verdict
  unfolding judge
  verify_seal pre_hash raw_seal difficulty = judge pre_hash difficulty (decode_all raw_seal)
