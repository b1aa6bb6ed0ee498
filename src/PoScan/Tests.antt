-- ===== src/PoScan/Tests.antt =====
-- consensus/poscan/src/lib.rs on small inputs, with a toy mesh and codec.
use numen.Prelude.{ℕ, ◌+◌, ◌≡◌, ◌↔◌, refl, true, Option, none, some, List, [], ◌∷◌}
use numen.PoScan.Defs.{Seal, Toolbox, hash_meets_difficulty, ok, work, seal, verify_seal}
use numen.PoScan.Seals.{verify_seal-ok_iff, verify_seal-seal}

sum : List ℕ → ℕ
sum [] = 0
sum (x ∷ xs) = x + sum xs

two_words : List ℕ → Option Seal
two_words (nonce ∷ work ∷ []) = some (record { nonce = nonce; work = work })
two_words rest = none

abbrev toys : Toolbox ℕ
toys = record {
  sha256 = sum;
  hash_bytes = λ h. h ∷ [];
  nonce_bytes = λ n. n ∷ [];
  bucket_bytes = λ b. b ∷ [];
  asteroid = λ seed. seed;
  scan_buckets = λ mesh. some (mesh ∷ []);
  encode = λ s. s.nonce ∷ s.work ∷ [];
  decode_all = two_words;
  decode_all-encode = λ s. unfold two_words in refl;
}

abbrev found : Seal
found = record { nonce = 5; work = 1735 }

mined : seal toys 9 5 ≡ some found
unfolding seal work sum
mined = refl

verify_seal-ok_iff_example : (verify_seal toys 9 (toys.encode found) 7 ≡ ok true) ↔ (
    (s : Seal) × (two_words (toys.encode found) ≡ some s)
    × (hash_meets_difficulty s.work 7 ≡ true)
    × (work toys 9 s.nonce ≡ some s.work))
verify_seal-ok_iff_example = verify_seal-ok_iff toys 9 (toys.encode found) 7

verify_seal-seal_example :
    verify_seal toys 9 (toys.encode found) 7 ≡ ok (hash_meets_difficulty found.work 7)
verify_seal-seal_example = verify_seal-seal toys 9 5 7 mined
