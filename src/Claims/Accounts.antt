-- ===== src/Claims/Accounts.antt =====
-- pallets/evm-claims/src/lib.rs: the two accounts of an H160, as the numbers that their bytes spell, the
-- first byte highest.
use numen.Prelude.{ℕ, ◌+◌, ◌*◌, ◌/◌, ◌%◌, ◌^◌, ◌≡◌, List, ◌∷◌, arith}
use numen.Host.Bytes.{bytes_of}

-- Twelve bytes 0xEE.
abbrev pub ee_tail : ℕ
ee_tail = 0xeeeeeeeeeeeeeeeeeeeeeeee

abbrev pub tail_mod : ℕ
tail_mod = 2 ^ 96

unfoldable pub revive_account : ℕ → ℕ
revive_account address = address * tail_mod + ee_tail

-- The hash BLAKE2b-256 of "evm:" and the address.
unfoldable pub legacy_account : (List ℕ → ℕ) → ℕ → ℕ
unfolding bytes_of
legacy_account blake2_256 address = blake2_256 (b'e' ∷ b'v' ∷ b'm' ∷ b':' ∷ bytes_of 20 address)

pub revive_account-tail : (address : ℕ) → revive_account address % tail_mod ≡ ee_tail
unfolding revive_account
revive_account-tail address = omega arith

pub revive_account-head : (address : ℕ) → revive_account address / tail_mod ≡ address
unfolding revive_account
revive_account-head address = omega arith
