-- ===== src/Host/Bytes.antt =====
-- The bytes of a number, the highest first, as `to_be_bytes` and `as_bytes` give them.
use numen.Prelude.{ℕ, zero, suc, ◌/◌, ◌%◌, List, [], ◌∷◌, ◌++◌}

unfoldable pub bytes_of : ℕ → ℕ → List ℕ
bytes_of zero n = []
bytes_of (suc count) n = bytes_of count (n / 256) ++ n % 256 ∷ []
