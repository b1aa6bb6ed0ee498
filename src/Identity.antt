-- ===== src/Identity.antt =====
-- The identity fields (runtime/src/identity_info.rs) and which of them an account has filled in.
use Prim.Native.Nat.{bit_and, bit_or}
use numen.Prelude.{ℕ, ◌^◌, ◌≡◌, refl, Bool, true, false, not, List, [], ◌∷◌, ◌==◌, if◌then◌else◌}
mod Tests

pub data IdentityField : Type 0 where
  display avatar bio web email github matrix x telegram discord : IdentityField

pub record IdentityInfo : Type 0 where
  pub display : List ℕ
  pub avatar : List ℕ
  pub bio : List ℕ
  pub web : List ℕ
  pub email : List ℕ
  pub github : List ℕ
  pub matrix : List ℕ
  pub x : List ℕ
  pub telegram : List ℕ
  pub discord : List ℕ

-- The flag of a field.
abbrev pub bit : IdentityField → ℕ
bit IdentityField.display = 1
bit IdentityField.avatar = 2
bit IdentityField.bio = 4
bit IdentityField.web = 8
bit IdentityField.email = 16
bit IdentityField.github = 32
bit IdentityField.matrix = 64
bit IdentityField.x = 128
bit IdentityField.telegram = 256
bit IdentityField.discord = 512

abbrev is_empty : List ℕ → Bool
is_empty [] = true
is_empty (b ∷ text) = false

abbrev filled_in : IdentityInfo → List (IdentityField × Bool)
filled_in info =
    (IdentityField.display, not (is_empty info.display))
    ∷ (IdentityField.avatar, not (is_empty info.avatar))
    ∷ (IdentityField.bio, not (is_empty info.bio))
    ∷ (IdentityField.web, not (is_empty info.web))
    ∷ (IdentityField.email, not (is_empty info.email))
    ∷ (IdentityField.github, not (is_empty info.github))
    ∷ (IdentityField.matrix, not (is_empty info.matrix))
    ∷ (IdentityField.x, not (is_empty info.x))
    ∷ (IdentityField.telegram, not (is_empty info.telegram))
    ∷ (IdentityField.discord, not (is_empty info.discord))
    ∷ []

abbrev collect : List (IdentityField × Bool) → ℕ → ℕ
collect [] bits = bits
collect ((field, filled) ∷ rest) bits =
    collect rest (if filled then bit_or bits (bit field) else bits)

unfoldable pub fields : IdentityInfo → ℕ
fields info = collect (filled_in info) 0

unfoldable pub has_identity : IdentityInfo → ℕ → Bool
unfolding fields
has_identity info wanted = bit_and (fields info) wanted == wanted
