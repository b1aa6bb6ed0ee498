-- ===== src/Identity/Tests.antt =====
-- runtime/src/identity_info.rs on an identity that has an X handle and a Telegram handle.
use numen.Prelude.{◌≡◌, refl, true, false, [], ◌∷◌}
use numen.Identity.{IdentityInfo, has_identity}

abbrev partly_known : IdentityInfo
partly_known = record {
  display = [];
  avatar = [];
  bio = [];
  web = [];
  email = [];
  github = [];
  matrix = [];
  x = 1 ∷ [];
  telegram = 2 ∷ [];
  discord = [];
}

has_two : has_identity partly_known 384 ≡ true
unfolding has_identity
has_two = refl

lacks_discord : has_identity partly_known 896 ≡ false
unfolding has_identity
lacks_discord = refl
