-- ===== src/Runtime/Governance.antt =====
-- runtime/src/configs/governance.rs: the track of an origin, the identity that qualifies an account, and who
-- may submit a referendum.
use numen.Prelude.{
  ℕ, Bool, true, false, not, ◌&&◌, ◌||◌, Option, none, some, List, [], ◌∷◌, if◌then◌else◌,
}
use numen.Identity.{IdentityInfo}

pub data Origin : Type 0 where
  root runtime_upgrade wish_for_change identity_admin referendum_canceller referendum_killer :
      Origin
  small_spender medium_spender big_spender : Origin
  other : Origin

unfoldable pub track_for : Origin → Option ℕ
track_for root = some 0
track_for runtime_upgrade = some 1
track_for wish_for_change = some 2
track_for identity_admin = some 10
track_for referendum_canceller = some 20
track_for referendum_killer = some 21
track_for small_spender = some 30
track_for medium_spender = some 31
track_for big_spender = some 32
track_for other = none

-- The judgements of pallet_identity, of which two count.
pub data Judgement : Type 0 where
  reasonable known_good : Judgement
  other_judgement : Judgement

pub record Registration : Type 0 where
  pub judgements : List Judgement
  pub info : IdentityInfo

-- pallet_identity's storage.
pub record Identities : Type 0 where
  pub identity_of : ℕ → Option Registration
  pub super_of : ℕ → Option ℕ

abbrev judged : List Judgement → Bool
judged [] = false
judged (reasonable ∷ rest) = true
judged (known_good ∷ rest) = true
judged (other_judgement ∷ rest) = judged rest

abbrev is_empty : List ℕ → Bool
is_empty [] = true
is_empty (b ∷ text) = false

abbrev qualifies : Option Registration → Bool
qualifies none = false
qualifies (some registration) =
    let info = registration.info in
    judged registration.judgements
    && (not (is_empty info.x) || not (is_empty info.telegram) || not (is_empty info.discord))

unfoldable pub account_qualifies : Identities → ℕ → Bool
account_qualifies identities who = qualifies (identities.identity_of who)

abbrev parent_qualifies : Identities → Option ℕ → Bool
parent_qualifies identities none = false
parent_qualifies identities (some parent) = account_qualifies identities parent

unfoldable pub contains : Identities → ℕ → Bool
unfolding account_qualifies
contains identities who =
    account_qualifies identities who || parent_qualifies identities (identities.super_of who)

pub data Tried {ℓ} (O : Type ℓ) : Type ℓ where
  ok : ℕ → Tried O
  refused : O → Tried O

-- `ensure_signed` tells the signer of an origin, and `signed` makes one.
module _ {ℓ} {O : Type ℓ} (identities : Identities) (ensure_signed : O → Option ℕ)
    (signed : ℕ → O) where
  abbrev qualified_signer : O → Option ℕ → Tried O
  qualified_signer o none = refused o
  qualified_signer o (some who) = if contains identities who then ok who else refused (signed who)

  unfoldable pub ensure_qualified_identity : O → Tried O
  ensure_qualified_identity o = qualified_signer o (ensure_signed o)

  -- The upgrade track asks pallet_prime's `EnsurePrime`.
  unfoldable pub ensure_submitter : (O → Tried O) → O → Origin → Tried O
  unfolding ensure_qualified_identity
  ensure_submitter ensure_prime o runtime_upgrade = ensure_prime o
  ensure_submitter ensure_prime o _ = ensure_qualified_identity o
