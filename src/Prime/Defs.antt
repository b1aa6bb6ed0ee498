-- ===== src/Prime/Defs.antt =====
-- pallets/prime/src/lib.rs: the prime key and the calls that it guards.
use numen.Prelude.{ℕ, Bool, false, Option, none, some, List, ◌∷◌, ◌==◌, if◌then◌else◌}
use numen.Frame.{Origin, signed, root, unsigned}

pub data Event : Type 0 where
  key_changed : ℕ → ℕ → Event

pub data Error : Type 0 where
  require_prime bad_origin : Error

pub data Result (A : Type 0) : Type 0 where
  ok : A → Result A
  err : Error → Result A

infixl 5 ◌>>=◌
abbrev pub ◌>>=◌ : {A B : Type 0} → Result A → (A → Result B) → Result B
ok a >>= f = f a
err e >>= f = err e

-- The storage item and the deposited events, the latest first.
pub record State : Type 0 where
  pub key : Option ℕ
  pub events : List Event

-- `GenesisConfig::build`.
unfoldable pub build_genesis : State → Option ℕ → State
build_genesis s none = s
build_genesis s (some key) = record s { key = some key }

abbrev pub ensure_signed : Origin → Result ℕ
ensure_signed (signed who) = ok who
ensure_signed root = err bad_origin
ensure_signed unsigned = err bad_origin

-- `Key::get().as_ref() == Some(&who)`
abbrev pub holds_key : Option ℕ → ℕ → Bool
holds_key none who = false
holds_key (some key) who = key == who

unfoldable pub ensure_prime : State → Origin → Result ℕ
ensure_prime s origin = do
  who ← ensure_signed origin
  if holds_key s.key who then ok who else err require_prime

unfoldable pub set_key : State → Origin → ℕ → Result State
unfolding ensure_prime
set_key s origin new = do
  old ← ensure_prime s origin
  ok (record { key = some new; events = key_changed old new ∷ s.events })

-- `upgrade`: `permitted` is the answer of `UpgradeOrigin`, and `set_code` the call of frame_system
-- with the root origin.
unfoldable pub upgrade :
    {Code Done : Type 0} → (Origin → Code → Result Done) → Bool → Code → Result Done
upgrade set_code permitted code = if permitted then set_code root code else err bad_origin

-- `EnsurePrime::try_origin`, which hands a refused origin back.
pub data Tried : Type 0 where
  accepted : ℕ → Tried
  refused : Origin → Tried

unfoldable pub try_origin : State → Origin → Tried
try_origin s (signed who) = if holds_key s.key who then accepted who else refused (signed who)
try_origin s root = refused root
try_origin s unsigned = refused unsigned
