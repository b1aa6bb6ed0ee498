-- ===== src/Prelude/Sets.antt =====
-- Lists of account numbers: queues, and storage maps with unit values, read as sets.
use numen.Prelude.Tests.{◌==◌, if◌then◌else◌}
use numen.Prelude.Lists.{length}
use Prim.Native.Nat.{ℕ, ◌≤◌}
use mathlib.Core.Path.{◌≡◌, refl}
use mathlib.Core.Bool.{Bool, false, ◌&&◌, ◌||◌, not}
use mathlib.Core.List.{List, [], ◌∷◌, ◌++◌}
use native.Mathlib.Omega.{arith}

unfoldable pub contains : ℕ → List ℕ → Bool
contains a [] = false
contains a (x ∷ xs) = a == x || contains a xs

-- A key written to a map with unit values; writing it again changes nothing.
unfoldable pub add : ℕ → List ℕ → List ℕ
unfolding contains
add a xs = if contains a xs then xs else a ∷ xs

-- The key removed.
unfoldable pub without : ℕ → List ℕ → List ℕ
without a [] = []
without a (x ∷ xs) = let rest = without a xs in if a == x then rest else x ∷ rest

-- The first occurrence removed: `position` followed by `remove`.
unfoldable pub remove_first : ℕ → List ℕ → List ℕ
remove_first a [] = []
remove_first a (x ∷ xs) = if a == x then xs else x ∷ remove_first a xs

-- No element occurs twice.
abbrev pub Distinct : List ℕ → Type 0
Distinct [] = Unit
Distinct (x ∷ xs) = (contains x xs ≡ false) × Distinct xs

pub contains-append :
    (a : ℕ) (xs ys : List ℕ) → contains a (xs ++ ys) ≡ (contains a xs || contains a ys)
unfolding contains
contains-append a [] ys = refl
contains-append a (x ∷ xs) ys = ground (arith, contains-append a xs ys)

pub contains-add : (a b : ℕ) (xs : List ℕ) → contains a (add b xs) ≡ (a == b || contains a xs)
unfolding contains add
contains-add a b xs = ground arith

pub contains-without :
    (a b : ℕ) (xs : List ℕ) → contains a (without b xs) ≡ (not (a == b) && contains a xs)
unfolding contains without
contains-without a b [] = ground arith
contains-without a b (x ∷ xs) = ground (arith, contains-without a b xs)

pub contains-remove_first_ne :
    (a b : ℕ) (xs : List ℕ) → (a == b) ≡ false → contains a (remove_first b xs) ≡ contains a xs
unfolding contains remove_first
contains-remove_first_ne a b [] h = refl
contains-remove_first_ne a b (x ∷ xs) h = ground (arith, contains-remove_first_ne a b xs h)

pub contains-remove_first_self :
    (a : ℕ) (xs : List ℕ) → Distinct xs → contains a (remove_first a xs) ≡ false
unfolding contains remove_first
contains-remove_first_self a [] h = refl
contains-remove_first_self a (x ∷ xs) h = ground (arith, contains-remove_first_self a xs h.1)

pub length-remove_first : (a : ℕ) (xs : List ℕ) → length (remove_first a xs) ≤ length xs
unfolding remove_first
length-remove_first a [] = omega arith
length-remove_first a (x ∷ xs) = ground (arith, length-remove_first a xs)

pub remove_first-Distinct : (a : ℕ) (xs : List ℕ) → Distinct xs → Distinct (remove_first a xs)
unfolding contains remove_first
remove_first-Distinct a [] d = tt
remove_first-Distinct a (x ∷ xs) d =
    ground (arith, remove_first-Distinct a xs d.1, contains-remove_first_ne x a xs)

-- Without repetitions, removing the first occurrence removes the account.
pub contains-remove_first :
    (a b : ℕ) (xs : List ℕ)
    → Distinct xs
    → contains a (remove_first b xs) ≡ (not (a == b) && contains a xs)
contains-remove_first a b xs d =
    ground (arith, contains-remove_first_self a xs d, contains-remove_first_ne a b xs)
