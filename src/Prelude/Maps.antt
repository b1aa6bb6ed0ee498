-- ===== src/Prelude/Maps.antt =====
-- Storage maps keyed by account numbers, as association lists: `iter` reads the list in its order.
use numen.Prelude.Tests.{◌==◌, if◌then◌else◌, is_some}
use numen.Prelude.Sets.{contains, Distinct}
use Prim.Native.Nat.{ℕ}
use mathlib.Core.Path.{◌≡◌, refl}
use mathlib.Core.Bool.{◌&&◌, not, ◌||◌}
use mathlib.Core.Option.{Option, none, some}
use mathlib.Core.List.{List, [], ◌∷◌}
use native.Mathlib.Omega.{arith}

abbrev pub Map {ℓ} : Type ℓ → Type ℓ
Map V = List (ℕ × V)

module _ {ℓ} {V : Type ℓ} where
  unfoldable pub lookup : ℕ → Map V → Option V
  lookup k [] = none
  lookup k ((j, v) ∷ m) = if k == j then some v else lookup k m

  unfoldable pub insert : ℕ → V → Map V → Map V
  insert k v [] = (k, v) ∷ []
  insert k v ((j, w) ∷ m) = if k == j then (k, v) ∷ m else (j, w) ∷ insert k v m

  unfoldable pub erase : ℕ → Map V → Map V
  erase k [] = []
  erase k ((j, w) ∷ m) = let rest = erase k m in if k == j then rest else (j, w) ∷ rest

  unfoldable pub keys : Map V → List ℕ
  keys [] = []
  keys ((j, w) ∷ m) = j ∷ keys m

  pub lookup-insert :
      (j k : ℕ) (v : V) (m : Map V)
      → lookup j (insert k v m) ≡ (if j == k then some v else lookup j m)
  unfolding lookup insert
  lookup-insert j k v [] = refl
  lookup-insert j k v ((i, w) ∷ m) = ground (arith, lookup-insert j k v m)

  pub lookup-erase :
      (j k : ℕ) (m : Map V) → lookup j (erase k m) ≡ (if j == k then none else lookup j m)
  unfolding lookup erase
  lookup-erase j k [] = ground arith
  lookup-erase j k ((i, w) ∷ m) = ground (arith, lookup-erase j k m)

  pub contains-keys : (k : ℕ) (m : Map V) → contains k (keys m) ≡ is_some (lookup k m)
  unfolding contains keys lookup
  contains-keys k [] = refl
  contains-keys k ((j, v) ∷ m) = ground (arith, contains-keys k m)

  pub contains-keys-insert :
      (j k : ℕ) (v : V) (m : Map V)
      → contains j (keys (insert k v m)) ≡ (j == k || contains j (keys m))
  unfolding contains keys insert
  contains-keys-insert j k v [] = refl
  contains-keys-insert j k v ((i, w) ∷ m) = ground (arith, contains-keys-insert j k v m)

  pub contains-keys-erase :
      (j k : ℕ) (m : Map V) → contains j (keys (erase k m)) ≡ (not (j == k) && contains j (keys m))
  unfolding contains keys erase
  contains-keys-erase j k [] = ground arith
  contains-keys-erase j k ((i, w) ∷ m) = ground (arith, contains-keys-erase j k m)

  pub insert-Distinct :
      (k : ℕ) (v : V) (m : Map V) → Distinct (keys m) → Distinct (keys (insert k v m))
  unfolding contains keys insert
  insert-Distinct k v [] h = (refl, tt)
  insert-Distinct k v ((i, w) ∷ m) h =
      ground (arith, insert-Distinct k v m h.1, contains-keys-insert i k v m)

  pub erase-Distinct : (k : ℕ) (m : Map V) → Distinct (keys m) → Distinct (keys (erase k m))
  unfolding contains keys erase
  erase-Distinct k [] h = tt
  erase-Distinct k ((i, w) ∷ m) h =
      ground (arith, erase-Distinct k m h.1, contains-keys-erase i k m)
