-- ===== src/Chain/Finality.antt =====
-- consensus/sc-consensus-pow/src/lib.rs: `finality_conflicts` against the tree of blocks.
use numen.Prelude.{
  ℕ, zero, suc, ◌+◌, ◌-◌, ◌≤◌, ◌<◌, ◌≡◌, ◌↔◌, ◌⊎◌, inl, inr, refl, false, Bool-cases, arith, leb,
}
use numen.Chain.Defs.{
  Outcome, done, failed, Looked, found, missing, unavailable, walk_back, differs,
  finality_conflicts,
}

-- A block is another one or one of its ancestors. The parent's hash in the header of genesis, which has
-- the number 0, is no block's.
pub data IsAncestor (header_of : ℕ → Looked) (number : ℕ → ℕ) (a : ℕ) : ℕ → Type 0 where
  itself : IsAncestor header_of number a a
  above :
      {p h : ℕ}
      → header_of h ≡ found p
      → 0 < number h
      → IsAncestor header_of number a p
      → IsAncestor header_of number a h

-- Above genesis, numbers grow by one from a parent to its child.
abbrev pub IsNumbered : (ℕ → Looked) → (ℕ → ℕ) → Type 0
IsNumbered header_of number =
    (h p : ℕ) → header_of h ≡ found p → 0 < number h → number h ≡ suc (number p)

module _ (header_of : ℕ → Looked) (number : ℕ → ℕ) (numbered : IsNumbered header_of number) where
  IsAncestor-le : {a h : ℕ} → IsAncestor header_of number a h → number a ≤ number h
  IsAncestor-le itself = omega arith
  IsAncestor-le (above {p = p} {h = h} e l up) = omega (arith, numbered h p e l, IsAncestor-le up)

  -- An ancestor at a distance is what the walk finds.
  walk_back-IsAncestor :
      (n : ℕ) {a h : ℕ}
      → IsAncestor header_of number a h
      → number h ≡ n + number a
      → walk_back header_of n h ≡ done a
  unfolding walk_back
  walk_back-IsAncestor zero itself e = refl
  walk_back-IsAncestor (suc n) {a} itself e = absurd (omega (arith, e))
  walk_back-IsAncestor zero {a} (above {p = p} {h = h} l m up) e =
      absurd (omega (arith, numbered h p l m, IsAncestor-le up, e))
  walk_back-IsAncestor (suc n) {a} (above {p = p} {h = h} l m up) e =
      rw (l, walk_back) (walk_back-IsAncestor n up (omega (arith, numbered h p l m, e)))

  -- What the walk finds is an ancestor, unless it walks past genesis.
  IsAncestor-walk_back :
      (n : ℕ) {a h : ℕ}
      → n ≤ number h
      → walk_back header_of n h ≡ done a
      → IsAncestor header_of number a h
  unfolding walk_back
  IsAncestor-walk_back zero {a} {h} b e = rw (← done_injective e) itself
    where
      done_injective : done h ≡ done a → h ≡ a
      done_injective q = cc
  IsAncestor-walk_back (suc n) {a} {h} b e = looked (header_of h) refl λ p. IsAncestor-walk_back n
    where
      looked :
          (l : Looked)
          → header_of h ≡ l
          → ((p : ℕ)
              → n ≤ number p
              → walk_back header_of n p ≡ done a
              → IsAncestor header_of number a p)
          → IsAncestor header_of number a h
      looked (found p) q ih =
          let low : 0 < number h = omega (arith, b) in
          above q low (ih p (omega (arith, b, numbered h p q low)) cc)
      looked missing q ih = cc
      looked unavailable q ih = cc

differs_iff : (hash : ℕ) (o : Outcome ℕ) → (differs hash o ≡ done false) ↔ (o ≡ done hash)
differs_iff hash (failed e) = (λ h. cc, λ h. cc)
differs_iff hash (done other) = (λ h. ground arith, λ h. ground arith)

module _ (header_of : ℕ → Looked) (number : ℕ → ℕ) (numbered : IsNumbered header_of number) where
  walk_back_iff :
      (n a h : ℕ)
      → number h ≡ n + number a
      → (differs a (walk_back header_of n h) ≡ done false) ↔ IsAncestor header_of number a h
  walk_back_iff n a h e = (
    λ d.
        IsAncestor-walk_back header_of number numbered n (omega (arith, e))
          ((differs_iff a (walk_back header_of n h)).0 d),
    λ up.
        (differs_iff a (walk_back header_of n h)).1
          (walk_back-IsAncestor header_of number numbered n up e),
  )

  -- Where above genesis heights grow by one from a parent to its child, a candidate one above its parent is
  -- free of conflicts exactly when it is the finalized block or an ancestor of it, or the
  -- finalized block is the candidate's parent or an ancestor of that.
  pub finality_conflicts_iff :
      (new parent finalized : ℕ)
      → number new ≡ suc (number parent)
      → (finality_conflicts header_of new (number new) parent finalized (number finalized)
          ≡ done false)
        ↔ (IsAncestor header_of number new finalized ⊎ IsAncestor header_of number finalized parent)
  unfolding finality_conflicts
  finality_conflicts_iff new parent finalized e =
      elim (Bool-cases (leb (number new) (number finalized))) [
        | inl low ↦
            (let walk =
                walk_back_iff (number finalized - number new) new finalized (ground arith) in
              rw low (
                λ d. inl (walk.0 d),
                λ either. walk.1 (elim either [
                  | inl up ↦ up
                  | inr up ↦ absurd (ground (arith, IsAncestor-le header_of number numbered up))
                ]),
              ))
        | inr high ↦
            (let walk =
                walk_back_iff (number new - 1 - number finalized) finalized parent (ground arith) in
              rw high (
                λ d. inr (walk.0 d),
                λ either. walk.1 (elim either [
                  | inl up ↦ absurd (ground (arith, IsAncestor-le header_of number numbered up))
                  | inr up ↦ up
                ]),
              ))
      ]
