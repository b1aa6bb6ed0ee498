-- ===== src/Forward/Search.antt =====
-- node/src/eth_forward.rs: the search for the switch ends at the first block that pallet-revive built.
use numen.Prelude.{
  ℕ, zero, suc, ◌+◌, ◌-◌, ◌/◌, ◌≤◌, ◌<◌, ◌≡◌, ◌⊎◌, inl, inr, refl, sym, ap, subst, ◌∙◌, Bool, true,
  false, none, some, arith, ltb, ◌||◌, ◌==◌, if◌then◌else◌,
}
use numen.Forward.Switch.{Client, built_by_frontier, narrow, block}

-- Whether the block before the switch is genesis or one of Frontier's.
pub record IsSwitch (built : ℕ → Bool) (best found : ℕ) : Type 0 where
  pub positive : 1 ≤ found
  pub reached : found ≤ best
  pub not_frontier : built found ≡ false
  pub frontier_before : (found ≡ 1) ⊎ (built (found - 1) ≡ true)

abbrev StartsOld : (ℕ → Bool) → ℕ → Type 0
StartsOld built frontier = (frontier ≡ 0) ⊎ (built frontier ≡ true)

narrow-IsSwitch :
    (built : ℕ → Bool) (fuel frontier revive : ℕ)
    → frontier < revive
    → revive - frontier ≤ fuel
    → built revive ≡ false
    → StartsOld built frontier
    → IsSwitch built revive (narrow built fuel frontier revive)
unfolding narrow
narrow-IsSwitch built zero frontier revive a b c d = ground (arith, a, b)
narrow-IsSwitch built (suc fuel) frontier revive a b c d =
    wide (λ f r. narrow-IsSwitch built fuel f r) (ltb 1 (revive - frontier)) refl
  where
    halved :
        ((f r : ℕ)
          → f < r
          → r - f ≤ fuel
          → built r ≡ false
          → StartsOld built f
          → IsSwitch built r (narrow built fuel f r))
        → (old : Bool) → built (frontier + (revive - frontier) / 2) ≡ old
        → 1 < revive - frontier
        → IsSwitch built revive (elim old as (λ b. ℕ) [
          | true ↦ narrow built fuel (frontier + (revive - frontier) / 2) revive
          | false ↦ narrow built fuel frontier (frontier + (revive - frontier) / 2)
        ])
    halved ih true e p =
        ih (frontier + (revive - frontier) / 2) revive (omega (arith, a, p)) (omega (arith, b, p)) c
          (inr e)
    halved ih false e p =
        let middle = frontier + (revive - frontier) / 2 in
        let found = ih frontier middle (omega (arith, a, p)) (omega (arith, b, p)) e d in
        record {
          positive = found.positive;
          reached = omega (arith, found.reached, p);
          not_frontier = found.not_frontier;
          frontier_before = found.frontier_before;
        }

    one_apart :
        frontier + 1 ≡ revive
        → StartsOld built frontier
        → (revive ≡ 1) ⊎ (built (revive - 1) ≡ true)
    one_apart e (inl z) = inl (omega (arith, e, z))
    one_apart e (inr o) = inr (ap built (omega (arith, e)) ∙ o)

    wide :
        ((f r : ℕ)
          → f < r
          → r - f ≤ fuel
          → built r ≡ false
          → StartsOld built f
          → IsSwitch built r (narrow built fuel f r))
        → (more : Bool) → ltb 1 (revive - frontier) ≡ more
        → IsSwitch built revive (elim more as (λ b. ℕ) [
          | true ↦ elim (built (frontier + (revive - frontier) / 2)) as (λ b. ℕ) [
            | true ↦ narrow built fuel (frontier + (revive - frontier) / 2) revive
            | false ↦ narrow built fuel frontier (frontier + (revive - frontier) / 2)
          ]
          | false ↦ revive
        ])
    wide ih true e = halved ih (built (frontier + (revive - frontier) / 2)) refl (ground (arith, e))
    wide ih false e = record {
      positive = omega (arith, a);
      reached = omega arith;
      not_frontier = c;
      frontier_before = one_apart (ground (arith, a, e)) d;
    }

-- When the switch is looked for and nothing was found before, either the best block is genesis or one of
-- Frontier's and there is none yet, or the search gives a block up to the best one that pallet-revive built,
-- right after genesis or after a block of Frontier's.
pub block-IsSwitch :
    (client : Client)
    → ((block client none ≡ none)
        × ((client.best_number ≡ 0) ⊎ (built_by_frontier client client.best_number ≡ true)))
      ⊎ ((found : ℕ) × (block client none ≡ some found)
          × IsSwitch (built_by_frontier client) client.best_number found)
unfolding block
block-IsSwitch client =
    split (client.best_number == 0) (built_by_frontier client client.best_number) refl refl
  where
    split :
        (genesis old : Bool)
        → (client.best_number == 0) ≡ genesis
        → built_by_frontier client client.best_number ≡ old
        → (((if genesis || old
                then none
                else some
                    (narrow (built_by_frontier client) client.best_number 0 client.best_number))
              ≡ none)
            × ((client.best_number ≡ 0) ⊎ (built_by_frontier client client.best_number ≡ true)))
          ⊎ ((found : ℕ) × ((if genesis || old
                  then none
                  else some
                      (narrow (built_by_frontier client) client.best_number 0 client.best_number))
                ≡ some found)
              × IsSwitch (built_by_frontier client) client.best_number found)
    split true old e f = inl (refl, inl (ground (arith, e)))
    split false true e f = inl (refl, inr f)
    split false false e f = inr (
      narrow (built_by_frontier client) client.best_number 0 client.best_number,
      refl,
      narrow-IsSwitch (built_by_frontier client) client.best_number 0 client.best_number
          (ground (arith, e)) (omega arith) f (inl refl),
    )

-- Where Frontier built the blocks up to some number and none after it, the switch that the search gives is
-- the first block of pallet-revive: below it every block but genesis is Frontier's, from it on none is.
pub block-first :
    (client : Client) (found n : ℕ)
    → ((a b : ℕ)
        → 1 ≤ a
        → a ≤ b
        → built_by_frontier client b ≡ true
        → built_by_frontier client a ≡ true)
    → block client none ≡ some found
    → 1 ≤ n
    → built_by_frontier client n ≡ ltb n found
block-first client found n prefix h p = from (block-IsSwitch client)
  where
    some_injective : {a b : ℕ} → some a ≡ some b → a ≡ b
    some_injective e = cc

    none_some : {A : Type 0} {a : ℕ} → none ≡ some a → A
    none_some e = cc

    true_false : {A : Type 0} → true ≡ false → A
    true_false e = cc

    below :
        IsSwitch (built_by_frontier client) client.best_number found
        → n < found
        → built_by_frontier client n ≡ true
    below sw q = before sw.frontier_before
      where
        before :
            (found ≡ 1) ⊎ (built_by_frontier client (found - 1) ≡ true)
            → built_by_frontier client n ≡ true
        before (inl one) = true_false (ground (arith, one, p, q))
        before (inr old) = prefix n (found - 1) p (omega (arith, q)) old

    from_found :
        (old : Bool)
        → built_by_frontier client n ≡ old
        → IsSwitch (built_by_frontier client) client.best_number found
        → old ≡ ltb n found
    from_found true e sw =
        ground (arith, λ (q : found ≤ n). sym (prefix found n sw.positive q e) ∙ sw.not_frontier)
    from_found false e sw = ground (arith, λ (q : n < found). sym (below sw q) ∙ e)

    from :
        ((block client none ≡ none)
            × ((client.best_number ≡ 0) ⊎ (built_by_frontier client client.best_number ≡ true)))
          ⊎ ((x : ℕ) × (block client none ≡ some x)
              × IsSwitch (built_by_frontier client) client.best_number x)
        → built_by_frontier client n ≡ ltb n found
    from (inl (nothing, why)) = none_some (sym nothing ∙ h)
    from (inr (x, gave, sw)) = from_found (built_by_frontier client n) refl (
        subst (IsSwitch (built_by_frontier client) client.best_number)
          (some_injective (sym gave ∙ h)) sw)
