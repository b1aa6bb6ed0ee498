-- ===== src/Reward/Emission.antt =====
-- pallets/reward/src/lib.rs: the reward in closed form, and the cap on all rewards ever paid.
use native.Mathlib.Numerals.{add-one}
use native.Mathlib.Nat.{
  add-zero, pow-suc, pow-succ', div-div-eq-div-mul, add-mul-div_right, div-add-mod, mod-lt,
  mul-le-mul, le_refl, div-eq_of_lt, sub-zero,
}
use numen.Prelude.{
  ℕ, zero, suc, ◌+◌, ◌-◌, ◌*◌, ◌/◌, ◌%◌, ◌^◌, ◌≤◌, ◌<◌, ◌≡◌, refl, arith, ap, sym, ◌∙◌, List, [],
  ◌∷◌, Option, none, some, length,
}
use numen.Reward.Defs.{halve, Config, block_reward, Currency, on_finalize, finalize_all}

halve-zero : (h : ℕ) → halve h 0 ≡ 0
unfolding halve
halve-zero zero = refl
halve-zero (suc h) = refl

halve-suc : (h r : ℕ) → halve (suc h) r ≡ halve h (r / 2)
unfolding halve
halve-suc h r = ground (arith, halve-zero h)

halve_closed : (h r : ℕ) → halve h r ≡ r / 2 ^ h
halve_closed zero r = unfold halve in omega arith
halve_closed (suc h) r =
    halve-suc h r
    ∙ halve_closed h (r / 2)
    ∙ div-div-eq-div-mul r 2 (2 ^ h)
    ∙ ap (λ t. r / t) (sym (pow-succ' 2 h))

next_epoch : (i x y e cap : ℕ) → 2 * y ≤ x → e + (2 * i - i) * x ≤ cap → e + 2 * i * y ≤ cap
next_epoch i x y e cap h k =
    let rest : 2 * i - i ≡ i = omega arith in omega (arith, rw rest at k, mul-le-mul (le_refl i) h)

one_block :
    (i t e r x cap : ℕ)
    → t < i
    → r ≡ x
    → e + (2 * i - t) * x ≤ cap
    → e + r + (2 * i - suc t) * x ≤ cap
one_block i t e r x cap h same k =
    let less : 2 * i - t ≡ 2 * i - suc t + 1 = omega arith in
    one_block_less (2 * i - suc t) (rw less at k)
  where
    one_block_less : (d : ℕ) → e + (d + 1) * x ≤ cap → e + r + d * x ≤ cap
    one_block_less d k = omega arith

module _ (cfg : Config) where
  -- The reward at a height is the initial reward divided by two to the number of halving intervals
  -- that have passed.
  pub block_reward_closed :
      (n : ℕ) → block_reward cfg n ≡ cfg.initial_reward / 2 ^ (n / cfg.halving_interval)
  unfolding block_reward
  block_reward_closed n = halve_closed (n / cfg.halving_interval) cfg.initial_reward

  epoch : ℕ → ℕ
  epoch q = cfg.initial_reward / 2 ^ q

  epoch-zero : epoch 0 ≡ cfg.initial_reward
  unfolding epoch
  epoch-zero = omega arith

  epoch-suc : (q : ℕ) → 2 * epoch (suc q) ≤ epoch q
  unfolding epoch
  epoch-suc q =
      let half : epoch (suc q) ≡ epoch q / 2 =
        ap (λ t. cfg.initial_reward / t) (pow-suc 2 q)
        ∙ sym (div-div-eq-div-mul cfg.initial_reward (2 ^ q) 2) in
      omega (arith, half)

  -- All rewards of the blocks below a height.
  pub emitted : ℕ → ℕ
  emitted zero = 0
  emitted (suc n) = emitted n + block_reward cfg n

  module _ (p : 0 < cfg.halving_interval) where
    reward_in_epoch :
        (q t : ℕ)
        → t < cfg.halving_interval
        → block_reward cfg (t + q * cfg.halving_interval) ≡ epoch q
    unfolding epoch
    reward_in_epoch q t h =
        block_reward_closed (t + q * cfg.halving_interval)
        ∙ ap (λ k. cfg.initial_reward / 2 ^ k)
            (add-mul-div_right t q p ∙ omega (arith, div-eq_of_lt h))

    -- What is paid, and what the present epoch and all later ones may still pay, stays below the cap.
    emitted_bound :
        (q t m : ℕ)
        → m ≡ t + q * cfg.halving_interval
        → t ≤ cfg.halving_interval
        → emitted m + (2 * cfg.halving_interval - t) * epoch q
          ≤ 2 * cfg.halving_interval * cfg.initial_reward
    unfolding emitted block_reward
    emitted_bound zero zero m e h =
        let none_yet : m ≡ 0 = omega arith in
        rw (none_yet, sub-zero (2 * cfg.halving_interval), epoch-zero) (omega arith)
    emitted_bound (suc q) zero m e h = rw (sub-zero (2 * cfg.halving_interval)) (
        next_epoch cfg.halving_interval (epoch q) (epoch (suc q)) (emitted m) _ (epoch-suc q)
          (emitted_bound q cfg.halving_interval m (omega arith) (le_refl cfg.halving_interval)))
    emitted_bound q (suc t) m e h =
        let m' = t + q * cfg.halving_interval in
        let later : m ≡ suc m' = omega arith in
        rw later (
          one_block cfg.halving_interval t (emitted m') (block_reward cfg m') (epoch q) _ h
            (reward_in_epoch q t h) (emitted_bound q t m' refl (omega arith)))

    -- However long the chain runs, the rewards of its blocks add up to at most twice the initial reward
    -- times the halving interval.
    pub emitted-le : (m : ℕ) → emitted m ≤ 2 * cfg.halving_interval * cfg.initial_reward
    emitted-le m =
        let i = cfg.halving_interval in
        omega (
          arith,
          emitted_bound (m / i) (m % i) m (omega (arith, div-add-mod m i))
              (omega (arith, mod-lt m p)),
        )

module _ {Ledger : Type 0} ⦃cur : Currency Ledger⦄ (cfg : Config) where
  issued-on_finalize :
      (l : Ledger) (n : ℕ) (author : Option ℕ)
      → cur.total_issuance (on_finalize cfg l n author) ≤ cur.total_issuance l + block_reward cfg n
  unfolding on_finalize
  issued-on_finalize l n none = omega arith
  issued-on_finalize l n (some author) =
      ground (arith, cur.issued-deposit_creating l author (block_reward cfg n))

  issued-finalize_all :
      (authors : List (Option ℕ)) (l : Ledger) (n : ℕ)
      → cur.total_issuance (finalize_all cfg l n authors) + emitted cfg n
        ≤ cur.total_issuance l + emitted cfg (n + length authors)
  unfolding finalize_all
  issued-finalize_all [] l n = rw (add-zero n) (omega arith)
  issued-finalize_all (author ∷ rest) l n = omega (
    arith,
    issued-finalize_all rest (on_finalize cfg l n author) (n + 1),
    issued-on_finalize l n author,
    emitted_next n,
    ap (emitted cfg) {x = n + 1 + length rest} {y = n + length (author ∷ rest)} (omega arith),
  )
    where
      emitted_next : (n : ℕ) → emitted cfg (n + 1) ≡ emitted cfg n + block_reward cfg n
      emitted_next n = rw (add-one n) (unfold emitted in refl)

  -- Over any run of blocks with any authors, if the halving interval is not 0, the issuance of the
  -- currency grows through rewards by at most twice the initial reward times the halving interval.
  pub issuance_cap :
      (l : Ledger) (n : ℕ) (authors : List (Option ℕ))
      → 0 < cfg.halving_interval
      → cur.total_issuance (finalize_all cfg l n authors)
        ≤ cur.total_issuance l + 2 * cfg.halving_interval * cfg.initial_reward
  issuance_cap l n authors p =
      omega (arith, issued-finalize_all authors l n, emitted-le cfg p (n + length authors))
