-- ===== src/Reward/Defs.antt =====
-- pallets/reward/src/lib.rs: the reward of a block, and its payout.
use numen.Prelude.{
  ℕ, zero, suc, ◌+◌, ◌/◌, ◌≤◌, Option, none, some, List, [], ◌∷◌, ◌==◌, if◌then◌else◌,
}

-- The `while` loop of `block_reward`, over the halvings left.
unfoldable pub halve : ℕ → ℕ → ℕ
halve zero reward = reward
halve (suc halvings) reward =
    let rest = halve halvings (reward / 2) in if reward == 0 then reward else rest

pub record Config : Type 0 where
  pub initial_reward : ℕ
  pub halving_interval : ℕ

unfoldable pub block_reward : Config → ℕ → ℕ
unfolding halve
block_reward cfg n = halve (n / cfg.halving_interval) cfg.initial_reward

-- The calls of `Currency`, which the pallet balances implements. The issuance of the currency grows
-- by no more than what is deposited: a deposit too small to open an account is dropped.
pub record Currency (Ledger : Type 0) : Type 0 where
  pub deposit_creating : Ledger → ℕ → ℕ → Ledger
  pub total_issuance : Ledger → ℕ
  pub issued-deposit_creating :
      (l : Ledger) (who amount : ℕ)
      → total_issuance (deposit_creating l who amount) ≤ total_issuance l + amount

module _ {Ledger : Type 0} ⦃cur : Currency Ledger⦄ (cfg : Config) where
  -- `author` is what `find_author` reads from the digest of the block.
  unfoldable pub on_finalize : Ledger → ℕ → Option ℕ → Ledger
  unfolding block_reward
  on_finalize l n none = l
  on_finalize l n (some author) =
      let reward = block_reward cfg n in
      if reward == 0 then l else cur.deposit_creating l author reward

  -- A run of blocks from height `n` on, by their authors.
  unfoldable pub finalize_all : Ledger → ℕ → List (Option ℕ) → Ledger
  unfolding on_finalize
  finalize_all l n [] = l
  finalize_all l n (author ∷ rest) = finalize_all (on_finalize l n author) (n + 1) rest
