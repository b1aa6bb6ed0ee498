-- ===== src/Reward/Tests.antt =====
-- pallets/reward/src/lib.rs on small inputs.
use numen.Prelude.{ℕ, ◌+◌, ◌*◌, ◌≤◌, ◌≡◌, refl, arith, List, [], ◌∷◌, Option, none, some}
use numen.Reward.Defs.{Config, Currency, block_reward, finalize_all}
use numen.Reward.Emission.{issuance_cap}

-- A currency that only counts what it issued.
instance abbrev mint : Currency ℕ
mint = record {
  deposit_creating = λ l who amount. l + amount;
  total_issuance = λ l. l;
  issued-deposit_creating = λ l who amount. omega arith;
}

abbrev settings : Config
settings = record { initial_reward = 100; halving_interval = 2 }

abbrev authors : List (Option ℕ)
authors = some 1 ∷ none ∷ some 2 ∷ some 1 ∷ []

-- The issuance 7 after four blocks from height 0 on.
abbrev after : ℕ
after = finalize_all {Ledger = ℕ} settings 7 0 authors

third_epoch : block_reward settings 5 ≡ 25
unfolding block_reward
third_epoch = refl

issuance_cap_example : after ≤ 7 + 2 * 2 * 100
issuance_cap_example = issuance_cap {Ledger = ℕ} settings 7 0 authors (omega arith)

issued : after ≡ 207
unfolding finalize_all
issued = refl
