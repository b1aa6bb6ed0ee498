-- ===== src/Mining/Submit.antt =====
-- consensus/sc-consensus-pow/src/worker.rs: the submission of a seal.
use numen.Prelude.{ℕ, List, [], ◌∷◌}
use numen.Mining.Defs.{MiningBuild}

module _ {Proposal : Type 0} where
  abbrev pub pre_hashes : List (MiningBuild Proposal) → List ℕ
  pre_hashes [] = []
  pre_hashes (b ∷ bs) = b.metadata.pre_hash ∷ pre_hashes bs
