-- ===== src/Forward/Switch.antt =====
-- node/src/eth_forward.rs: `Switch`, the first block that pallet-revive built, and the chain that it reads.
use numen.Prelude.{
  ℕ, zero, suc, ◌+◌, ◌-◌, ◌/◌, ◌^◌, Bool, true, false, ◌||◌, Option, none, some, List, [], ◌∷◌, ltb,
  ◌==◌, if◌then◌else◌,
}

-- A digest item, with the engine of a consensus item; "fron" is Frontier's.
pub data DigestItem : Type 0 where
  consensus : ℕ → DigestItem
  other : DigestItem

abbrev pub frontier_engine_id : ℕ
frontier_engine_id = 0x66726f6e

-- The client: the hash of a number and the digest of a hash, where it has them.
pub record Client : Type 0 where
  pub best_number : ℕ
  pub hash : ℕ → Option ℕ
  pub digest : ℕ → Option (List DigestItem)

abbrev has_frontier : List DigestItem → Bool
has_frontier [] = false
has_frontier (consensus engine ∷ rest) = engine == frontier_engine_id || has_frontier rest
has_frontier (other ∷ rest) = has_frontier rest

abbrev digest_has : Option (List DigestItem) → Bool
digest_has none = false
digest_has (some items) = has_frontier items

abbrev block_has : Client → Option ℕ → Bool
block_has client none = false
block_has client (some hash) = digest_has (client.digest hash)

unfoldable pub built_by_frontier : Client → ℕ → Bool
built_by_frontier client number =
    if ltb number (2 ^ 32) then block_has client (client.hash number) else false

-- The `while` loop between a block of Frontier, or genesis, and one of pallet-revive, on fuel.
unfoldable pub narrow : (ℕ → Bool) → ℕ → ℕ → ℕ → ℕ
narrow built zero frontier revive = revive
narrow built (suc fuel) frontier revive = elim (ltb 1 (revive - frontier)) [
  | true ↦ elim (built (frontier + (revive - frontier) / 2)) [
    | true ↦ narrow built fuel (frontier + (revive - frontier) / 2) revive
    | false ↦ narrow built fuel frontier (frontier + (revive - frontier) / 2)
  ]
  | false ↦ revive
]

-- `Switch::block` on what it has found before: its answer, which is what it keeps. The distance to the
-- best block is fuel enough.
unfoldable pub block : Client → Option ℕ → Option ℕ
unfolding built_by_frontier narrow
block client (some found) = some found
block client none =
    if client.best_number == 0 || built_by_frontier client client.best_number
    then none
    else some (narrow (built_by_frontier client) client.best_number 0 client.best_number)
