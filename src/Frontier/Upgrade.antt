-- ===== src/Frontier/Upgrade.antt =====
-- runtime/src/migrations/frontier.rs: the last steps and the whole upgrade.
use numen.Prelude.{ℕ, ◌+◌, Bool, true, false, not, ◌&&◌, List, [], ◌∷◌, if◌then◌else◌, length}
use numen.Host.Ops.{Host, Dispatched, ok, failed}
use numen.Claims.Defs.{Config}
use numen.Frontier.State.{State, Revive, Tally, read, write, layered, known_addresses}
use numen.Frontier.Ops.{
  copy_block_hashes, pin_signers, open_pallet_account, move_contract, deploy_token_proxy,
  move_account, with_ledger,
}

abbrev pub is_empty {ℓ} : {A : Type ℓ} → List A → Bool
is_empty [] = true
is_empty (a ∷ rest) = false

module _ {Ledger Info : Type 0} (host : Host Ledger) (revive : Revive Ledger Info)
    (cfg : Config Ledger) where
  unfoldable pub move_contracts : List (ℕ × List ℕ) → State Ledger → Tally → State Ledger × Tally
  unfolding move_contract
  move_contracts [] s tally = (s, tally)
  move_contracts ((address, code) ∷ rest) s tally =
      let moved = layered s (move_contract host revive cfg s address code tally) in
      move_contracts rest moved.0 moved.1

  unfoldable pub move_accounts : List ℕ → State Ledger → Tally → State Ledger × Tally
  unfolding move_account
  move_accounts [] s tally = (s, tally)
  move_accounts (address ∷ rest) s tally =
      let moved = layered s (move_account host revive cfg s address tally) in
      move_accounts rest moved.0 moved.1

  abbrev unmapped : Ledger → List ℕ → List ℕ
  unmapped l [] = []
  unmapped l (who ∷ rest) =
      let others = unmapped l rest in
      if not (revive.is_eth_derived l who) && not (revive.is_mapped l who)
      then who ∷ others
      else others

  abbrev mapped_or : Ledger → Dispatched Ledger → Ledger
  mapped_or l (failed reason) = l
  mapped_or l (ok mapped) = mapped

  abbrev map_all : Ledger → List ℕ → Ledger
  map_all l [] = l
  map_all l (who ∷ rest) = map_all (mapped_or l (revive.map_no_deposit_unchecked l who)) rest

  unfoldable pub map_accounts : State Ledger → Tally → State Ledger × Tally
  map_accounts s tally =
      let l = s.claims.ledger in
      let found = unmapped l (revive.accounts l) in
      (
        with_ledger host revive cfg s (map_all l found),
        write (read tally (length found)) (length found),
      )

  -- `Ethereum` and `BaseFee` go, and `EVM` goes once no contract is left in it.
  unfoldable pub clear_evm : State Ledger → Tally → State Ledger × Tally
  clear_evm s tally =
      if is_empty s.codes
      then (
        record s { metadata = []; slots = []; evm_keys = 0 },
        write tally (length s.metadata + length s.slots + s.evm_keys),
      )
      else (s, tally)

  unfoldable pub clear_frontier : State Ledger → Tally → State Ledger × Tally
  unfolding clear_evm
  clear_frontier s tally =
      let tally = write tally (length s.block_hashes + s.ethereum_keys) in
      let tally = read (write tally s.base_fee_keys) 1 in
      let cleared =
        clear_evm (record s { block_hashes = []; ethereum_keys = 0; base_fee_keys = 0 }) tally in
      (record cleared.0 { schema = false }, write cleared.1 1)

  -- The upgrade past the test of the schema, up to the deployment of the proxy.
  unfoldable pub move_state : List ℕ → State Ledger → State Ledger × Tally
  unfolding copy_block_hashes pin_signers open_pallet_account move_contracts deploy_token_proxy
  move_state proxy_code s =
      let copied = copy_block_hashes host revive cfg s (record { reads = 0; writes = 0 }) in
      let pinned = pin_signers host revive cfg copied.0 copied.1 in
      let opened = open_pallet_account host revive cfg pinned.0 pinned.1 in
      let contracts = opened.0.codes in
      let moved = move_contracts contracts opened.0 (read opened.1 (length contracts)) in
      layered moved.0 (deploy_token_proxy host revive cfg proxy_code moved.0 moved.1)

  unfoldable pub on_runtime_upgrade : List ℕ → State Ledger → State Ledger × Tally
  on_runtime_upgrade proxy_code s =
      if not s.schema
      then (s, record { reads = 1; writes = 0 })
      else (let deployed = move_state proxy_code s in
          let moved = move_accounts known_addresses deployed.0 deployed.1 in
          let mapped = map_accounts moved.0 moved.1 in clear_frontier mapped.0 mapped.1)
