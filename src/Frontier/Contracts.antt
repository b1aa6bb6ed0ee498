-- ===== src/Frontier/Contracts.antt =====
-- runtime/src/migrations/frontier.rs: what the upgrade leaves of the contracts in Frontier's storage.
use numen.Prelude.{
  ℕ, ◌+◌, ◌≡◌, refl, sym, ap, ◌∙◌, Bool, true, false, not, Option, none, some, List, [], ◌∷◌, arith,
  if◌then◌else◌, length,
}
use numen.Host.Ops.{Host, Dispatched, ok, ok-injective}
use numen.Claims.Defs.{Config, move_legacy, claimable}
use numen.Frontier.State.{State, Slot, Revive, Tally, read, write, ◌>>-◌, layered, known_addresses}
use numen.Frontier.Ops.{
  slots_of, install, with_ledger, copy_hash, copy_hashes, recent_blocks, find_hash,
  copy_block_hashes, pin_signers, open_pallet_account, deploy_token_proxy, move_account,
}
use numen.Frontier.Upgrade.{
  move_contracts, move_accounts, map_accounts, clear_evm, clear_frontier, move_state,
  on_runtime_upgrade, is_empty,
}
use numen.Erc20.Literals.{token_address}
use numen.Frontier.Left.{
  find_code, then_elim, layered_elim, IsLeft, IsLeft-same, IsLeft-trans, move_contracts-IsLeft,
}

module _ {Ledger Info : Type 0} (host : Host Ledger) (revive : Revive Ledger Info)
    (cfg : Config Ledger) where
  -- The contracts in Frontier's storage, which most steps leave alone.
  abbrev contracts_of : State Ledger → List (ℕ × List ℕ) × List Slot
  contracts_of s = (s.codes, s.slots)

  contracts_of-copy_hashes :
      (numbers : List ℕ) (s : State Ledger) (tally : Tally)
      → contracts_of (copy_hashes host revive cfg numbers s tally).0 ≡ contracts_of s
  unfolding copy_hashes
  contracts_of-copy_hashes [] s tally = refl
  contracts_of-copy_hashes (number ∷ rest) s tally =
      let copied =
        copy_hash host revive cfg number s (read tally 1) (find_hash s.block_hashes number) in
      contracts_of-copy_hashes rest copied.0 copied.1 ∙ same (find_hash s.block_hashes number)
    where
      same :
          (found : Option ℕ)
          → contracts_of (copy_hash host revive cfg number s (read tally 1) found).0
            ≡ contracts_of s
      same none = refl
      same (some hash) = refl

  contracts_of-open_pallet_account :
      (s : State Ledger) (tally : Tally)
      → contracts_of (open_pallet_account host revive cfg s tally).0 ≡ contracts_of s
  unfolding open_pallet_account
  contracts_of-open_pallet_account s tally = ground arith

  contracts_of-deploy_token_proxy :
      (code : List ℕ) (s t : State Ledger) (tally : Tally)
      → (deploy_token_proxy host revive cfg code s tally).1 ≡ ok t
      → contracts_of t ≡ contracts_of s
  unfolding deploy_token_proxy
  contracts_of-deploy_token_proxy code s t tally h =
      deployed (revive.is_contract s.claims.ledger token_address) h
    where
      deployed :
          (there : Bool)
          → (if◌then◌else◌ {A = Tally × Dispatched (State Ledger)} there
              (read tally 1, ok s)
              (install host revive cfg s.claims.ledger token_address code [] (read tally 1)
                >>- λ l tally. (tally, ok (with_ledger host revive cfg s l)))).1
            ≡ ok t
          → contracts_of t ≡ contracts_of s
      deployed true h = ap contracts_of (ok-injective (sym h))
      deployed false h =
          then_elim (install host revive cfg s.claims.ledger token_address code [] (read tally 1))
            (λ l tally. (tally, ok (with_ledger host revive cfg s l))) h
            λ l e p. ap contracts_of (ok-injective (sym p))

  contracts_of-move_account :
      (s t : State Ledger) (address : ℕ) (tally : Tally)
      → (move_account host revive cfg s address tally).1 ≡ ok t
      → contracts_of t ≡ contracts_of s
  unfolding move_account
  contracts_of-move_account s t address tally h =
      moved (claimable host cfg s.claims.ledger address) h
    where
      moved :
          (due : Bool)
          → (if◌then◌else◌ {A = Tally × Dispatched (State Ledger)}
              (not due)
              (read tally 4, ok s)
              ((write (read (read tally 4) 10) 10, move_legacy host cfg s.claims address)
                >>- λ claims tally. (tally, ok (record s { claims = claims })))).1
            ≡ ok t
          → contracts_of t ≡ contracts_of s
      moved false h = ap contracts_of (ok-injective (sym h))
      moved true h =
          then_elim (write (read (read tally 4) 10) 10, move_legacy host cfg s.claims address)
            (λ claims tally. (tally, ok (record s { claims = claims }))) h
            λ claims e p. ap contracts_of (ok-injective (sym p))

  contracts_of-move_accounts :
      (addresses : List ℕ) (s : State Ledger) (tally : Tally)
      → contracts_of (move_accounts host revive cfg addresses s tally).0 ≡ contracts_of s
  unfolding move_accounts
  contracts_of-move_accounts [] s tally = refl
  contracts_of-move_accounts (address ∷ rest) s tally =
      let moved = layered s (move_account host revive cfg s address tally) in
      contracts_of-move_accounts rest moved.0 moved.1
      ∙ layered_elim s (move_account host revive cfg s address tally)
          (λ t. contracts_of t ≡ contracts_of s) refl
          (λ t e. contracts_of-move_account s t address tally e)

  IsLeft-equal : (s t : State Ledger) (a : ℕ) → contracts_of t ≡ contracts_of s → IsLeft s t a
  IsLeft-equal s t a e = IsLeft-same s t a (ap (λ p. p.0) e) (ap (λ p. p.1) e)

  contracts_of-map_accounts :
      (s : State Ledger) (tally : Tally)
      → contracts_of (map_accounts host revive cfg s tally).0 ≡ contracts_of s
  unfolding map_accounts
  contracts_of-map_accounts s tally = refl

  move_state-IsLeft :
      (proxy_code : List ℕ) (s : State Ledger) (a : ℕ)
      → IsLeft s (move_state host revive cfg proxy_code s).0 a
  unfolding move_state copy_block_hashes pin_signers
  move_state-IsLeft proxy_code s a =
      let copied = copy_block_hashes host revive cfg s (record { reads = 0; writes = 0 }) in
      let pinned = pin_signers host revive cfg copied.0 copied.1 in
      let opened = open_pallet_account host revive cfg pinned.0 pinned.1 in
      let contracts = opened.0.codes in
      let tally = read opened.1 (length contracts) in
      let moved = move_contracts host revive cfg contracts opened.0 tally in
      let before =
        contracts_of-open_pallet_account pinned.0 pinned.1
        ∙ contracts_of-copy_hashes (recent_blocks (revive.block_number s.claims.ledger)) s
            (record { reads = 0; writes = 0 }) in
      let deployed =
        layered_elim moved.0 (deploy_token_proxy host revive cfg proxy_code moved.0 moved.1)
          (λ t. contracts_of t ≡ contracts_of moved.0) refl
          (λ t e. contracts_of-deploy_token_proxy proxy_code moved.0 t moved.1 e) in
      IsLeft-trans s opened.0 _ a (IsLeft-equal s opened.0 a before) (
        IsLeft-trans opened.0 moved.0 _ a
          (move_contracts-IsLeft host revive cfg contracts opened.0 tally a)
          (IsLeft-equal moved.0 _ a deployed))

  clear_evm-IsLeft :
      (s : State Ledger) (tally : Tally) (a : ℕ) → IsLeft s (clear_evm host revive cfg s tally).0 a
  unfolding clear_evm
  clear_evm-IsLeft s tally a = cleared s.codes refl
    where
      cleared :
          (codes : List (ℕ × List ℕ))
          → s.codes ≡ codes
          → IsLeft s
              (if◌then◌else◌ {A = State Ledger × Tally}
                (is_empty codes)
                (
                  record s { metadata = []; slots = []; evm_keys = 0 },
                  write tally (length s.metadata + length s.slots + s.evm_keys),
                )
                (s, tally)).0
              a
      cleared [] e = record { left = λ code h. absurd (ap (λ c. find_code c a) (sym e) ∙ h) }
        where
          absurd : {P : Type 0} {code : List ℕ} → none ≡ some code → P
          absurd h = cc
      cleared (c ∷ rest) e = IsLeft-same s s a refl refl

  clear_frontier-IsLeft :
      (s : State Ledger) (tally : Tally) (a : ℕ)
      → IsLeft s (clear_frontier host revive cfg s tally).0 a
  unfolding clear_frontier
  clear_frontier-IsLeft s tally a =
      let emptied = record s { block_hashes = []; ethereum_keys = 0; base_fee_keys = 0 } in
      let left =
        clear_evm-IsLeft emptied
          (read (write (write tally (length s.block_hashes + s.ethereum_keys)) s.base_fee_keys) 1)
          a in
      record { left = λ code h. left.left code h }

  upgrade-IsLeft :
      (proxy_code : List ℕ) (s : State Ledger) (a : ℕ)
      → IsLeft s (on_runtime_upgrade host revive cfg proxy_code s).0 a
  unfolding on_runtime_upgrade
  upgrade-IsLeft proxy_code s a = ran s.schema
    where
      ran :
          (due : Bool)
          → IsLeft s
              (if◌then◌else◌ {A = State Ledger × Tally}
                (not due)
                (s, record { reads = 1; writes = 0 })
                (let deployed = move_state host revive cfg proxy_code s in
                  let moved = move_accounts host revive cfg known_addresses deployed.0 deployed.1 in
                  let mapped = map_accounts host revive cfg moved.0 moved.1 in
                  clear_frontier host revive cfg mapped.0 mapped.1)).0
              a
      ran false = IsLeft-same s s a refl refl
      ran true =
          let deployed = move_state host revive cfg proxy_code s in
          let moved = move_accounts host revive cfg known_addresses deployed.0 deployed.1 in
          let mapped = map_accounts host revive cfg moved.0 moved.1 in
          let same =
            contracts_of-map_accounts moved.0 moved.1
            ∙ contracts_of-move_accounts known_addresses deployed.0 deployed.1 in
          IsLeft-trans s deployed.0 _ a (move_state-IsLeft proxy_code s a) (
            IsLeft-trans deployed.0 mapped.0 _ a (IsLeft-equal deployed.0 mapped.0 a same)
              (clear_frontier-IsLeft mapped.0 mapped.1 a))

  -- A contract whose code Frontier's storage still has after the upgrade, since it failed to move, had that
  -- code before, and has all the slots that it had.
  pub upgrade_keeps_failed :
      (proxy_code : List ℕ) (s : State Ledger) (a : ℕ) (code : List ℕ)
      → find_code (on_runtime_upgrade host revive cfg proxy_code s).0.codes a ≡ some code
      → (find_code s.codes a ≡ some code)
        × (slots_of (on_runtime_upgrade host revive cfg proxy_code s).0.slots a
            ≡ slots_of s.slots a)
  upgrade_keeps_failed proxy_code s a code h = (upgrade-IsLeft proxy_code s a).left code h
