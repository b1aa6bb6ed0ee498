-- ===== src/Frontier/Once.antt =====
-- runtime/src/migrations/frontier.rs: the upgrade clears Frontier's storage and runs once.
use numen.Prelude.{
  ℕ, ◌+◌, ◌≡◌, ◌≢◌, ◌⊎◌, inl, inr, refl, sym, ap, ◌∙◌, Bool, true, false, not, List, [], ◌∷◌,
  if◌then◌else◌, length,
}
use numen.Host.Ops.{Host}
use numen.Claims.Defs.{Config}
use numen.Frontier.State.{State, Revive, Tally, read, write, known_addresses}
use numen.Frontier.Upgrade.{
  move_state, move_accounts, map_accounts, clear_evm, clear_frontier, on_runtime_upgrade, is_empty,
}

-- Frontier's storage once it is cleared: only `EVM` can be left, and only with a contract in it.
pub record IsCleared {Ledger : Type 0} (t : State Ledger) : Type 0 where
  pub schema_gone : t.schema ≡ false
  pub ethereum_gone : (t.block_hashes ≡ []) × (t.ethereum_keys ≡ 0) × (t.base_fee_keys ≡ 0)
  pub evm_gone : (t.codes ≢ []) ⊎ ((t.slots ≡ []) × (t.metadata ≡ []) × (t.evm_keys ≡ 0))

module _ {Ledger Info : Type 0} (host : Host Ledger) (revive : Revive Ledger Info)
    (cfg : Config Ledger) where
  clear_frontier-IsCleared :
      (s : State Ledger) (tally : Tally) → IsCleared (clear_frontier host revive cfg s tally).0
  unfolding clear_frontier clear_evm
  clear_frontier-IsCleared s tally = cleared s.codes refl
    where
      emptied : State Ledger
      emptied = record s { block_hashes = []; ethereum_keys = 0; base_fee_keys = 0 }

      counted : Tally
      counted =
          read (write (write tally (length s.block_hashes + s.ethereum_keys)) s.base_fee_keys) 1

      cleared :
          (codes : List (ℕ × List ℕ))
          → s.codes ≡ codes
          → IsCleared
              (record (if◌then◌else◌ {A = State Ledger × Tally}
                (is_empty codes)
                (
                  record emptied { metadata = []; slots = []; evm_keys = 0 },
                  write counted (length s.metadata + length s.slots + s.evm_keys),
                )
                (emptied, counted)).0 { schema = false })
      cleared [] e = record {
        schema_gone = refl;
        ethereum_gone = (refl, refl, refl);
        evm_gone = inr (refl, refl, refl);
      }
      cleared (c ∷ rest) e = record {
        schema_gone = refl;
        ethereum_gone = (refl, refl, refl);
        evm_gone = inl (λ none. absurd (sym e ∙ none));
      }
        where
          absurd : {P : Type 0} → c ∷ rest ≡ [] → P
          absurd h = cc

  -- An upgrade that finds Frontier's schema leaves nothing of Frontier's storage but, where a contract
  -- failed to move, that of `EVM`.
  pub upgrade-IsCleared :
      (proxy_code : List ℕ) (s : State Ledger)
      → s.schema ≡ true
      → IsCleared (on_runtime_upgrade host revive cfg proxy_code s).0
  unfolding on_runtime_upgrade
  upgrade-IsCleared proxy_code s h = ran s.schema h
    where
      ran :
          (due : Bool)
          → due ≡ true
          → IsCleared
              (if◌then◌else◌ {A = State Ledger × Tally}
                (not due)
                (s, record { reads = 1; writes = 0 })
                (let deployed = move_state host revive cfg proxy_code s in
                  let moved = move_accounts host revive cfg known_addresses deployed.0 deployed.1 in
                  let mapped = map_accounts host revive cfg moved.0 moved.1 in
                  clear_frontier host revive cfg mapped.0 mapped.1)).0
      ran true h =
          let deployed = move_state host revive cfg proxy_code s in
          let moved = move_accounts host revive cfg known_addresses deployed.0 deployed.1 in
          let mapped = map_accounts host revive cfg moved.0 moved.1 in
          clear_frontier-IsCleared mapped.0 mapped.1
      ran false h = cc

  upgrade_done :
      (proxy_code : List ℕ) (s : State Ledger)
      → s.schema ≡ false
      → on_runtime_upgrade host revive cfg proxy_code s ≡ (s, record { reads = 1; writes = 0 })
  unfolding on_runtime_upgrade
  upgrade_done proxy_code s h = rw (h) refl

  -- The upgrade does its work once: after it, whatever it found, running it again reads the schema and
  -- changes nothing.
  pub upgrade_once :
      (proxy_code : List ℕ) (s : State Ledger)
      → let t = (on_runtime_upgrade host revive cfg proxy_code s).0 in
        on_runtime_upgrade host revive cfg proxy_code t ≡ (t, record { reads = 1; writes = 0 })
  upgrade_once proxy_code s =
      let t = (on_runtime_upgrade host revive cfg proxy_code s).0 in
      upgrade_done proxy_code t (gone s.schema refl)
    where
      gone :
          (due : Bool)
          → s.schema ≡ due
          → (on_runtime_upgrade host revive cfg proxy_code s).0.schema ≡ false
      gone true e = (upgrade-IsCleared proxy_code s e).schema_gone
      gone false e = ap (λ r. r.0.schema) (upgrade_done proxy_code s e) ∙ e
