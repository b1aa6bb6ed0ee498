-- ===== src/Host/Laws.antt =====
-- The documented effects of the operations of FRAME, grouped by what the proofs need.
use numen.Prelude.{ℕ, ◌+◌, ◌-◌, ◌≤◌, ◌≡◌, ◌≢◌, ltb, length, ◌==◌, if◌then◌else◌}
use numen.Host.Ops.{Host, ok, Preservation, Schedule}

-- Writes of a nonce and of a provider touch that field of that account, and a removal that account.
pub record NonceLaws {Ledger : Type 0} (host : Host Ledger) : Type 0 where
  pub nonce-set_nonce :
      (l : Ledger) (who n a : ℕ)
      → host.nonce (host.set_nonce l who n) a ≡ (if a == who then n else host.nonce l a)
  pub nonce-inc_providers :
      (l : Ledger) (who a : ℕ) → host.nonce (host.inc_providers l who) a ≡ host.nonce l a
  pub providers-set_nonce :
      (l : Ledger) (who n a : ℕ) → host.providers (host.set_nonce l who n) a ≡ host.providers l a
  pub providers-inc_providers :
      (l : Ledger) (who a : ℕ)
      → host.providers (host.inc_providers l who) a
        ≡ (if a == who then host.providers l a + 1 else host.providers l a)
  pub nonce-remove_account :
      (l : Ledger) (who a : ℕ)
      → host.nonce (host.remove_account l who) a ≡ (if a == who then 0 else host.nonce l a)
  pub providers-remove_account :
      (l : Ledger) (who a : ℕ)
      → host.providers (host.remove_account l who) a ≡ (if a == who then 0 else host.providers l a)

-- What moves funds, and what leaves them alone. A minted deposit that is deactivated leaves the active
-- issuance as it was.
pub record FundLaws {Ledger : Type 0} (host : Host Ledger) : Type 0 where
  pub balance-set_nonce :
      (l : Ledger) (who n a : ℕ) → host.balance (host.set_nonce l who n) a ≡ host.balance l a
  pub balance-inc_providers :
      (l : Ledger) (who a : ℕ) → host.balance (host.inc_providers l who) a ≡ host.balance l a
  pub balance-transfer :
      (l t : Ledger) (from to amount a : ℕ) (kept : Preservation)
      → host.transfer l from to amount kept ≡ ok t
      → from ≢ to
      → (amount ≤ host.balance l from)
        × (host.balance t a ≡ (
            if a == to
            then host.balance l a + amount
            else if a == from
            then host.balance l a - amount
            else host.balance l a))
  pub balance-mint_into :
      (l t : Ledger) (who amount a : ℕ)
      → host.mint_into l who amount ≡ ok t
      → host.balance t a ≡ (if a == who then host.balance l a + amount else host.balance l a)
  pub balance-deactivate :
      (l : Ledger) (amount a : ℕ) → host.balance (host.deactivate l amount) a ≡ host.balance l a
  pub balance-remove_schedule :
      (l t : Ledger) (who i a : ℕ)
      → host.remove_schedule l who i ≡ ok t
      → host.balance t a ≡ host.balance l a
  pub balance-add_schedule :
      (l t : Ledger) (who : ℕ) (s : Schedule) (a : ℕ)
      → host.add_schedule l who s ≡ ok t
      → host.balance t a ≡ host.balance l a
  pub reducible-balance : (l : Ledger) (who : ℕ) → host.reducible l who ≤ host.balance l who
  pub balance-remove_account :
      (l : Ledger) (who a : ℕ)
      → host.total_balance l who ≡ 0
      → host.balance (host.remove_account l who) a ≡ host.balance l a

-- Writes of a nonce and of a provider leave what is held of a balance alone.
pub record HoldLaws {Ledger : Type 0} (host : Host Ledger) : Type 0 where
  pub reserved-set_nonce :
      (l : Ledger) (who n a : ℕ)
      → host.reserved_balance (host.set_nonce l who n) a ≡ host.reserved_balance l a
  pub reserved-inc_providers :
      (l : Ledger) (who a : ℕ)
      → host.reserved_balance (host.inc_providers l who) a ≡ host.reserved_balance l a
  pub freezes-set_nonce :
      (l : Ledger) (who n a : ℕ)
      → host.has_freezes (host.set_nonce l who n) a ≡ host.has_freezes l a
  pub freezes-inc_providers :
      (l : Ledger) (who a : ℕ)
      → host.has_freezes (host.inc_providers l who) a ≡ host.has_freezes l a
  pub locks-set_nonce :
      (l : Ledger) (who n a : ℕ) → host.locks (host.set_nonce l who n) a ≡ host.locks l a
  pub locks-inc_providers :
      (l : Ledger) (who a : ℕ) → host.locks (host.inc_providers l who) a ≡ host.locks l a

-- A key is in the map of schedules exactly where the list is not empty, and a removal shortens it.
pub record VestingLaws {Ledger : Type 0} (host : Host Ledger) : Type 0 where
  pub has_schedules-length :
      (l : Ledger) (who : ℕ) → host.has_schedules l who ≡ ltb 0 (length (host.schedules l who))
  pub length-remove_schedule :
      (l t : Ledger) (who i : ℕ)
      → host.remove_schedule l who i ≡ ok t
      → length (host.schedules t who) + 1 ≡ length (host.schedules l who)

-- The active issuance: a transfer keeps it, and so does a minted deposit that is deactivated.
pub record IssuanceLaws {Ledger : Type 0} (host : Host Ledger) : Type 0 where
  pub active-transfer :
      (l t : Ledger) (from to amount : ℕ) (kept : Preservation)
      → host.transfer l from to amount kept ≡ ok t
      → host.active_issuance t ≡ host.active_issuance l
  pub active-mint_deactivate :
      (l t : Ledger) (who amount : ℕ)
      → host.mint_into l who amount ≡ ok t
      → host.active_issuance (host.deactivate t amount) ≡ host.active_issuance l
