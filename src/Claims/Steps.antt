-- ===== src/Claims/Steps.antt =====
-- runtime/src/check_nonce.rs: a run of the chain as steps, each of which signs, carries a nonce over, drops an
-- old account or does anything else, with the reaping of accounts that are left without providers.
use numen.Prelude.{
  ℕ, min, ◌+◌, ◌-◌, ◌≤◌, ◌<◌, ◌≡◌, ◌≢◌, ◌⊎◌, some, List, [], ◌∷◌, ◌==◌, if◌then◌else◌,
}
use numen.Host.Ops.{Host, ok}
use numen.Claims.Accounts.{revive_account}
use numen.Claims.Defs.{Config, carry_nonce, drop_empty, legacy_of}
use numen.Claims.Signing.{Signed, Inner, check_nonce}

-- The documented check of frame_system. The validation refuses a nonce that the account has passed; the
-- preparation, which takes the answer of a validation on the same ledger, refuses one that the account has not
-- reached, and lets the nonce grow by one.
pub record InnerLaws {Ledger : Type 0} (host : Host Ledger) (inner : Inner Ledger) : Type 0 where
  pub not_stale :
      (l : Ledger) (tx : Signed) (val : ℕ)
      → inner.validate l (some tx) ≡ ok val
      → host.nonce l tx.signer ≤ tx.nonce
  pub not_future :
      (l t : Ledger) (tx : Signed) (val : ℕ)
      → inner.validate l (some tx) ≡ ok val
      → inner.prepare l (some tx) val ≡ ok t
      → tx.nonce ≤ host.nonce l tx.signer
  pub counted :
      (l t : Ledger) (tx : Signed) (val a : ℕ)
      → inner.validate l (some tx) ≡ ok val
      → inner.prepare l (some tx) val ≡ ok t
      → host.nonce t a ≡ (if a == tx.signer then host.nonce l a + 1 else host.nonce l a)
  pub providers_kept :
      (l t : Ledger) (tx : Signed) (val a : ℕ)
      → inner.validate l (some tx) ≡ ok val
      → inner.prepare l (some tx) val ≡ ok t
      → host.providers t a ≡ host.providers l a

-- The ledger, the providers that the check has given to each account, and the signer and nonce of each
-- transaction that passed it.
pub record Chain (Ledger : Type 0) : Type 0 where
  pub ledger : Ledger
  pub given : ℕ → ℕ
  pub executed : List (ℕ × ℕ)

module _ {Ledger : Type 0} (host : Host Ledger) (cfg : Config Ledger) (inner : Inner Ledger) where
  abbrev pub given_by : Chain Ledger → Ledger → ℕ → ℕ
  given_by c t a = c.given a + (host.providers t a - host.providers c.ledger a)

  abbrev pub carried : Ledger → ℕ → Ledger
  carried l address = (carry_nonce host l (legacy_of host cfg address) (revive_account address)).0

  abbrev pub dropped : Ledger → ℕ → Ledger
  dropped l address = drop_empty host l (legacy_of host cfg address)

  -- What is left of the providers given.
  abbrev pub left_by : Chain Ledger → Ledger → ℕ → ℕ
  left_by c t a = min (c.given a) (host.providers t a)

  -- A signed transaction passes the check; a claim carries a nonce over; it drops the old account with all
  -- its providers, where that is empty; or anything else happens, in which nobody takes a provider
  -- that the check gave, and an account keeps its nonce unless it is left without providers and
  -- reaped. A whole claim is a carried nonce, a move of funds, a drop and the payment of the fee.
  pub data Step (c : Chain Ledger) : Chain Ledger → Type 0 where
    signing :
        (tx : Signed) {t : Ledger}
        → check_nonce host cfg inner c.ledger (some tx) ≡ ok t
        → Step c (record {
          ledger = t;
          given = given_by c t;
          executed = (tx.signer, tx.nonce) ∷ c.executed;
        })
    carrying :
        (address : ℕ)
        → Step c (record c {
          ledger = carried c.ledger address;
          given = given_by c (carried c.ledger address);
        })
    dropping :
        (address : ℕ)
        → Step c (record c {
          ledger = dropped c.ledger address;
          given = left_by c (dropped c.ledger address);
        })
    elsewhere :
        (t : Ledger)
        → ((a : ℕ) → c.given a ≤ host.providers t a)
        → ((a : ℕ)
            → (host.nonce t a ≡ host.nonce c.ledger a)
              ⊎ ((host.providers t a ≡ 0) × (host.nonce t a ≡ 0)))
        → Step c (record c { ledger = t })

  pub data Reach (c : Chain Ledger) : Chain Ledger → Type 0 where
    here : Reach c c
    next : {d e : Chain Ledger} → Reach c d → Step d e → Reach c e

  -- Nobody holds a key of an old account, whose bytes are a hash: it signed none of the transactions.
  abbrev pub HaveKeys : List (ℕ × ℕ) → Type 0
  HaveKeys [] = Unit {0}
  HaveKeys ((who, n) ∷ rest) = ((address : ℕ) → who ≢ legacy_of host cfg address) × HaveKeys rest

-- Every transaction in the list is spent: its nonce lies below its signer's.
abbrev pub AreSpent : (ℕ → ℕ) → List (ℕ × ℕ) → Type 0
AreSpent nonce [] = Unit {0}
AreSpent nonce ((who, n) ∷ rest) = (n < nonce who) × AreSpent nonce rest

abbrev pub IsNew : ℕ → ℕ → List (ℕ × ℕ) → Type 0
IsNew who n [] = Unit {0}
IsNew who n ((other, m) ∷ rest) = (who ≡ other → n ≢ m) × IsNew who n rest

-- No transaction occurs twice.
abbrev pub RunOnce : List (ℕ × ℕ) → Type 0
RunOnce [] = Unit {0}
RunOnce ((who, n) ∷ rest) = IsNew who n rest × RunOnce rest

-- An account with a nonce has a provider that the check gave, those providers are there, and what has
-- run is spent.
pub record IsKept {Ledger : Type 0} (host : Host Ledger) (c : Chain Ledger) : Type 0 where
  pub pinned : (a : ℕ) → 1 ≤ host.nonce c.ledger a → 1 ≤ c.given a
  pub backed : (a : ℕ) → c.given a ≤ host.providers c.ledger a
  pub spent : AreSpent (host.nonce c.ledger) c.executed
