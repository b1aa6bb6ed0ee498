-- ===== src/Claims/Free.antt =====
-- `movable` of pallets/evm-claims/src/lib.rs, against what can hold an account's balance back.
use numen.Prelude.{
  ℕ, ◌≡◌, refl, ◌∙◌, Bool, true, false, List, [], ◌∷◌, arith, ◌==◌, if◌then◌else◌, leb,
}
use numen.Prelude.Sets.{contains}
use numen.Host.Ops.{Host}
use numen.Host.Laws.{HoldLaws}
use numen.Claims.Defs.{carry_nonce, movable, all_vesting, vesting_id}

-- Whether all of an account's balance can leave it: no reserve and no freeze, and no lock but the vesting
-- pallet's.
pub record IsFree {Ledger : Type 0} (host : Host Ledger) (l : Ledger) (who : ℕ) : Type 0 where
  pub unreserved : host.reserved_balance l who ≡ 0
  pub unfrozen : host.has_freezes l who ≡ false
  pub only_vesting : (id : ℕ) → contains id (host.locks l who) ≡ true → id ≡ vesting_id

all_vesting-contains :
    (locks : List ℕ)
    → all_vesting locks ≡ true
    → (id : ℕ) → contains id locks ≡ true
    → id ≡ vesting_id
unfolding contains
all_vesting-contains [] h id c = cc
all_vesting-contains (lock ∷ rest) h id c =
    let others : all_vesting rest ≡ true = ground (arith, h) in
    ground (arith, all_vesting-contains rest others id, h, c)

contains-all_vesting :
    (locks : List ℕ)
    → ((id : ℕ) → contains id locks ≡ true → id ≡ vesting_id)
    → all_vesting locks ≡ true
unfolding contains
contains-all_vesting [] h = refl
contains-all_vesting (lock ∷ rest) h =
    ground (arith, h lock, contains-all_vesting rest (λ id c. h id (ground (arith, c))))

-- The test of the code, against the predicate.
pub movable-IsFree :
    {Ledger : Type 0} (host : Host Ledger) (l : Ledger) (who : ℕ)
    → movable host l who ≡ true
    → IsFree host l who
unfolding movable
movable-IsFree host l who h =
    let vesting : all_vesting (host.locks l who) ≡ true = ground (arith, h) in
    record {
      unreserved = ground (arith, h);
      unfrozen = ground (arith, h);
      only_vesting = all_vesting-contains (host.locks l who) vesting;
    }

pub IsFree-movable :
    {Ledger : Type 0} (host : Host Ledger) (l : Ledger) (who : ℕ)
    → IsFree host l who
    → movable host l who ≡ true
unfolding movable
IsFree-movable host l who f =
    ground (arith, f.unreserved, f.unfrozen, contains-all_vesting (host.locks l who) f.only_vesting)

module _ {Ledger : Type 0} (host : Host Ledger) where
  -- A carried nonce keeps what neither of its two writes changes.
  kept-carry_nonce :
      {A : Type 0} (read : Ledger → A) (l : Ledger) (legacy account : ℕ)
      → ((u : Ledger) (n : ℕ) → read (host.set_nonce u account n) ≡ read u)
      → read (host.inc_providers l account) ≡ read l
      → read (carry_nonce host l legacy account).0 ≡ read l
  unfolding carry_nonce
  kept-carry_nonce read l legacy account set inc =
      split (leb (host.nonce l legacy) (host.nonce l account)) (host.nonce l account == 0)
    where
      split :
          (enough fresh : Bool)
          → read
              (if◌then◌else◌ {A = Ledger × ℕ} enough
                (l, host.nonce l account)
                (
                  host.set_nonce
                      (if fresh then host.inc_providers l account else l)
                      account
                      (host.nonce l legacy),
                  host.nonce l legacy,
                )).0
            ≡ read l
      split true fresh = refl
      split false true = set (host.inc_providers l account) (host.nonce l legacy) ∙ inc
      split false false = set l (host.nonce l legacy)

  pub movable-carry_nonce :
      HoldLaws host
      → (l : Ledger) (legacy account : ℕ)
      → movable host (carry_nonce host l legacy account).0 legacy ≡ movable host l legacy
  unfolding movable
  movable-carry_nonce holds l legacy account =
      rw
        (
          kept-carry_nonce (λ u. host.reserved_balance u legacy) l legacy account
              (λ u n. holds.reserved-set_nonce u account n legacy)
              (holds.reserved-inc_providers l account legacy),
          kept-carry_nonce (λ u. host.has_freezes u legacy) l legacy account
              (λ u n. holds.freezes-set_nonce u account n legacy)
              (holds.freezes-inc_providers l account legacy),
          kept-carry_nonce (λ u. host.locks u legacy) l legacy account
              (λ u n. holds.locks-set_nonce u account n legacy)
              (holds.locks-inc_providers l account legacy),
        )
        refl
