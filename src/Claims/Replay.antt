-- ===== src/Claims/Replay.antt =====
-- runtime/src/check_nonce.rs: no signed transaction runs twice, also where accounts are drained and
-- reaped between transactions.
use numen.Prelude.{ℕ, ◌+◌, ◌≤◌, ◌≡◌, ◌⊎◌, some, List, [], ◌∷◌, arith}
use numen.Host.Ops.{Host, ok}
use numen.Host.Laws.{NonceLaws}
use numen.Claims.Accounts.{revive_account}
use numen.Claims.Defs.{Config, drop_empty, legacy_of}
use numen.Claims.Signing.{Signed, Inner, check_nonce}
use numen.Claims.Steps.{
  InnerLaws, Chain, given_by, carried, dropped, left_by, HaveKeys, Step, signing, carrying,
  dropping, elsewhere, Reach, here, next, AreSpent, IsNew, RunOnce, IsKept,
}
use numen.Claims.Checked.{check_nonce-effect}
use numen.Claims.Lifted.{
  nonce-carry_nonce, providers-carry_nonce, nonce-lift_nonce, nonce-lift_nonce_revive,
}

AreSpent_mono :
    (f g : ℕ → ℕ) (txs : List (ℕ × ℕ)) → ((a : ℕ) → f a ≤ g a) → AreSpent f txs → AreSpent g txs
AreSpent_mono f g [] h s = tt
AreSpent_mono f g ((who, n) ∷ rest) h s = (omega (arith, h who), AreSpent_mono f g rest h s.1)

AreSpent-IsNew :
    (f : ℕ → ℕ) (who n : ℕ) (txs : List (ℕ × ℕ)) → f who ≤ n → AreSpent f txs → IsNew who n txs
AreSpent-IsNew f who n [] h s = tt
AreSpent-IsNew f who n ((other, m) ∷ rest) h s =
    (λ e q. ground (arith, e, q), AreSpent-IsNew f who n rest h s.1)

module _ {Ledger : Type 0} (host : Host Ledger) (laws : NonceLaws host) (cfg : Config Ledger)
    (inner : Inner Ledger) (checked : InnerLaws host inner) where
  signing-IsKept :
      (c : Chain Ledger) (tx : Signed) {t : Ledger}
      → check_nonce host cfg inner c.ledger (some tx) ≡ ok t
      → IsKept host c
      → IsKept host (record {
        ledger = t;
        given = given_by host cfg inner c t;
        executed = (tx.signer, tx.nonce) ∷ c.executed;
      })
        × IsNew tx.signer tx.nonce c.executed
  signing-IsKept c tx {t} h k =
      let (exact, nonces, providers) =
        check_nonce-effect host laws cfg inner checked c.ledger t tx h in
      let grows : (a : ℕ) → host.nonce c.ledger a ≤ host.nonce t a =
        λ a. ground (arith, nonces a, nonce-lift_nonce host laws cfg c.ledger tx.signer a) in
      (
        record {
          pinned = λ a n. ground (
            arith,
            nonces a,
            providers a,
            k.pinned a,
            nonce-lift_nonce host laws cfg c.ledger tx.signer a,
          );
          backed = λ a. ground (arith, k.backed a, providers a);
          spent = (
            ground (arith, nonces tx.signer),
            AreSpent_mono (host.nonce c.ledger) (host.nonce t) c.executed grows k.spent,
          );
        },
        AreSpent-IsNew (host.nonce c.ledger) tx.signer tx.nonce c.executed
            (omega (arith, exact, nonce-lift_nonce host laws cfg c.ledger tx.signer tx.signer))
            k.spent,
      )

  carrying-IsKept :
      (c : Chain Ledger) (address : ℕ)
      → IsKept host c
      → IsKept host (record c {
        ledger = carried host cfg inner c.ledger address;
        given = given_by host cfg inner c (carried host cfg inner c.ledger address);
      })
  carrying-IsKept c address k =
      let legacy = legacy_of host cfg address in
      let account = revive_account address in
      let nonces = nonce-carry_nonce host laws c.ledger legacy account in
      let providers = providers-carry_nonce host laws c.ledger legacy account in
      record {
        pinned = λ a n. ground (arith, nonces a, providers a, k.pinned a);
        backed = λ a. ground (arith, providers a, k.backed a);
        spent =
            AreSpent_mono (host.nonce c.ledger) _ c.executed (λ a. ground (arith, nonces a))
              k.spent;
      }

  drop_empty-effect :
      (l : Ledger) (who a : ℕ)
      → let t = drop_empty host l who in
        ((host.nonce t a ≡ host.nonce l a) × (host.providers t a ≡ host.providers l a))
        ⊎ ((a ≡ who) × (host.nonce t a ≡ 0))
  unfolding drop_empty
  drop_empty-effect l who a =
      ground (arith, laws.nonce-remove_account l who a, laws.providers-remove_account l who a)

  AreSpent-dropped :
      (c : Chain Ledger) (address : ℕ) (txs : List (ℕ × ℕ))
      → HaveKeys host cfg inner txs
      → AreSpent (host.nonce c.ledger) txs
      → AreSpent (host.nonce (dropped host cfg inner c.ledger address)) txs
  AreSpent-dropped c address [] keys s = tt
  AreSpent-dropped c address ((who, n) ∷ rest) keys s =
      let other = keys.0 address in
      (
        ground (arith, s.0, other, drop_empty-effect c.ledger (legacy_of host cfg address) who),
        AreSpent-dropped c address rest keys.1 s.1,
      )

  dropping-IsKept :
      (c : Chain Ledger) (address : ℕ)
      → HaveKeys host cfg inner c.executed
      → IsKept host c
      → IsKept host (record c {
        ledger = dropped host cfg inner c.ledger address;
        given = left_by host cfg inner c (dropped host cfg inner c.ledger address);
      })
  dropping-IsKept c address keys k =
      let effect = drop_empty-effect c.ledger (legacy_of host cfg address) in
      record {
        pinned = λ a n. ground (arith, n, effect a, k.pinned a, k.backed a);
        backed = λ a. omega arith;
        spent = AreSpent-dropped c address c.executed keys k.spent;
      }

  elsewhere-IsKept :
      (c : Chain Ledger) (t : Ledger)
      → ((a : ℕ) → c.given a ≤ host.providers t a)
      → ((a : ℕ)
          → (host.nonce t a ≡ host.nonce c.ledger a)
            ⊎ ((host.providers t a ≡ 0) × (host.nonce t a ≡ 0)))
      → IsKept host c
      → IsKept host (record c { ledger = t })
  elsewhere-IsKept c t held reaped k = record {
    pinned = λ a n. ground (arith, held a, reaped a, k.pinned a);
    backed = held;
    spent =
        AreSpent_mono (host.nonce c.ledger) (host.nonce t) c.executed
          (λ a. ground (arith, held a, reaped a, k.pinned a)) k.spent;
  }

  Step-HaveKeys :
      (c d : Chain Ledger)
      → Step host cfg inner c d
      → HaveKeys host cfg inner d.executed
      → HaveKeys host cfg inner c.executed
  Step-HaveKeys c d (signing tx h) keys = keys.1
  Step-HaveKeys c d (carrying address) keys = keys
  Step-HaveKeys c d (dropping address) keys = keys
  Step-HaveKeys c d (elsewhere t held reaped) keys = keys

  Step-IsKept :
      (c d : Chain Ledger)
      → Step host cfg inner c d
      → HaveKeys host cfg inner c.executed
      → IsKept host c × RunOnce c.executed
      → IsKept host d × RunOnce d.executed
  Step-IsKept c d (signing tx h) keys (k, once) =
      let (k', new) = signing-IsKept c tx h k in (k', (new, once))
  Step-IsKept c d (carrying address) keys (k, once) = (carrying-IsKept c address k, once)
  Step-IsKept c d (dropping address) keys (k, once) = (dropping-IsKept c address keys k, once)
  Step-IsKept c d (elsewhere t held reaped) keys (k, once) =
      (elsewhere-IsKept c t held reaped k, once)

  -- From a state in which each account with a nonce has a provider that the check gave, and in which
  -- nothing has run yet, let transactions, carried nonces, drops of emptied old accounts and other
  -- changes follow in whatever order, where the other changes take no provider that the check gave
  -- and change a nonce only by reaping an account without providers. If no transaction that passed
  -- the check was signed by an old account, then none of them has the signer and the nonce of
  -- another one.
  pub runs_once :
      {c d : Chain Ledger}
      → IsKept host c
      → c.executed ≡ []
      → Reach host cfg inner c d
      → HaveKeys host cfg inner d.executed
      → RunOnce d.executed
  runs_once {c = c} k e r keys = (kept r keys).1
    where
      kept :
          {d : Chain Ledger}
          → Reach host cfg inner c d
          → HaveKeys host cfg inner d.executed
          → IsKept host d × RunOnce d.executed
      kept here keys = (k, rw e tt)
      kept (next r st) keys =
          let before = Step-HaveKeys _ _ st keys in Step-IsKept _ _ st before (kept r before)

  -- Where a signer that pallet-revive derives from an address has the nonce 0, a transaction of it that
  -- passes the check carries at least the nonce that the address reached under Frontier, so none
  -- that Frontier ran passes; the signer's nonce is then one above the transaction's, and the signer
  -- has a provider.
  pub frontier_stays_spent :
      (l t : Ledger) (address n : ℕ)
      → host.nonce l (revive_account address) ≡ 0
      → check_nonce host cfg inner l (some (record { signer = revive_account address; nonce = n }))
        ≡ ok t
      → (host.nonce l (legacy_of host cfg address) ≤ n)
        × (host.nonce t (revive_account address) ≡ n + 1)
        × (1 ≤ host.providers t (revive_account address))
  frontier_stays_spent l t address n fresh h =
      let account = revive_account address in
      let (exact, nonces, providers) =
        check_nonce-effect host laws cfg inner checked l t (record { signer = account; nonce = n })
          h in
      ground
        (arith, nonces account, providers account, nonce-lift_nonce_revive host laws cfg l address)
