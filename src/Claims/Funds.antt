-- ===== src/Claims/Funds.antt =====
-- pallets/evm-claims/src/lib.rs: where the funds of a claim go.
use numen.Prelude.{
  ℕ, zero, suc, ◌+◌, ◌-◌, ◌≤◌, ◌≡◌, ◌≢◌, refl, ◌∙◌, sym, ap, Bool, true, false, List, [], ◌∷◌,
  arith, ◌==◌, if◌then◌else◌, length, max, ◌⊎◌, inl, inr,
}
use numen.Host.Ops.{Host, Dispatched, ok, ◌>>=◌, bind_elim, ok-injective, Schedule, expendable}
use numen.Host.Laws.{FundLaws, HoldLaws}
use numen.Claims.Accounts.{revive_account}
use numen.Claims.Free.{IsFree, movable-IsFree, IsFree-movable, movable-carry_nonce}
use numen.Claims.Defs.{
  Config, clear_vesting, restore_vesting, open_account, move_funds, move_balance, carry_nonce,
  movable, drop_empty, legacy_of, move_legacy, State, claimed,
}

-- How far a claim moves the balances, from one account to another and with at most a deposit on top.
pub record Moves {Ledger : Type 0} (host : Host Ledger) (l t : Ledger) (from to amount : ℕ)
    : Type 0 where
  pub emptied : host.balance t from ≡ host.balance l from - amount
  pub received : host.balance l to + amount ≤ host.balance t to
  pub no_more : host.balance t to ≤ host.balance l to + amount + host.minimum_balance
  pub others : (a : ℕ) → a ≢ from → a ≢ to → host.balance t a ≡ host.balance l a

unmoved :
    {Ledger : Type 0} {host : Host Ledger} (l : Ledger) (from to : ℕ) → Moves host l l from to 0
unmoved l from to = record {
  emptied = omega arith;
  received = omega arith;
  no_more = omega arith;
  others = λ a p q. refl;
}

module _ {Ledger : Type 0} (host : Host Ledger) (laws : FundLaws host) where
  balance-clear_vesting :
      (fuel : ℕ) (l t : Ledger) (who a : ℕ)
      → clear_vesting host fuel l who ≡ ok t
      → host.balance t a ≡ host.balance l a
  unfolding clear_vesting
  balance-clear_vesting zero l t who a h = ap (λ u. host.balance u a) (sym (ok-injective h))
  balance-clear_vesting (suc fuel) l t who a h =
      looked (host.has_schedules l who) h (λ u. balance-clear_vesting fuel u t who a)
    where
      looked :
          (more : Bool)
          → elim more as (λ b. Dispatched Ledger) [
            | true ↦ host.remove_schedule l who 0 >>= λ l'. clear_vesting host fuel l' who
            | false ↦ ok l
          ]
            ≡ ok t
          → ((u : Ledger)
              → clear_vesting host fuel u who ≡ ok t
              → host.balance t a ≡ host.balance u a)
          → host.balance t a ≡ host.balance l a
      looked true h ih =
          bind_elim (host.remove_schedule l who 0) _ h
            λ u e p. ih u p ∙ laws.balance-remove_schedule l u who 0 a e
      looked false h ih = ap (λ u. host.balance u a) (sym (ok-injective h))

  balance-restore_vesting :
      (now : ℕ) (l t : Ledger) (who : ℕ) (vested : List Schedule) (a : ℕ)
      → restore_vesting host now l who vested ≡ ok t
      → host.balance t a ≡ host.balance l a
  unfolding restore_vesting
  balance-restore_vesting now l t who [] a h = ap (λ u. host.balance u a) (sym (ok-injective h))
  balance-restore_vesting now l t who (s ∷ rest) a h =
      looked (host.locked_at s now == 0) h (λ u. balance-restore_vesting now u t who rest a)
    where
      looked :
          (spent : Bool)
          → elim spent as (λ b. Dispatched Ledger) [
            | true ↦ restore_vesting host now l who rest
            | false ↦ host.add_schedule l who s >>= λ l'. restore_vesting host now l' who rest
          ]
            ≡ ok t
          → ((u : Ledger)
              → restore_vesting host now u who rest ≡ ok t
              → host.balance t a ≡ host.balance u a)
          → host.balance t a ≡ host.balance l a
      looked true h ih = ih l h
      looked false h ih =
          bind_elim (host.add_schedule l who s) _ h
            λ u e p. ih u p ∙ laws.balance-add_schedule l u who s a e

  balance-open_account :
      (l t : Ledger) (who a : ℕ)
      → open_account host l who ≡ ok t
      → (host.balance l a ≤ host.balance t a)
        × (host.balance t a ≤ host.balance l a + (if a == who then host.minimum_balance else 0))
  unfolding open_account
  balance-open_account l t who a h = opened (host.total_balance l who == 0) h
    where
      opened :
          (empty : Bool)
          → (if empty
              then (host.mint_into l who host.minimum_balance >>= λ l'.
                  ok (host.deactivate l' host.minimum_balance))
              else ok l)
            ≡ ok t
          → (host.balance l a ≤ host.balance t a)
            × (host.balance t a ≤ host.balance l a + (if a == who then host.minimum_balance else 0))
      opened true h = bind_elim (host.mint_into l who host.minimum_balance) _ h λ u e p.
          rw (← ok-injective p, laws.balance-deactivate u host.minimum_balance a)
            (ground (arith, laws.balance-mint_into l u who host.minimum_balance a e))
      opened false h = rw (← ok-injective h) (ground arith)

  pub move_funds-Moves :
      (l t : Ledger) (from to : ℕ)
      → from ≢ to
      → move_funds host l from to ≡ ok t
      → Moves host l t from to (host.balance l from)
  unfolding move_funds
  move_funds-Moves l t from to ne h =
      let vested = host.schedules l from in
      bind_elim (clear_vesting host (length vested) l from) _ h λ cleared e1 h1.
        bind_elim (open_account host cleared to) _ h1 λ opened e2 h2.
          bind_elim (host.transfer opened from to (host.balance l from) expendable) _ h2
            λ moved e3 h3.
              let cleared_lem =
                λ (a : ℕ). balance-clear_vesting (length vested) l cleared from a e1 in
              let opened_lem = λ (a : ℕ). balance-open_account cleared opened to a e2 in
              let moved_lem = λ (a : ℕ).
                laws.balance-transfer opened moved from to (host.balance l from) a expendable e3
                  ne in
              let done_lem =
                λ (a : ℕ). balance-restore_vesting (host.vesting_now l) moved t to vested a h3 in
              record {
                emptied =
                    ground
                      (arith, cleared_lem from, opened_lem from, moved_lem from, done_lem from);
                received = ground (arith, cleared_lem to, opened_lem to, moved_lem to, done_lem to);
                no_more = ground (arith, cleared_lem to, opened_lem to, moved_lem to, done_lem to);
                others =
                    λ a p q. ground (arith, cleared_lem a, opened_lem a, moved_lem a, done_lem a);
              }

  carry_nonce-balance :
      (l : Ledger) (legacy account a : ℕ)
      → host.balance (carry_nonce host l legacy account).0 a ≡ host.balance l a
  unfolding carry_nonce
  carry_nonce-balance l legacy account a = ground (
    arith,
    laws.balance-set_nonce (host.inc_providers l account) account (host.nonce l legacy) a,
    laws.balance-set_nonce l account (host.nonce l legacy) a,
    laws.balance-inc_providers l account a,
  )

  drop_empty-balance :
      (l : Ledger) (who a : ℕ) → host.balance (drop_empty host l who) a ≡ host.balance l a
  unfolding drop_empty
  drop_empty-balance l who a = ground (arith, laws.balance-remove_account l who a)

  -- What a move of the balance reports, and what it does.
  move_balance-Moves :
      (l t : Ledger) (from to amount : ℕ)
      → from ≢ to
      → move_balance host l from to ≡ ok (t, amount)
      → (amount ≡ host.balance l from) × Moves host l t from to amount
  unfolding move_balance
  move_balance-Moves l t from to amount ne h = split (host.balance l from == 0) (refl) h
    where
      split :
          (empty : Bool)
          → (host.balance l from == 0) ≡ empty
          → if◌then◌else◌ {A = Dispatched (Ledger × ℕ)} empty
              (ok (l, 0))
              (move_funds host l from to >>= λ l'. ok (l', host.balance l from))
            ≡ ok (t, amount)
          → (amount ≡ host.balance l from) × Moves host l t from to amount
      split true e h =
          let same = ok-injective h in
          let ledgers = ap (λ p. p.0) same in
          let amounts = ap (λ p. p.1) same in
          (ground (arith, e, amounts), rw (← ledgers, ← amounts) (unmoved l from to))
      split false e h = bind_elim (move_funds host l from to) _ h λ u m p.
          let same = ok-injective p in
          let ledgers = ap (λ q. q.0) same in
          let amounts = ap (λ q. q.1) same in
          (sym amounts, rw (← ledgers, ← amounts) (move_funds-Moves l u from to ne m))

  carry_nonce-reached :
      (l : Ledger) (legacy account : ℕ)
      → (carry_nonce host l legacy account).1 ≡ max (host.nonce l account) (host.nonce l legacy)
  unfolding carry_nonce
  carry_nonce-reached l legacy account = ground arith

  module _ (holds : HoldLaws host) (cfg : Config Ledger) (s : State Ledger) (address : ℕ) where
    abbrev legacy : ℕ
    legacy = legacy_of host cfg address

    abbrev account : ℕ
    account = revive_account address

    abbrev carried : Ledger × ℕ
    carried = carry_nonce host s.ledger legacy account

    moved_part :
        (can : Bool) (l : Ledger) (amount : ℕ)
        → legacy ≢ account
        → (if can then move_balance host carried.0 legacy account else ok (carried.0, 0))
          ≡ ok (l, amount)
        → (amount ≡ (if can then host.balance s.ledger legacy else 0))
          × Moves host carried.0 l legacy account amount
    moved_part true l amount ne h =
        let part = move_balance-Moves carried.0 l legacy account amount ne h in
        (part.0 ∙ carry_nonce-balance s.ledger legacy account legacy, part.1)
    moved_part false l amount ne h =
        let same = ok-injective h in
        (
          sym (ap (λ p. p.1) same),
          rw (← ap (λ p. p.0) same, ← ap (λ p. p.1) same) (unmoved carried.0 legacy account),
        )

    amount_due :
        (amount : ℕ) (can : Bool)
        → movable host carried.0 legacy ≡ can
        → amount ≡ (if can then host.balance s.ledger legacy else 0)
        → IsFree host s.ledger legacy × (amount ≡ host.balance s.ledger legacy)
          ⊎ (¬ IsFree host s.ledger legacy) × (amount ≡ 0)
    amount_due amount true m e = inl (
      movable-IsFree host s.ledger legacy
          (sym (movable-carry_nonce host holds s.ledger legacy account) ∙ m),
      e,
    )
    amount_due amount false m e = inr (
      λ f.
          let can = IsFree-movable host s.ledger legacy f in
          let same = movable-carry_nonce host holds s.ledger legacy account in cc,
      e,
    )

    -- What a claim's move of the old account does when it succeeds, where the new account is not the old one
    -- itself: the event reports the address, its new account, an amount and the larger nonce of the two
    -- accounts. The amount is the old balance where no reserve, no freeze and no lock but the vesting
    -- pallet's holds it, and 0 otherwise. It leaves the old account for the new one, which gains at most
    -- an existential deposit on top, and no other balance changes.
    pub move_legacy-effect :
        (t : State Ledger)
        → legacy ≢ account
        → move_legacy host cfg s address ≡ ok t
        → (amount : ℕ) × (IsFree host s.ledger legacy × (amount ≡ host.balance s.ledger legacy)
            ⊎ (¬ IsFree host s.ledger legacy) × (amount ≡ 0))
          × (t.events
              ≡ claimed address account amount
                  (max (host.nonce s.ledger account) (host.nonce s.ledger legacy))
                ∷ s.events)
          × Moves host s.ledger t.ledger legacy account amount
    unfolding move_legacy
    move_legacy-effect t ne h =
        bind_elim
          (if movable host carried.0 legacy
            then move_balance host carried.0 legacy account
            else ok (carried.0, 0))
          _ h
          λ moved e p.
            let can = movable host carried.0 legacy in
            let part = moved_part can moved.0 moved.1 ne e in
            let before = carry_nonce-balance s.ledger legacy account in
            let after = drop_empty-balance moved.0 legacy in
            let made = ok-injective p in
            (
              moved.1,
              amount_due moved.1 can refl part.0,
              ap (λ u. u.events) (sym made)
                  ∙ ap (λ n. claimed address account moved.1 n ∷ s.events)
                      (carry_nonce-reached s.ledger legacy account),
              rw (← ap (λ u. u.ledger) made) record {
                emptied = ground (arith, part.1.emptied, before legacy, after legacy);
                received = ground (arith, part.1.received, before account, after account);
                no_more = ground (arith, part.1.no_more, before account, after account);
                others = λ a q r. after a ∙ part.1.others a q r ∙ before a;
              },
            )
