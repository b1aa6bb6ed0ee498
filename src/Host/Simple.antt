-- ===== src/Host/Simple.antt =====
-- An instance of FRAME for the tests: a ledger of plain maps, without reserves, freezes and locks.
use numen.Prelude.{
  ℕ, ◌+◌, ◌-◌, ◌*◌, ◌≤◌, ◌≡◌, refl, sym, ap, Bool, true, false, not, ◌&&◌, List, [], ◌∷◌, arith,
  leb, ltb, length, ◌==◌, if◌then◌else◌,
}
use numen.Host.Ops.{Host, Dispatched, ok, failed, ok-injective, Schedule}
use numen.Host.Laws.{NonceLaws, HoldLaws, FundLaws, VestingLaws, IssuanceLaws}

pub record Book : Type 0 where
  pub nonces : ℕ → ℕ
  pub given : ℕ → ℕ
  pub funds : ℕ → ℕ
  pub vesting : ℕ → List Schedule
  pub issued : ℕ
  pub inactive : ℕ

abbrev pub put {ℓ} : {A : Type ℓ} → (ℕ → A) → ℕ → A → ℕ → A
put f who v a = if a == who then v else f a

abbrev pub plus : (ℕ → ℕ) → ℕ → ℕ → ℕ → ℕ
plus f who n a = if a == who then f a + n else f a

abbrev paid : Bool → Book → ℕ → ℕ → ℕ → Dispatched Book
paid false l from to amount = failed 0
paid true l from to amount = ok (record l {
  funds = λ a.
      if a == to then l.funds a + amount else if a == from then l.funds a - amount else l.funds a;
})

abbrev drawn : Bool → Book → ℕ → ℕ → Dispatched (Book × ℕ)
drawn false l who amount = failed 0
drawn true l who amount = ok (record l { funds = put l.funds who (l.funds who - amount) }, amount)

abbrev dropped : List Schedule → Book → ℕ → Dispatched Book
dropped [] l who = failed 1
dropped (s ∷ rest) l who = ok (record l { vesting = put l.vesting who rest })

abbrev pub simple : Host Book
simple = record {
  nonce = λ l a. l.nonces a;
  set_nonce = λ l who n. record l { nonces = put l.nonces who n };
  providers = λ l a. l.given a;
  inc_providers = λ l who. record l { given = plus l.given who 1 };
  consumers = λ l a. 0;
  account_exists = λ l a. not (l.funds a == 0 && l.given a == 0);
  remove_account = λ l who. record l { nonces = put l.nonces who 0; given = put l.given who 0 };
  balance = λ l a. l.funds a;
  total_balance = λ l a. l.funds a;
  reserved_balance = λ l a. 0;
  reducible = λ l a. l.funds a;
  has_freezes = λ l a. false;
  locks = λ l a. [];
  minimum_balance = 1;
  total_issuance = λ l. l.issued;
  active_issuance = λ l. l.issued - l.inactive;
  transfer = λ l from to amount kept. paid (leb amount (l.funds from)) l from to amount;
  mint_into =
      λ l who amount. ok (record l { funds = plus l.funds who amount; issued = l.issued + amount });
  deactivate = λ l amount. record l { inactive = l.inactive + amount };
  withdraw = λ l who amount. drawn (leb amount (l.funds who)) l who amount;
  vesting_now = λ l. 0;
  has_schedules = λ l a. ltb 0 (length (l.vesting a));
  schedules = λ l a. l.vesting a;
  locked_at = λ s now. s.locked - (now - s.starting_block) * s.per_block;
  remove_schedule = λ l who i. dropped (l.vesting who) l who;
  add_schedule = λ l who s. ok (record l { vesting = put l.vesting who (s ∷ l.vesting who) });
}

pub simple-NonceLaws : NonceLaws simple
simple-NonceLaws = record {
  nonce-set_nonce = λ l who n a. refl;
  nonce-inc_providers = λ l who a. refl;
  providers-set_nonce = λ l who n a. refl;
  providers-inc_providers = λ l who a. refl;
  nonce-remove_account = λ l who a. refl;
  providers-remove_account = λ l who a. refl;
}

pub simple-HoldLaws : HoldLaws simple
simple-HoldLaws = record {
  reserved-set_nonce = λ l who n a. refl;
  reserved-inc_providers = λ l who a. refl;
  freezes-set_nonce = λ l who n a. refl;
  freezes-inc_providers = λ l who a. refl;
  locks-set_nonce = λ l who n a. refl;
  locks-inc_providers = λ l who a. refl;
}

paid_lem :
    (b : Bool) (l t : Book) (from to amount a : ℕ)
    → leb amount (l.funds from) ≡ b
    → paid b l from to amount ≡ ok t
    → (amount ≤ l.funds from)
      × (t.funds a ≡ (
          if a == to
          then l.funds a + amount
          else if a == from
          then l.funds a - amount
          else l.funds a))
paid_lem false l t from to amount a e h = cc
paid_lem true l t from to amount a e h =
    (ground (arith, e), ap (λ u. u.funds a) (sym (ok-injective h)))

paid-issued :
    (b : Bool) (l t : Book) (from to amount : ℕ)
    → paid b l from to amount ≡ ok t
    → t.issued - t.inactive ≡ l.issued - l.inactive
paid-issued false l t from to amount h = cc
paid-issued true l t from to amount h = ap (λ u. u.issued - u.inactive) (sym (ok-injective h))

dropped-funds :
    (some_left : List Schedule) (l t : Book) (who a : ℕ)
    → dropped some_left l who ≡ ok t
    → t.funds a ≡ l.funds a
dropped-funds [] l t who a h = cc
dropped-funds (s ∷ rest) l t who a h = ap (λ u. u.funds a) (sym (ok-injective h))

length-dropped :
    (left : List Schedule) (l t : Book) (who : ℕ)
    → dropped left l who ≡ ok t
    → length (t.vesting who) + 1 ≡ length left
length-dropped [] l t who h = cc
length-dropped (s ∷ rest) l t who h = rw (← ok-injective h) (ground arith)

pub simple-FundLaws : FundLaws simple
simple-FundLaws = record {
  balance-set_nonce = λ l who n a. refl;
  balance-inc_providers = λ l who a. refl;
  balance-transfer = λ l t from to amount a kept h ne.
      paid_lem (leb amount (l.funds from)) l t from to amount a refl h;
  balance-mint_into = λ l t who amount a h. ap (λ u. u.funds a) (sym (ok-injective h));
  balance-deactivate = λ l amount a. refl;
  balance-remove_schedule = λ l t who i a h. dropped-funds (l.vesting who) l t who a h;
  balance-add_schedule = λ l t who s a h. ap (λ u. u.funds a) (sym (ok-injective h));
  reducible-balance = λ l who. omega arith;
  balance-remove_account = λ l who a z. refl;
}

pub simple-VestingLaws : VestingLaws simple
simple-VestingLaws = record {
  has_schedules-length = λ l who. refl;
  length-remove_schedule = λ l t who i h. length-dropped (l.vesting who) l t who h;
}

pub simple-IssuanceLaws : IssuanceLaws simple
simple-IssuanceLaws = record {
  active-transfer =
      λ l t from to amount kept h. paid-issued (leb amount (l.funds from)) l t from to amount h;
  active-mint_deactivate = λ l t who amount h.
      let issued = ap (λ u. u.issued) (ok-injective h) in
      let inactive = ap (λ u. u.inactive) (ok-injective h) in omega (arith, issued, inactive);
}
