-- ===== src/Claims/Tests.antt =====
-- pallets/evm-claims/src/lib.rs and runtime/src/check_nonce.rs on a small ledger: the address 5, whose old
-- account 7 reached the nonce 4 and holds 100, of which 30 vest.
use numen.Prelude.{
  ℕ, ◌≤◌, ◌≡◌, ◌≢◌, leb, refl, sym, ap, Bool, true, false, Option, none, some, [], ◌∷◌, arith, ◌==◌,
  ◌⊎◌, if◌then◌else◌,
}
use numen.Prelude.Sets.{contains}
use numen.Host.Ops.{Dispatched, ok, failed, ok-injective}
use numen.Host.Simple.{Book, simple, plus, simple-NonceLaws, simple-FundLaws, simple-HoldLaws}
use numen.Claims.Accounts.{revive_account, legacy_account}
use numen.Claims.Defs.{Config, State, claimed, move_legacy, authorize_claim, clear_vesting}
use numen.Claims.Signing.{Signed, Inner, check_nonce}
use numen.Claims.Steps.{InnerLaws, Chain, given_by, signing, here, next, IsKept, RunOnce}
use numen.Claims.Replay.{runs_once, frontier_stays_spent}
use numen.Claims.Free.{IsFree}
use numen.Claims.Funds.{move_legacy-effect, Moves}

abbrev cfg : Config Book
cfg = record {
  claim_fee = 2;
  max_vesting_schedules = 28;
  blake2_256 = λ bytes. 7;
  on_claim_fee = λ l credit. l;
}

abbrev account : ℕ
account = revive_account 5

abbrev book : Book
book = record {
  nonces = λ a. if a == 7 then 4 else 0;
  given = λ a. if a == 7 then 1 else 0;
  funds = λ a. if a == 7 then 100 else 0;
  vesting =
      λ a. if a == 7 then record { locked = 30; per_block = 1; starting_block = 0 } ∷ [] else [];
  issued = 100;
  inactive = 0;
}

abbrev start : State Book
start = record { ledger = book; events = [] }

abbrev value_of {ℓ} : {A : Type ℓ} → A → Dispatched A → A
value_of other (failed reason) = other
value_of other (ok value) = value

abbrev moved : State Book
unfolding move_legacy
moved = value_of start (move_legacy simple cfg start 5)

move_legacy-runs : move_legacy simple cfg start 5 ≡ ok moved
unfolding move_legacy legacy_account revive_account
move_legacy-runs = refl

move_legacy-effect_example :
    (amount : ℕ) × (IsFree simple book 7 × (amount ≡ 100) ⊎ (¬ IsFree simple book 7) × (amount ≡ 0))
    × (moved.events ≡ claimed 5 account amount 4 ∷ [])
    × Moves simple book moved.ledger 7 account amount
unfolding legacy_account revive_account
move_legacy-effect_example =
    move_legacy-effect simple simple-FundLaws simple-HoldLaws cfg start 5 moved (omega arith)
      move_legacy-runs

book-IsFree : IsFree simple book 7
unfolding contains
book-IsFree = record { unreserved = refl; unfrozen = refl; only_vesting = λ id c. cc }

authorized : authorize_claim simple cfg book 5 ≡ none
unfolding authorize_claim revive_account legacy_account
authorized = refl

abbrev cleared : Book
unfolding clear_vesting
cleared = value_of book (clear_vesting simple 1 book 7)

clear_vesting-runs : clear_vesting simple 1 book 7 ≡ ok cleared
unfolding clear_vesting
clear_vesting-runs = refl

-- A check of nonces with the documented behaviour: the validation refuses a stale nonce and answers with the
-- account's, and the preparation refuses a future one.
abbrev not_below : Bool → ℕ → Dispatched ℕ
not_below false n = failed 2
not_below true n = ok n

abbrev validated : Book → Option Signed → Dispatched ℕ
validated l none = ok 0
validated l (some tx) = not_below (leb (l.nonces tx.signer) tx.nonce) (l.nonces tx.signer)

abbrev counts : Bool → Book → ℕ → Dispatched Book
counts false l who = failed 3
counts true l who = ok (record l { nonces = plus l.nonces who 1 })

abbrev prepared : Book → Option Signed → ℕ → Dispatched Book
prepared l none val = ok l
prepared l (some tx) val = counts (leb tx.nonce val) l tx.signer

abbrev counting : Inner Book
counting = record { validate = validated; prepare = prepared }

not_below-effect :
    (b : Bool) (n m val : ℕ) → leb n m ≡ b → not_below b n ≡ ok val → (n ≤ m) × (n ≡ val)
not_below-effect false n m val e h = cc
not_below-effect true n m val e h = (ground (arith, e), ok-injective h)

counts-effect :
    (b : Bool) (l t : Book) (n val who : ℕ)
    → leb n val ≡ b
    → counts b l who ≡ ok t
    → (n ≤ val) × ((a : ℕ) → (t.nonces a ≡ plus l.nonces who 1 a) × (t.given a ≡ l.given a))
counts-effect false l t n val who e h = cc
counts-effect true l t n val who e h = (
  ground (arith, e),
  λ a. (ap (λ u. u.nonces a) (sym (ok-injective h)), ap (λ u. u.given a) (sym (ok-injective h))),
)

counting-InnerLaws : InnerLaws simple counting
counting-InnerLaws = record {
  not_stale = λ l tx val v.
      (not_below-effect (leb (l.nonces tx.signer) tx.nonce) (l.nonces tx.signer) tx.nonce val refl
        v).0;
  not_future = λ l t tx val v h. omega (
    arith,
    (not_below-effect (leb (l.nonces tx.signer) tx.nonce) (l.nonces tx.signer) tx.nonce val refl
        v).1,
    (counts-effect (leb tx.nonce val) l t tx.nonce val tx.signer refl h).0,
  );
  counted = λ l t tx val a v h.
      ((counts-effect (leb tx.nonce val) l t tx.nonce val tx.signer refl h).1 a).0;
  providers_kept = λ l t tx val a v h.
      ((counts-effect (leb tx.nonce val) l t tx.nonce val tx.signer refl h).1 a).1;
}

-- The first transaction of the address 5, which carries the nonce 4.
abbrev tx : Signed
tx = record { signer = account; nonce = 4 }

abbrev signed : Book
unfolding check_nonce
signed = value_of book (check_nonce simple cfg counting book (some tx))

check_nonce-runs : check_nonce simple cfg counting book (some tx) ≡ ok signed
unfolding check_nonce legacy_account revive_account
check_nonce-runs = refl

frontier_stays_spent_example :
    (4 ≤ 4) × (simple.nonce signed account ≡ 5) × (1 ≤ simple.providers signed account)
unfolding legacy_account revive_account
frontier_stays_spent_example =
    frontier_stays_spent simple simple-NonceLaws cfg counting counting-InnerLaws book signed 5 4
      refl check_nonce-runs

abbrev genesis : Chain Book
genesis = record { ledger = book; given = λ a. if a == 7 then 1 else 0; executed = [] }

genesis-IsKept : IsKept simple genesis
genesis-IsKept = record { pinned = λ a n. ground (arith, n); backed = λ a. omega arith; spent = tt }

abbrev after_tx : Chain Book
after_tx = record {
  ledger = signed;
  given = given_by simple cfg counting genesis signed;
  executed = (account, 4) ∷ [];
}

-- The old account of an address is no account that pallet-revive derives.
no_key : (address : ℕ) → account ≢ legacy_account cfg.blake2_256 address
unfolding legacy_account revive_account
no_key address = omega arith

runs_once_example : RunOnce after_tx.executed
runs_once_example =
    runs_once simple simple-NonceLaws cfg counting counting-InnerLaws {c = genesis} {d = after_tx}
      genesis-IsKept refl (next here (signing tx check_nonce-runs)) (no_key, tt)
