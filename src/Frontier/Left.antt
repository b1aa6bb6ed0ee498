-- ===== src/Frontier/Left.antt =====
-- runtime/src/migrations/frontier.rs: a contract in Frontier's storage that the moves leave as it was.
use numen.Prelude.{
  ℕ, ◌≡◌, refl, sym, ap, ◌∙◌, Option, none, some, List, [], ◌∷◌, arith, ◌==◌, if◌then◌else◌,
}
use numen.Host.Ops.{Host, Dispatched, ok, failed}
use numen.Claims.Defs.{Config, move_legacy, claimable}
use numen.Claims.Defs as Claims
use numen.Frontier.State.{State, Slot, Revive, Tally, ◌>>-◌, layered}
use numen.Frontier.Ops.{
  slots_of, without_slots, without_code, hand_over, dropped, move_contract, forget,
}
use numen.Frontier.Upgrade.{move_contracts}

abbrev pub find_code : List (ℕ × List ℕ) → ℕ → Option (List ℕ)
find_code [] a = none
find_code ((at, code) ∷ rest) a = if at == a then some code else find_code rest a

find_code-without_code :
    (codes : List (ℕ × List ℕ)) (b a : ℕ)
    → find_code (without_code codes b) a ≡ (if a == b then none else find_code codes a)
find_code-without_code [] b a = ground arith
find_code-without_code ((at, code) ∷ rest) b a = ground (arith, find_code-without_code rest b a)

slots_of-without_slots :
    (slots : List Slot) (b a : ℕ)
    → slots_of (without_slots slots b) a ≡ (if a == b then [] else slots_of slots a)
slots_of-without_slots [] b a = ground arith
slots_of-without_slots (slot ∷ rest) b a = ground (arith, slots_of-without_slots rest b a)

pub then_elim {ℓ κ μ} :
    {A : Type ℓ} {B : Type κ} {C : Type μ} (m : Tally × Dispatched A)
    (f : A → Tally → Tally × Dispatched B) {b : B}
    → (m >>- f).1 ≡ ok b
    → ((a : A) → m.1 ≡ ok a → (f a m.0).1 ≡ ok b → C)
    → C
then_elim (tally, failed reason) f h k = cc
then_elim (tally, ok a) f h k = k a refl h

pub layered_elim {ℓ κ} :
    {A : Type ℓ} (before : A) (m : Tally × Dispatched A) (P : A → Type κ)
    → P before
    → ((a : A) → m.1 ≡ ok a → P a)
    → P (layered before m).0
layered_elim before (tally, failed reason) P p q = p
layered_elim before (tally, ok a) P p q = q a refl

-- What is left of a contract: where it still has its code, the code and the slots are as they were.
pub record IsLeft {Ledger : Type 0} (s t : State Ledger) (a : ℕ) : Type 0 where
  pub left :
      (code : List ℕ)
      → find_code t.codes a ≡ some code
      → (find_code s.codes a ≡ some code) × (slots_of t.slots a ≡ slots_of s.slots a)

pub IsLeft-same :
    {Ledger : Type 0} (s t : State Ledger) (a : ℕ)
    → t.codes ≡ s.codes
    → t.slots ≡ s.slots
    → IsLeft s t a
IsLeft-same s t a p q = record {
  left = λ code h. (ap (λ c. find_code c a) (sym p) ∙ h, ap (λ x. slots_of x a) q);
}

pub IsLeft-trans :
    {Ledger : Type 0} (s t u : State Ledger) (a : ℕ) → IsLeft s t a → IsLeft t u a → IsLeft s u a
IsLeft-trans s t u a p q = record {
  left = λ code h.
      let (there, same) = q.left code h in
      let (before, same') = p.left code there in (before, same ∙ same');
}

module _ {Ledger Info : Type 0} (host : Host Ledger) (revive : Revive Ledger Info)
    (cfg : Config Ledger) where
  move_contract-ok :
      (s t : State Ledger) (address : ℕ) (code : List ℕ) (tally : Tally)
      → (move_contract host revive cfg s address code tally).1 ≡ ok t
      → (claims : Claims.State Ledger) × (t ≡ forget host revive cfg s claims address)
  unfolding move_contract
  move_contract-ok s t address code tally h =
      then_elim (hand_over host revive cfg s address code tally) (dropped host revive cfg s address)
        h λ claims e p. (claims, ok-out p)
    where
      ok-out : {x y : State Ledger} → ok x ≡ ok y → y ≡ x
      ok-out e = cc

  forget-IsLeft :
      (s : State Ledger) (claims : Claims.State Ledger) (address a : ℕ)
      → IsLeft s (forget host revive cfg s claims address) a
  forget-IsLeft s claims address a = record {
    left = λ code h. ground (
      arith,
      h,
      find_code-without_code s.codes address a,
      slots_of-without_slots s.slots address a,
    );
  }

  pub move_contracts-IsLeft :
      (contracts : List (ℕ × List ℕ)) (s : State Ledger) (tally : Tally) (a : ℕ)
      → IsLeft s (move_contracts host revive cfg contracts s tally).0 a
  unfolding move_contracts
  move_contracts-IsLeft [] s tally a = IsLeft-same s s a refl refl
  move_contracts-IsLeft ((address, code) ∷ rest) s tally a =
      let moved = layered s (move_contract host revive cfg s address code tally) in
      let step =
        layered_elim s (move_contract host revive cfg s address code tally) (λ t. IsLeft s t a)
          (IsLeft-same s s a refl refl)
          (λ t e.
            let (claims, same) = move_contract-ok s t address code tally e in
            rw (same) (forget-IsLeft s claims address a)) in
      IsLeft-trans s moved.0 _ a step (move_contracts-IsLeft rest moved.0 moved.1 a)
