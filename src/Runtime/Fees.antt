-- ===== src/Runtime/Fees.antt =====
-- runtime/src/configs/mod.rs: the miner's and the treasury's parts of a fee and its tip, and the author of a
-- block. A payment is an account with an amount, which the currency is given to resolve.
use numen.Prelude.{
  ℕ, ◌+◌, ◌-◌, ◌≡◌, min, Option, none, some, List, [], ◌∷◌, ◌++◌, arith, ◌==◌, if◌then◌else◌,
}

-- `split` of a credit takes no more than it has; `miner_share` is the product with `MINER_FEE_SHARE`.
unfoldable pub on_nonzero_unbalanced : (ℕ → ℕ) → ℕ → Option ℕ → ℕ → List (ℕ × ℕ)
on_nonzero_unbalanced miner_share treasury none amount = (treasury, amount) ∷ []
on_nonzero_unbalanced miner_share treasury (some author) amount =
    let keep = min (miner_share amount) amount in (author, keep) ∷ (treasury, amount - keep) ∷ []

abbrev unwrap_or : Option ℕ → ℕ → ℕ
unwrap_or none other = other
unwrap_or (some a) other = a

-- `on_unbalanceds`, of the fee and then the tip. `on_unbalanced` leaves a fee of nothing.
unfoldable pub on_unbalanceds : (ℕ → ℕ) → ℕ → Option ℕ → List ℕ → List (ℕ × ℕ)
unfolding on_nonzero_unbalanced
on_unbalanceds miner_share treasury author [] = []
on_unbalanceds miner_share treasury author (fee ∷ []) =
    if fee == 0 then [] else on_nonzero_unbalanced miner_share treasury author fee
on_unbalanceds miner_share treasury author (fee ∷ tip ∷ rest) =
    (if fee == 0 then [] else on_nonzero_unbalanced miner_share treasury author fee)
    ++ (unwrap_or author treasury, tip) ∷ []

abbrev paid : List (ℕ × ℕ) → ℕ
paid [] = 0
paid ((who, amount) ∷ rest) = amount + paid rest

-- Nothing of a fee and its tip is lost, whatever share the miner gets.
pub paid-on_unbalanceds :
    (miner_share : ℕ → ℕ) (treasury : ℕ) (author : Option ℕ) (fee tip : ℕ)
    → paid (on_unbalanceds miner_share treasury author (fee ∷ tip ∷ [])) ≡ fee + tip
unfolding on_unbalanceds
paid-on_unbalanceds miner_share treasury none fee tip = ground arith
paid-on_unbalanceds miner_share treasury (some author) fee tip = ground arith

-- `PowFindAuthor`: the payload of the first digest of the engine, where it decodes.
unfoldable pub find_author : ℕ → (ℕ → Option ℕ) → List (ℕ × ℕ) → Option ℕ
find_author engine decode [] = none
find_author engine decode ((id, data_of) ∷ rest) =
    let later = find_author engine decode rest in if id == engine then decode data_of else later
