-- ===== src/Chain/Header.antt =====
-- consensus/sc-consensus-pow/src/lib.rs: `check_header` and `PowVerifier::verify`, which move the seal
-- from the header to the digests beside it.
use numen.Prelude.{
  ℕ, ◌≡◌, refl, ap, subst, ◌∙◌, Bool, true, Option, none, some, List, [], ◌∷◌, ◌++◌, ◌==◌,
  if◌then◌else◌, arith,
}
use numen.Chain.Defs.{
  Outcome, done, failed, ◌>>=◌, wrong_engine, header_unsealed, failed_preliminary_verify,
  DigestItem, sealed, pre_runtime, other, Algorithm, Block, last, fetch_seal, require,
}
use numen.Chain.Inversion.{bind_elim, done-injective}

abbrev pub prepended :
    DigestItem → Option (List DigestItem × DigestItem) → Option (List DigestItem × DigestItem)
prepended x none = none
prepended x (some (rest, item)) = some (x ∷ rest, item)

-- `pop` of the header's digest: the last item.
abbrev pub pop : List DigestItem → Option (List DigestItem × DigestItem)
pop [] = none
pop (x ∷ []) = some ([], x)
pop (x ∷ y ∷ xs) = prepended x (pop (y ∷ xs))

-- `unwrap_or(true)`
abbrev pub unwrap_or_true : Option Bool → Bool
unwrap_or_true none = true
unwrap_or_true (some verdict) = verdict

-- `hash_with` is the hash of the header with a digest in place of its own.
unfoldable pub preliminary :
    Algorithm → (List DigestItem → ℕ) → List DigestItem → ℕ → Outcome (List DigestItem × ℕ)
preliminary pow hash_with rest inner_seal = do
  verdict ← pow.preliminary_verify (hash_with rest) inner_seal
  _ ← require (unwrap_or_true verdict) failed_preliminary_verify
  done (rest, inner_seal)

abbrev pub take_seal : ℕ → ℕ → Option (List DigestItem × DigestItem) → Outcome (List DigestItem × ℕ)
take_seal engine hash none = failed (header_unsealed hash)
take_seal engine hash (some (rest, sealed id inner_seal)) =
    if id == engine then done (rest, inner_seal) else failed (wrong_engine id)
take_seal engine hash (some (rest, pre_runtime id payload)) = failed (header_unsealed hash)
take_seal engine hash (some (rest, other)) = failed (header_unsealed hash)

-- `check_header`: the digest that is left, and the seal.
unfoldable pub check_header :
    Algorithm → (List DigestItem → ℕ) → List DigestItem → Outcome (List DigestItem × ℕ)
unfolding preliminary
check_header pow hash_with logs = do
  popped ← take_seal pow.engine (hash_with logs) (pop logs)
  preliminary pow hash_with popped.0 popped.1

-- `PowVerifier::verify`.
unfoldable pub verify_block : Algorithm → (List DigestItem → ℕ) → Block → Outcome Block
unfolding check_header
verify_block pow hash_with block = do
  checked ← check_header pow hash_with block.logs
  done (record block {
    hash = hash_with checked.0;
    logs = checked.0;
    post_digests = block.post_digests ++ sealed pow.engine checked.1 ∷ [];
    post_hash = hash_with block.logs;
  })

last-append : (xs : List DigestItem) (x : DigestItem) → last (xs ++ x ∷ []) ≡ some x
last-append [] x = refl
last-append (y ∷ []) x = refl
last-append (y ∷ z ∷ xs) x = last-append (z ∷ xs) x

pop-append :
    (logs rest : List DigestItem) (item : DigestItem)
    → pop logs ≡ some (rest, item)
    → logs ≡ rest ++ item ∷ []
pop-append [] rest item h = cc
pop-append (x ∷ []) rest item h =
    ap (λ p. p.0 ++ p.1 ∷ []) {x = ([], x)} {y = (rest, item)} (some_injective h)
  where
    some_injective : {p q : List DigestItem × DigestItem} → some p ≡ some q → p ≡ q
    some_injective h = cc
pop-append (x ∷ y ∷ xs) rest item h = step (pop (y ∷ xs)) refl (pop-append (y ∷ xs)) h
  where
    some_injective : {p q : List DigestItem × DigestItem} → some p ≡ some q → p ≡ q
    some_injective h = cc

    step :
        (o : Option (List DigestItem × DigestItem))
        → pop (y ∷ xs) ≡ o
        → ((r : List DigestItem) (i : DigestItem)
            → pop (y ∷ xs) ≡ some (r, i)
            → y ∷ xs ≡ r ++ i ∷ [])
        → prepended x o ≡ some (rest, item)
        → x ∷ y ∷ xs ≡ rest ++ item ∷ []
    step none e ih h = cc
    step (some (r, i)) e ih h =
        ap (λ l. x ∷ l) (ih r i e)
        ∙ ap (λ p. p.0 ++ p.1 ∷ []) {x = (x ∷ r, i)} {y = (rest, item)} (some_injective h)

take_seal-done :
    (engine hash : ℕ) (o : Option (List DigestItem × DigestItem)) (rest : List DigestItem) (s : ℕ)
    → take_seal engine hash o ≡ done (rest, s)
    → o ≡ some (rest, sealed engine s)
take_seal-done engine hash none rest s h = cc
take_seal-done engine hash (some (r, sealed id t)) rest s h = ground arith
take_seal-done engine hash (some (r, pre_runtime id t)) rest s h = cc
take_seal-done engine hash (some (r, other)) rest s h = cc

check_header-taken :
    (pow : Algorithm) (hash_with : List DigestItem → ℕ) (logs : List DigestItem)
    (checked : List DigestItem × ℕ)
    → check_header pow hash_with logs ≡ done checked
    → take_seal pow.engine (hash_with logs) (pop logs) ≡ done checked
unfolding check_header
check_header-taken pow hash_with logs checked h =
    bind_elim (take_seal pow.engine (hash_with logs) (pop logs)) _ h λ popped e1 h1.
      bind_elim (pow.preliminary_verify (hash_with popped.0) popped.1) _ h1 λ verdict e2 h2.
        bind_elim (require (unwrap_or_true verdict) failed_preliminary_verify) _ h2
          λ u e3 h3. e1 ∙ h3

-- A verified block's header had a proof-of-work seal as its last digest item. The seal is now the last
-- of the block's post-digests, where the import fetches it; the header keeps the other items, its hash
-- is that of the header without the seal, and the hash with the seal is kept beside it.
pub verify_block-ok :
    (pow : Algorithm) (hash_with : List DigestItem → ℕ) (block result : Block)
    → verify_block pow hash_with block ≡ done result
    → (s : ℕ) × (block.logs ≡ result.logs ++ sealed pow.engine s ∷ [])
      × (fetch_seal pow.engine (last result.post_digests) result.hash ≡ done s)
      × (result.hash ≡ hash_with result.logs)
      × (result.post_hash ≡ hash_with block.logs)
unfolding verify_block fetch_seal
verify_block-ok pow hash_with block result h =
    bind_elim (check_header pow hash_with block.logs) _ h λ checked e1 h1.
      subst
        (λ r.
          (s : ℕ) × (block.logs ≡ r.logs ++ sealed pow.engine s ∷ [])
          × (fetch_seal pow.engine (last r.post_digests) r.hash ≡ done s)
          × (r.hash ≡ hash_with r.logs)
          × (r.post_hash ≡ hash_with block.logs))
        (done-injective h1)
        (
          checked.1,
          pop-append block.logs checked.0 (sealed pow.engine checked.1) (
              take_seal-done pow.engine (hash_with block.logs) (pop block.logs) checked.0 checked.1
                (check_header-taken pow hash_with block.logs checked e1)),
          rw (last-append block.post_digests (sealed pow.engine checked.1)) (ground arith),
          refl,
          refl,
        )
