-- ===== src/Chain/Inversion.antt =====
-- consensus/sc-consensus-pow/src/lib.rs: what the reads of `import_block` say of a block when they succeed.
use numen.Prelude.{
  ℕ, ◌≡◌, ◌⊎◌, refl, ap, if◌then◌else◌, Bool, true, false, Option, some, none, List, [], ◌∷◌, ◌++◌,
  sym, inl, inr, ◌==◌, arith,
}
use numen.Chain.Defs.{
  Error, Outcome, done, failed, ◌>>=◌, DigestItem, sealed, pre_runtime, other, decoded, PowAux,
  Client, read_aux, fetch_seal, find_pre_digest, timestamp_inherent, require,
  multiple_pre_runtime_digests,
}

pub bind_elim {ℓ κ μ} :
    {A : Type ℓ} {B : Type κ} {C : Type μ} (o : Outcome A) (f : A → Outcome B) {b : B}
    → (o >>= f) ≡ done b
    → ((a : A) → o ≡ done a → f a ≡ done b → C)
    → C
bind_elim (failed e) f h k = cc
bind_elim (done a) f h k = k a refl h

pub require-true : (b : Bool) (e : Error) (u : Unit {0}) → require b e ≡ done u → b ≡ true
require-true true e u h = refl
require-true false e u h = cc

pub done-injective {ℓ} : {A : Type ℓ} {a b : A} → done a ≡ done b → a ≡ b
done-injective h = cc

-- The payloads of an engine's pre-runtime items, in their order.
abbrev pub pre_items : ℕ → List DigestItem → List ℕ
pre_items engine [] = []
pre_items engine (sealed id seal ∷ logs) = pre_items engine logs
pre_items engine (pre_runtime id payload ∷ logs) =
    let rest = pre_items engine logs in if id == engine then payload ∷ rest else rest
pre_items engine (other ∷ logs) = pre_items engine logs

abbrev pub listed : Option ℕ → List ℕ
listed none = []
listed (some x) = x ∷ []

pub fetch_seal-done :
    (engine : ℕ) (item : Option DigestItem) (hash : ℕ) {s : ℕ}
    → fetch_seal engine item hash ≡ done s
    → item ≡ some (sealed engine s)
unfolding fetch_seal
fetch_seal-done engine none hash h = cc
fetch_seal-done engine (some (sealed id seal)) hash h = ground (arith, h)
fetch_seal-done engine (some (pre_runtime id payload)) hash h = cc
fetch_seal-done engine (some other) hash h = cc

pub timestamp_inherent-done :
    (body : Option (List ℕ)) {inherent : ℕ}
    → timestamp_inherent body ≡ done inherent
    → (rest : List ℕ) × (body ≡ some (inherent ∷ rest))
timestamp_inherent-done none h = cc
timestamp_inherent-done (some []) h = cc
timestamp_inherent-done (some (first ∷ rest)) h = (rest, cc)

-- What the loop has found so far comes before the items that are left.
pub find_pre_digest-done :
    (engine : ℕ) (before : Option ℕ) (logs : List DigestItem) {pre : Option ℕ}
    → find_pre_digest engine before logs ≡ done pre
    → listed before ++ pre_items engine logs ≡ listed pre
unfolding find_pre_digest
find_pre_digest-done engine none [] h = ap listed (done-injective h)
find_pre_digest-done engine (some x) [] h = ap listed (done-injective h)
find_pre_digest-done engine none (sealed id seal ∷ logs) h = find_pre_digest-done engine none logs h
find_pre_digest-done engine (some x) (sealed id seal ∷ logs) h =
    find_pre_digest-done engine (some x) logs h
find_pre_digest-done engine none (other ∷ logs) h = find_pre_digest-done engine none logs h
find_pre_digest-done engine (some x) (other ∷ logs) h = find_pre_digest-done engine (some x) logs h
find_pre_digest-done engine none (pre_runtime id payload ∷ logs) {pre} h =
    passed (id == engine) h (find_pre_digest-done engine none logs)
      (find_pre_digest-done engine (some payload) logs)
  where
    passed :
        (same : Bool)
        → find_pre_digest engine (if same then some payload else none) logs ≡ done pre
        → (find_pre_digest engine none logs ≡ done pre → pre_items engine logs ≡ listed pre)
        → (find_pre_digest engine (some payload) logs ≡ done pre
            → payload ∷ pre_items engine logs ≡ listed pre)
        → (if same then payload ∷ pre_items engine logs else pre_items engine logs) ≡ listed pre
    passed true h without with_it = with_it h
    passed false h without with_it = without h
find_pre_digest-done engine (some x) (pre_runtime id payload ∷ logs) {pre} h =
    repeated (id == engine) h (find_pre_digest-done engine (some x) logs)
  where
    repeated :
        (same : Bool)
        → (if same
            then failed multiple_pre_runtime_digests
            else find_pre_digest engine (some x) logs)
          ≡ done pre
        → (find_pre_digest engine (some x) logs ≡ done pre → x ∷ pre_items engine logs ≡ listed pre)
        → x ∷ (if same then payload ∷ pre_items engine logs else pre_items engine logs) ≡ listed pre
    repeated true h rest = cc
    repeated false h rest = rest h

pub read_aux-done :
    (node : Client) (hash : ℕ) {before : PowAux}
    → read_aux node hash ≡ done before
    → (node.get_aux hash ≡ done none) × (before.total_difficulty ≡ 0)
      ⊎ (bytes : ℕ) × (node.get_aux hash ≡ done (some bytes))
        × (node.decode_aux bytes ≡ done before)
unfolding read_aux
read_aux-done node hash {before} h = bind_elim (node.get_aux hash) _ h decode
  where
    decode :
        (bytes : Option ℕ)
        → node.get_aux hash ≡ done bytes
        → decoded node bytes ≡ done before
        → (node.get_aux hash ≡ done none) × (before.total_difficulty ≡ 0)
          ⊎ (bytes : ℕ) × (node.get_aux hash ≡ done (some bytes))
            × (node.decode_aux bytes ≡ done before)
    decode none e d = inl (e, ap (λ a. a.total_difficulty) (done-injective (sym d)))
    decode (some bytes) e d = inr (bytes, e, d)
