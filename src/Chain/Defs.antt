-- ===== src/Chain/Defs.antt =====
-- consensus/sc-consensus-pow/src/lib.rs: `finality_conflicts`, `import_block` up to the call of the
-- inner importer, and `check_header`. A hash, a seal and an encoded extrinsic are numbers, since the
-- code only compares them and hands them on.
use numen.Prelude.{
  ℕ, zero, suc, ◌-◌, Bool, true, false, not, Option, none, some, List, [], ◌∷◌, ltb, leb, ◌==◌,
  if◌then◌else◌,
}

pub data Error : Type 0 where
  wrong_engine header_unsealed unknown_header : ℕ → Error
  no_best_chain client codec missing_timestamp_inherent multiple_pre_runtime_digests : Error
  inherents invalid_seal failed_preliminary_verify runtime : Error

pub data Outcome {ℓ} (A : Type ℓ) : Type ℓ where
  done : A → Outcome A
  failed : Error → Outcome A

infixl 5 ◌>>=◌
abbrev pub ◌>>=◌ {ℓ κ} : {A : Type ℓ} {B : Type κ} → Outcome A → (A → Outcome B) → Outcome B
failed e >>= use_it = failed e
done x >>= use_it = use_it x

-- What the client answers for a hash: a header, of which only the parent's hash is read, no header, or
-- an error.
pub data Looked : Type 0 where
  found : ℕ → Looked
  missing unavailable : Looked

-- The `while` loop of either case of `finality_conflicts`, over the heights left.
unfoldable pub walk_back : (ℕ → Looked) → ℕ → ℕ → Outcome ℕ
walk_back header_of zero hash = done hash
walk_back header_of (suc heights) hash = elim (header_of hash) [
  | found parent ↦ walk_back header_of heights parent
  | missing ↦ failed (unknown_header hash)
  | unavailable ↦ failed client
]

abbrev pub differs : ℕ → Outcome ℕ → Outcome Bool
differs hash (failed e) = failed e
differs hash (done other) = done (not (other == hash))

-- `finality_conflicts` for a block with its number and its parent, against the finalized block.
unfoldable pub finality_conflicts : (ℕ → Looked) → ℕ → ℕ → ℕ → ℕ → ℕ → Outcome Bool
unfolding walk_back
finality_conflicts header_of new_hash new_number parent finalized_hash finalized_number =
    if leb new_number finalized_number
    then differs new_hash (walk_back header_of (finalized_number - new_number) finalized_hash)
    else differs finalized_hash (walk_back header_of (new_number - 1 - finalized_number) parent)

-- A digest item, with its engine where it has one.
pub data DigestItem : Type 0 where
  sealed pre_runtime : ℕ → ℕ → DigestItem
  other : DigestItem

-- `engine` is `POW_ENGINE_ID` of sp_consensus_pow.
unfoldable pub fetch_seal : ℕ → Option DigestItem → ℕ → Outcome ℕ
fetch_seal engine none hash = failed (header_unsealed hash)
fetch_seal engine (some (sealed id seal)) hash =
    if id == engine then done seal else failed (wrong_engine id)
fetch_seal engine (some (pre_runtime id payload)) hash = failed (header_unsealed hash)
fetch_seal engine (some other) hash = failed (header_unsealed hash)

-- The loop of `find_pre_digest`, with what it has found so far.
unfoldable pub find_pre_digest : ℕ → Option ℕ → List DigestItem → Outcome (Option ℕ)
find_pre_digest engine before [] = done before
find_pre_digest engine before (sealed id seal ∷ logs) = find_pre_digest engine before logs
find_pre_digest engine before (other ∷ logs) = find_pre_digest engine before logs
find_pre_digest engine none (pre_runtime id payload ∷ logs) =
    find_pre_digest engine (if id == engine then some payload else none) logs
find_pre_digest engine (some first) (pre_runtime id payload ∷ logs) =
    let rest = find_pre_digest engine (some first) logs in
    if id == engine then failed multiple_pre_runtime_digests else rest

-- `slice::last`.
abbrev pub last : List DigestItem → Option DigestItem
last [] = none
last (x ∷ []) = some x
last (x ∷ y ∷ xs) = last (y ∷ xs)

pub record PowAux : Type 0 where
  pub difficulty : ℕ
  pub total_difficulty : ℕ

-- `PowAlgorithm`, with `POW_ENGINE_ID` of sp_consensus_pow and `increment` of the total difficulty.
pub record Algorithm : Type 0 where
  pub engine : ℕ
  pub difficulty_of : ℕ → ℕ → Outcome ℕ
  pub preliminary_verify : ℕ → ℕ → Outcome (Option Bool)
  pub break_tie : ℕ → ℕ → Bool
  pub verify : ℕ → ℕ → Option ℕ → ℕ → ℕ → Outcome Bool
  pub increment : ℕ → ℕ → ℕ

-- What the client knows: the best header by its hash and its logs, the auxiliary storage by the hash
-- of the key, the headers and the finalized block.
pub record Client : Type 0 where
  pub best_chain : Outcome (ℕ × List DigestItem)
  pub get_aux : ℕ → Outcome (Option ℕ)
  pub decode_aux : ℕ → Outcome PowAux
  pub header_of : ℕ → Looked
  pub finalized_hash : ℕ
  pub finalized_number : ℕ

-- `BlockImportParams`: the header by its hash, number, parent and logs, its hash with the seal, the
-- encoded extrinsics and the rest.
pub record Block : Type 0 where
  pub hash : ℕ
  pub post_hash : ℕ
  pub number : ℕ
  pub parent_hash : ℕ
  pub logs : List DigestItem
  pub body : Option (List ℕ)
  pub post_digests : List DigestItem
  pub skip_execution_checks : Bool
  pub fork_choice : Option Bool

abbrev pub decoded : Client → Option ℕ → Outcome PowAux
decoded node none = done (record { difficulty = 0; total_difficulty = 0 })
decoded node (some bytes) = node.decode_aux bytes

-- `PowAux::read`.
unfoldable pub read_aux : Client → ℕ → Outcome PowAux
read_aux node hash = do bytes ← node.get_aux hash; decoded node bytes

-- The first extrinsic of the body.
abbrev pub timestamp_inherent : Option (List ℕ) → Outcome ℕ
timestamp_inherent none = failed missing_timestamp_inherent
timestamp_inherent (some []) = failed missing_timestamp_inherent
timestamp_inherent (some (first ∷ rest)) = done first

abbrev pub require : Bool → Error → Outcome (Unit {0})
require true e = done tt
require false e = failed e

-- The rest of the method for a block with a body that is not exempt: `check_inherents` of the block
-- builder, which the height bound can switch off.
abbrev pub check_inherents : ℕ → Outcome (Unit {0}) → Block → Outcome (Unit {0})
check_inherents after answer block = if ltb block.number after then done tt else answer

abbrev pub check_body :
    ℕ → Outcome (Outcome (Unit {0})) → Block → Option (List ℕ) → Outcome (Unit {0})
check_body after answer block none = done tt
check_body after answer block (some body) =
    if block.skip_execution_checks
    then done tt
    else (answer >>= λ checked. check_inherents after checked block)

-- Whether a block that does not conflict becomes the best one.
unfoldable pub heavier : Algorithm → ℕ × List DigestItem → ℕ → ℕ → ℕ → Outcome Bool
unfolding fetch_seal
heavier pow (best_hash, best_logs) seal total best_total =
    if ltb total best_total
    then done false
    else if ltb best_total total
    then done true
    else (fetch_seal pow.engine (last best_logs) best_hash >>= λ best_seal.
        done (pow.break_tie best_seal seal))

-- The fork choice of a block that comes with none.
unfoldable pub fork_choice :
    Algorithm → Client → ℕ × List DigestItem → Block → ℕ → ℕ → ℕ → Outcome Bool
unfolding finality_conflicts heavier
fork_choice pow node best block seal total best_total = do
  conflicts ←
      finality_conflicts node.header_of block.post_hash block.number block.parent_hash
        node.finalized_hash node.finalized_number
  let choice = heavier pow best seal total best_total
  if conflicts then done false else choice

-- What `import_block` hands to the inner importer with the block.
pub record Import : Type 0 where
  pub aux : PowAux
  pub is_best : Bool

abbrev pub chosen : Option Bool → Outcome Bool → Outcome Bool
chosen none choice = choice
chosen (some given) choice = done given

-- `import_block` until the inner importer takes over; `answer` is what the inherent data
-- providers give, an error or the result of the inherents' check.
unfoldable pub import_block :
    Algorithm → Client → ℕ → Outcome (Outcome (Unit {0})) → Block → Outcome Import
unfolding read_aux fetch_seal find_pre_digest fork_choice
import_block pow node check_after answer block = do
  best ← node.best_chain
  best_aux ← read_aux node best.0
  aux ← read_aux node block.parent_hash
  _ ← check_body check_after answer block block.body
  seal ← fetch_seal pow.engine (last block.post_digests) block.hash
  inherent ← timestamp_inherent block.body
  difficulty ← pow.difficulty_of block.parent_hash inherent
  pre_digest ← find_pre_digest pow.engine none block.logs
  valid ← pow.verify block.parent_hash block.hash pre_digest seal difficulty
  _ ← require valid invalid_seal
  let total = pow.increment aux.total_difficulty difficulty
  is_best ←
      chosen block.fork_choice
        (fork_choice pow node best block seal total best_aux.total_difficulty)
  done (record {
    aux = record { difficulty = difficulty; total_difficulty = total };
    is_best = is_best;
  })
