-- ===== src/Chain/Tests.antt =====
-- consensus/sc-consensus-pow/src/lib.rs on small inputs: a chain whose block at each height has the
-- hash one above it; the parent's hash in the header of genesis is 0, which is no block's.
use numen.Prelude.{
  ℕ, ◌+◌, ◌-◌, ◌*◌, ◌≤◌, ◌≡◌, ◌↔◌, ◌⊎◌, refl, true, false, Option, some, none, List, [], ◌∷◌, ◌++◌,
  suc, arith, ◌==◌, if◌then◌else◌,
}
use numen.Chain.Defs.{
  done, Looked, found, missing, finality_conflicts, DigestItem, sealed, pre_runtime, last, PowAux,
  Algorithm, Client, Block, Import, read_aux, fetch_seal, import_block,
}
use numen.Chain.Finality.{IsAncestor, IsNumbered, finality_conflicts_iff}
use numen.Chain.Header.{verify_block, verify_block-ok}
use numen.Chain.Inversion.{pre_items, listed}
use numen.Chain.Import.{import_block_verified, import_block_best}

abbrev line : ℕ → Looked
line h = if h == 0 then missing else found (h - 1)

abbrev height : ℕ → ℕ
height h = h - 1

-- Genesis has a header.
genesis_known : line 1 ≡ found 0
genesis_known = refl

line-IsNumbered : IsNumbered line height
line-IsNumbered h p e l = ground (arith, e, l)

finality_conflicts_iff_example :
    (finality_conflicts line 6 5 5 4 3 ≡ done false)
    ↔ (IsAncestor line height 6 4 ⊎ IsAncestor line height 4 5)
finality_conflicts_iff_example = finality_conflicts_iff line height line-IsNumbered 6 5 4 refl

extension_passes : finality_conflicts line 6 5 5 4 3 ≡ done false
unfolding finality_conflicts
extension_passes = refl

-- A rival of block 2 below the finalized block 3.
rival_rejected : finality_conflicts line 20 2 2 4 3 ≡ done true
unfolding finality_conflicts
rival_rejected = refl

abbrev easy : Algorithm
easy = record {
  engine = 7;
  difficulty_of = λ parent inherent. done 5;
  preliminary_verify = λ pre_hash seal. done none;
  break_tie = λ own new. false;
  verify = λ parent pre_hash pre_digest seal difficulty. done true;
  increment = λ total difficulty. total + difficulty;
}

abbrev node : Client
node = record {
  best_chain = done (3, sealed 7 9 ∷ []);
  get_aux = λ hash. done (some hash);
  decode_aux = λ bytes. done (record { difficulty = 5; total_difficulty = bytes * 5 });
  header_of = line;
  finalized_hash = 2;
  finalized_number = 1;
}

abbrev third : Block
third = record {
  hash = 30;
  post_hash = 4;
  number = 3;
  parent_hash = 3;
  logs = pre_runtime 7 6 ∷ [];
  body = some (77 ∷ []);
  post_digests = sealed 7 8 ∷ [];
  skip_execution_checks = false;
  fork_choice = none;
}

abbrev imported : Import
imported = record { aux = record { difficulty = 5; total_difficulty = 20 }; is_best = true }

imports : import_block easy node 0 (done (done tt)) third ≡ done imported
unfolding import_block
imports = refl

import_block_verified_example :
    (s inherent : ℕ) × (rest : List ℕ) × (pre : Option ℕ) × (before : PowAux) × (last
        third.post_digests
      ≡ some (sealed 7 s))
    × (third.body ≡ some (inherent ∷ rest))
    × (pre_items 7 third.logs ≡ listed pre)
    × (easy.difficulty_of third.parent_hash inherent ≡ done imported.aux.difficulty)
    × (easy.verify third.parent_hash third.hash pre s imported.aux.difficulty ≡ done true)
    × ((node.get_aux third.parent_hash ≡ done none) × (before.total_difficulty ≡ 0)
        ⊎ (bytes : ℕ) × (node.get_aux third.parent_hash ≡ done (some bytes))
          × (node.decode_aux bytes ≡ done before))
    × (imported.aux.total_difficulty
        ≡ easy.increment before.total_difficulty imported.aux.difficulty)
import_block_verified_example =
    import_block_verified easy node 0 (done (done tt)) third imported imports

import_block_best_example :
    (IsAncestor line height third.post_hash node.finalized_hash
      ⊎ IsAncestor line height node.finalized_hash third.parent_hash)
    × ((best : ℕ × List DigestItem) × (best_aux : PowAux) × (node.best_chain ≡ done best)
        × (read_aux node best.0 ≡ done best_aux)
        × (best_aux.total_difficulty ≤ imported.aux.total_difficulty))
import_block_best_example =
    import_block_best easy node 0 (done (done tt)) height third imported line-IsNumbered refl refl
      refl refl imports refl

-- The block before its seal is moved, with a header's hash that counts the digest items.
abbrev count : List DigestItem → ℕ
count [] = 30
count (x ∷ xs) = suc (count xs)

abbrev arrived : Block
arrived = record third { logs = pre_runtime 7 6 ∷ sealed 7 8 ∷ []; post_digests = [] }

abbrev checked : Block
checked = record third { hash = 31; post_hash = 32; logs = pre_runtime 7 6 ∷ [] }

verifies : verify_block easy count arrived ≡ done checked
unfolding verify_block
verifies = refl

verify_block-ok_example :
    (s : ℕ) × (arrived.logs ≡ checked.logs ++ sealed 7 s ∷ [])
    × (fetch_seal 7 (last checked.post_digests) checked.hash ≡ done s)
    × (checked.hash ≡ count checked.logs)
    × (checked.post_hash ≡ count arrived.logs)
verify_block-ok_example = verify_block-ok easy count arrived checked verifies
