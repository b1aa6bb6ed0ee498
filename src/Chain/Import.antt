-- ===== src/Chain/Import.antt =====
-- consensus/sc-consensus-pow/src/lib.rs: what an imported block has passed, and when it becomes the best
-- one.
use numen.Prelude.{
  ℕ, suc, ◌≤◌, ◌≡◌, ◌⊎◌, refl, ap, subst, ◌∙◌, if◌then◌else◌, Bool, true, false, Option, some, none,
  List, ◌∷◌, arith,
}
use numen.Chain.Defs.{
  Outcome, done, DigestItem, sealed, PowAux, Algorithm, Client, Block, Import, read_aux, fetch_seal,
  find_pre_digest, last, timestamp_inherent, check_body, require, heavier, fork_choice, chosen,
  import_block, finality_conflicts, invalid_seal,
}
use numen.Chain.Inversion.{
  bind_elim, require-true, done-injective, pre_items, listed, fetch_seal-done,
  timestamp_inherent-done, find_pre_digest-done, read_aux-done,
}
use numen.Chain.Finality.{IsAncestor, IsNumbered, finality_conflicts_iff}

-- What the steps of `import_block` found on the way to its result.
pub record Passed (pow : Algorithm) (node : Client) (check_after : ℕ)
    (answer : Outcome (Outcome (Unit {0}))) (block : Block) (result : Import) : Type 0 where
  pub best : ℕ × List DigestItem
  pub best_aux : PowAux
  pub before : PowAux
  pub seal : ℕ
  pub inherent : ℕ
  pub pre_digest : Option ℕ
  pub best_found : node.best_chain ≡ done best
  pub best_aux_read : read_aux node best.0 ≡ done best_aux
  pub before_read : read_aux node block.parent_hash ≡ done before
  pub body_checked : check_body check_after answer block block.body ≡ done tt
  pub seal_fetched : fetch_seal pow.engine (last block.post_digests) block.hash ≡ done seal
  pub inherent_taken : timestamp_inherent block.body ≡ done inherent
  pub difficulty_due : pow.difficulty_of block.parent_hash inherent ≡ done result.aux.difficulty
  pub pre_digest_found : find_pre_digest pow.engine none block.logs ≡ done pre_digest
  pub verified :
      pow.verify block.parent_hash block.hash pre_digest seal result.aux.difficulty ≡ done true
  pub total :
      result.aux.total_difficulty ≡ pow.increment before.total_difficulty result.aux.difficulty
  pub choice :
      chosen block.fork_choice
        (fork_choice pow node best block seal result.aux.total_difficulty best_aux.total_difficulty)
      ≡ done result.is_best

chosen-none :
    (given : Option Bool) (choice : Outcome Bool) {b : Bool}
    → given ≡ none
    → chosen given choice ≡ done b
    → choice ≡ done b
chosen-none none choice e h = h
chosen-none (some g) choice e h = cc

module _ (pow : Algorithm) (node : Client) (check_after : ℕ)
    (answer : Outcome (Outcome (Unit {0}))) where
  pub import_block-Passed :
      (block : Block) (result : Import)
      → import_block pow node check_after answer block ≡ done result
      → Passed pow node check_after answer block result
  unfolding import_block
  import_block-Passed block result h = bind_elim node.best_chain _ h λ best e1 h1.
      bind_elim (read_aux node best.0) _ h1 λ best_aux e2 h2.
        bind_elim (read_aux node block.parent_hash) _ h2 λ before e3 h3.
          bind_elim (check_body check_after answer block block.body) _ h3 λ u e4 h4.
            bind_elim (fetch_seal pow.engine (last block.post_digests) block.hash) _ h4 λ s e5 h5.
              bind_elim (timestamp_inherent block.body) _ h5 λ inherent e6 h6.
                bind_elim (pow.difficulty_of block.parent_hash inherent) _ h6 λ difficulty e7 h7.
                  bind_elim (find_pre_digest pow.engine none block.logs) _ h7 λ pre e8 h8.
                    bind_elim (pow.verify block.parent_hash block.hash pre s difficulty) _ h8
                      λ valid e9 h9. bind_elim (require valid invalid_seal) _ h9 λ v e10 h10.
                        bind_elim _ _ h10 λ b e11 h11.
                          subst (λ r. Passed pow node check_after answer block r)
                            (done-injective h11)
                            (record {
                              best = best;
                              best_aux = best_aux;
                              before = before;
                              seal = s;
                              inherent = inherent;
                              pre_digest = pre;
                              best_found = e1;
                              best_aux_read = e2;
                              before_read = e3;
                              body_checked = e4;
                              seal_fetched = e5;
                              inherent_taken = e6;
                              difficulty_due = e7;
                              pre_digest_found = e8;
                              verified = e9 ∙ ap done (require-true valid invalid_seal v e10);
                              total = refl;
                              choice = e11;
                            })

  -- The last item of an imported block's post-digests is a seal of the proof-of-work engine. The algorithm
  -- verified it for the parent, the block's hash and the only payload of the engine among the header's
  -- pre-runtime items, or none where there is none, against the difficulty that it asks for the
  -- timestamp inherent, the first extrinsic of the block's own body. The total difficulty recorded
  -- is this difficulty on top of the parent's total: that of the parent's stored record, or 0 where
  -- none is stored.
  pub import_block_verified :
      (block : Block) (result : Import)
      → import_block pow node check_after answer block ≡ done result
      → (s inherent : ℕ) × (rest : List ℕ) × (pre : Option ℕ) × (before : PowAux) × (last
            block.post_digests
          ≡ some (sealed pow.engine s))
        × (block.body ≡ some (inherent ∷ rest))
        × (pre_items pow.engine block.logs ≡ listed pre)
        × (pow.difficulty_of block.parent_hash inherent ≡ done result.aux.difficulty)
        × (pow.verify block.parent_hash block.hash pre s result.aux.difficulty ≡ done true)
        × ((node.get_aux block.parent_hash ≡ done none) × (before.total_difficulty ≡ 0)
            ⊎ (bytes : ℕ) × (node.get_aux block.parent_hash ≡ done (some bytes))
              × (node.decode_aux bytes ≡ done before))
        × (result.aux.total_difficulty
            ≡ pow.increment before.total_difficulty result.aux.difficulty)
  import_block_verified block result h =
      let p = import_block-Passed block result h in
      let (rest, body) = timestamp_inherent-done block.body p.inherent_taken in
      (
        p.seal,
        p.inherent,
        rest,
        p.pre_digest,
        p.before,
        fetch_seal-done pow.engine (last block.post_digests) block.hash p.seal_fetched,
        body,
        find_pre_digest-done pow.engine none block.logs p.pre_digest_found,
        p.difficulty_due,
        p.verified,
        read_aux-done node block.parent_hash p.before_read,
        p.total,
      )

  heavier-le :
      (best : ℕ × List DigestItem) (s total best_total : ℕ)
      → heavier pow best s total best_total ≡ done true
      → best_total ≤ total
  unfolding heavier
  heavier-le best s total best_total h = ground arith

  fork_choice-true :
      (best : ℕ × List DigestItem) (block : Block) (s total best_total : ℕ)
      → fork_choice pow node best block s total best_total ≡ done true
      → (finality_conflicts node.header_of block.post_hash block.number block.parent_hash
            node.finalized_hash node.finalized_number
          ≡ done false)
        × (best_total ≤ total)
  unfolding fork_choice
  fork_choice-true best block s total best_total h = bind_elim _ _ h chosen_best
    where
      chosen_best :
          (b : Bool)
          → finality_conflicts node.header_of block.post_hash block.number block.parent_hash
              node.finalized_hash node.finalized_number
            ≡ done b
          → (if b then done false else heavier pow best s total best_total) ≡ done true
          → (finality_conflicts node.header_of block.post_hash block.number block.parent_hash
                node.finalized_hash node.finalized_number
              ≡ done false)
            × (best_total ≤ total)
      chosen_best true e r = cc
      chosen_best false e r = (e, heavier-le best s total best_total r)

  -- Where above genesis heights grow by one from a parent to its child, the imported block and the finalized
  -- one included, a block that comes without a fork choice and is imported as the best one is the
  -- finalized block or an ancestor of it, or stands above it; and its total difficulty is at
  -- least that of the best block before it.
  pub import_block_best :
      (number : ℕ → ℕ) (block : Block) (result : Import)
      → IsNumbered node.header_of number
      → number block.post_hash ≡ block.number
      → block.number ≡ suc (number block.parent_hash)
      → number node.finalized_hash ≡ node.finalized_number
      → block.fork_choice ≡ none
      → import_block pow node check_after answer block ≡ done result
      → result.is_best ≡ true
      → (IsAncestor node.header_of number block.post_hash node.finalized_hash
          ⊎ IsAncestor node.header_of number node.finalized_hash block.parent_hash)
        × ((best : ℕ × List DigestItem) × (best_aux : PowAux) × (node.best_chain ≡ done best)
            × (read_aux node best.0 ≡ done best_aux)
            × (best_aux.total_difficulty ≤ result.aux.total_difficulty))
  import_block_best number block result numbered at_number above_parent at_finalized free h
        is_best =
      let p = import_block-Passed block result h in
      let (clear, heavy) =
        fork_choice-true p.best block p.seal result.aux.total_difficulty p.best_aux.total_difficulty
          (chosen-none block.fork_choice _ free p.choice ∙ ap done is_best) in
      let conflict_free =
        finality_conflicts_iff node.header_of number numbered block.post_hash block.parent_hash
          node.finalized_hash (at_number ∙ above_parent) in
      (
        conflict_free.0 (rw (at_number, at_finalized) clear),
        (p.best, p.best_aux, p.best_found, p.best_aux_read, heavy),
      )
