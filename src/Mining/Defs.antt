-- ===== src/Mining/Defs.antt =====
-- consensus/sc-consensus-pow/src/worker.rs: `MiningHandle`. Its locks make each method a step on the
-- shared state, except `submit`, which holds no lock between its steps: it is three steps here.
use numen.Prelude.{
  ℕ, ◌+◌, ◌%◌, Bool, false, Option, none, some, List, [], ◌∷◌, ◌++◌, ltb, ◌==◌, if◌then◌else◌,
  length, u64_mod,
}
use numen.Chain.Defs.{Outcome, done, failed, Algorithm}

pub record MiningMetadata : Type 0 where
  pub best_hash : ℕ
  pub pre_hash : ℕ
  pub pre_runtime : Option ℕ
  pub difficulty : ℕ

-- A task, with its proposal.
pub record MiningBuild (Proposal : Type 0) : Type 0 where
  pub metadata : MiningMetadata
  pub proposal : Proposal

abbrev pub max_live_tasks : ℕ
max_live_tasks = 256

-- The version, the live builds from the oldest on, and the blocks handed to the importer with their
-- seals, the latest first.
pub record Handle (Proposal : Type 0) : Type 0 where
  pub version : ℕ
  pub build : List (MiningBuild Proposal)
  pub submitted : List (MiningBuild Proposal × ℕ)

abbrev pub is_head : Option ℕ → ℕ → Bool
is_head none hash = false
is_head (some other) hash = other == hash

abbrev pub accepted : Outcome Bool → Bool
accepted (done verdict) = verdict
accepted (failed e) = false

module _ {Proposal : Type 0} where
  -- `fetch_add` on a usize, of 64 bits on the node's machines.
  unfoldable pub increment_version : Handle Proposal → Handle Proposal
  increment_version h = record h { version = (h.version + 1) % u64_mod }

  -- `MiningHandle::new`.
  abbrev pub new : Handle Proposal
  new = record { version = 0; build = []; submitted = [] }

  unfoldable pub on_major_syncing : Handle Proposal → Handle Proposal
  unfolding increment_version
  on_major_syncing h = increment_version (record h { build = [] })

  -- `back` of the queue.
  abbrev pub back : List (MiningBuild Proposal) → Option (MiningBuild Proposal)
  back [] = none
  back (b ∷ []) = some b
  back (b ∷ c ∷ bs) = back (c ∷ bs)

  abbrev pub head_of : Option (MiningBuild Proposal) → Option ℕ
  head_of none = none
  head_of (some b) = some b.metadata.best_hash

  -- `best_hash`.
  unfoldable pub best_hash : Handle Proposal → Option ℕ
  best_hash h = head_of (back h.build)

  abbrev pub metadata_of : Option (MiningBuild Proposal) → Option MiningMetadata
  metadata_of none = none
  metadata_of (some b) = some b.metadata

  -- `metadata`.
  unfoldable pub metadata : Handle Proposal → Option MiningMetadata
  metadata h = metadata_of (back h.build)

  -- The `while` loop of `on_build`: it pops from the front as long as the queue is too long.
  unfoldable pub evict : List (MiningBuild Proposal) → List (MiningBuild Proposal)
  evict [] = []
  evict (b ∷ bs) =
      let rest = evict bs in if ltb max_live_tasks (length (b ∷ bs)) then rest else b ∷ bs

  unfoldable pub on_build : Handle Proposal → MiningBuild Proposal → Handle Proposal
  unfolding increment_version evict best_hash
  on_build h value =
      let kept = if is_head (best_hash h) value.metadata.best_hash then h.build else [] in
      increment_version (record h { build = evict (kept ++ value ∷ []) })

  -- `iter().find` by the pre-hash.
  unfoldable pub find : ℕ → List (MiningBuild Proposal) → Option (MiningBuild Proposal)
  find pre_hash [] = none
  find pre_hash (b ∷ bs) =
      let rest = find pre_hash bs in if b.metadata.pre_hash == pre_hash then some b else rest

  -- `remove` at the position of the pre-hash.
  unfoldable pub remove : ℕ → List (MiningBuild Proposal) → List (MiningBuild Proposal)
  remove pre_hash [] = []
  remove pre_hash (b ∷ bs) =
      let rest = remove pre_hash bs in if b.metadata.pre_hash == pre_hash then bs else b ∷ rest

  -- The first step of `submit`: the task is looked up and its seal is verified.
  abbrev pub verify_for : Algorithm → ℕ → Option (MiningBuild Proposal) → Bool
  verify_for pow seal none = false
  verify_for pow seal (some b) = accepted (
      pow.verify b.metadata.best_hash b.metadata.pre_hash b.metadata.pre_runtime seal
        b.metadata.difficulty)

  unfoldable pub verify_submission : Algorithm → Handle Proposal → ℕ → ℕ → Bool
  unfolding find
  verify_submission pow h pre_hash seal = verify_for pow seal (find pre_hash h.build)

  abbrev pub taken_from : Handle Proposal → ℕ → ℕ → Option (MiningBuild Proposal) → Handle Proposal
  taken_from h pre_hash seal none = h
  taken_from h pre_hash seal (some b) = record h {
    version = (h.version + 1) % u64_mod;
    build = remove pre_hash h.build;
    submitted = (b, seal) ∷ h.submitted;
  }

  -- The second step: the task leaves the queue and goes to the importer; where another submission has
  -- taken it, nothing happens.
  unfoldable pub take_submission : Handle Proposal → ℕ → ℕ → Handle Proposal
  unfolding find remove
  take_submission h pre_hash seal = taken_from h pre_hash seal (find pre_hash h.build)

  -- The third step, with the importer's answer: after a success every build left is dropped.
  unfoldable pub finish_submission : Handle Proposal → Bool → Handle Proposal
  unfolding increment_version
  finish_submission h imported = if imported then increment_version (record h { build = [] }) else h

  abbrev pub landed :
      (MiningBuild Proposal → ℕ → Bool)
      → Handle Proposal
      → ℕ
      → ℕ
      → Option (MiningBuild Proposal)
      → Handle Proposal × Bool
  landed import_block h pre_hash seal none = (h, false)
  landed import_block h pre_hash seal (some b) = (
    finish_submission (take_submission h pre_hash seal) (import_block b seal),
    import_block b seal,
  )

  -- `submit` where no other thread runs between its steps; `import_block` is the importer's answer.
  unfoldable pub submit :
      Algorithm
      → (MiningBuild Proposal → ℕ → Bool)
      → Handle Proposal
      → ℕ
      → ℕ
      → Handle Proposal × Bool
  unfolding verify_submission take_submission finish_submission
  submit pow import_block h pre_hash seal =
      if verify_submission pow h pre_hash seal
      then landed import_block h pre_hash seal (find pre_hash h.build)
      else (h, false)
