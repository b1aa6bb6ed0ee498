-- ===== src/Mining/Tasks.antt =====
-- consensus/sc-consensus-pow/src/worker.rs: the live tasks stand on one head and fit their bound.
use numen.Prelude.{
  ℕ, ◌≤◌, ◌<◌, ◌≡◌, ◌≢◌, refl, Bool, true, false, Option, some, none, List, [], ◌∷◌, ◌++◌, arith,
  length, u64_mod, if◌then◌else◌,
}
use numen.Mining.Defs.{
  MiningBuild, Handle, new, max_live_tasks, on_major_syncing, back, head_of, best_hash, metadata,
  is_head, evict, on_build, find, remove, take_submission, taken_from, finish_submission,
}

module _ {Proposal : Type 0} where
  length-evict : (bs : List (MiningBuild Proposal)) → length (evict bs) ≤ max_live_tasks
  unfolding evict
  length-evict [] = omega arith
  length-evict (b ∷ bs) = ground (arith, length-evict bs)

  length-remove : (p : ℕ) (bs : List (MiningBuild Proposal)) → length (remove p bs) ≤ length bs
  unfolding remove
  length-remove p [] = omega arith
  length-remove p (b ∷ bs) = ground (arith, length-remove p bs)

  back-append :
      (bs : List (MiningBuild Proposal)) (v : MiningBuild Proposal) → back (bs ++ v ∷ []) ≡ some v
  back-append [] v = refl
  back-append (b ∷ []) v = refl
  back-append (b ∷ c ∷ bs) v = back-append (c ∷ bs) v

  back-evict :
      (bs : List (MiningBuild Proposal)) (v : MiningBuild Proposal)
      → back (evict (bs ++ v ∷ [])) ≡ some v
  unfolding evict
  back-evict [] v = refl
  back-evict (b ∷ bs) v = ground (arith, back-evict bs v, back-append (b ∷ bs) v)

  -- Every live build stands on one head.
  abbrev pub StandsOn : ℕ → List (MiningBuild Proposal) → Type 0
  StandsOn head [] = Unit {0}
  StandsOn head (b ∷ bs) = (b.metadata.best_hash ≡ head) × StandsOn head bs

  StandsOn-append :
      (head : ℕ) (bs : List (MiningBuild Proposal)) (v : MiningBuild Proposal)
      → StandsOn head bs
      → v.metadata.best_hash ≡ head
      → StandsOn head (bs ++ v ∷ [])
  StandsOn-append head [] v s e = (e, tt)
  StandsOn-append head (b ∷ bs) v (e', s) e = (e', StandsOn-append head bs v s e)

  StandsOn-evict :
      (head : ℕ) (bs : List (MiningBuild Proposal)) → StandsOn head bs → StandsOn head (evict bs)
  unfolding evict
  StandsOn-evict head [] s = s
  StandsOn-evict head (b ∷ bs) s = ground (arith, StandsOn-evict head bs s.1)

  StandsOn-remove :
      (head p : ℕ) (bs : List (MiningBuild Proposal))
      → StandsOn head bs
      → StandsOn head (remove p bs)
  unfolding remove
  StandsOn-remove head p [] s = s
  StandsOn-remove head p (b ∷ bs) s = ground (arith, StandsOn-remove head p bs s.1)

  StandsOn-head :
      (head hash : ℕ) (bs : List (MiningBuild Proposal))
      → StandsOn head bs
      → is_head (head_of (back bs)) hash ≡ true
      → head ≡ hash
  StandsOn-head head hash [] s h = cc
  StandsOn-head head hash (b ∷ []) s h = ground arith
  StandsOn-head head hash (b ∷ c ∷ bs) s h = StandsOn-head head hash (c ∷ bs) s.1 h

-- At most `MAX_LIVE_TASKS` builds are live, and they all stand on one head.
pub record IsLive {Proposal : Type 0} (h : Handle Proposal) : Type 0 where
  pub bounded : length h.build ≤ max_live_tasks
  pub head : ℕ
  pub one_head : StandsOn head h.build

-- A step of any of the threads that share the worker.
pub data Step {Proposal : Type 0} (h : Handle Proposal) : Handle Proposal → Type 0 where
  syncing : Step h (on_major_syncing h)
  building : (value : MiningBuild Proposal) → Step h (on_build h value)
  taking : (pre_hash seal : ℕ) → Step h (take_submission h pre_hash seal)
  finishing : (imported : Bool) → Step h (finish_submission h imported)

pub data Reach {Proposal : Type 0} (h : Handle Proposal) : Handle Proposal → Type 0 where
  here : Reach h h
  next : {t u : Handle Proposal} → Reach h t → Step t u → Reach h u

module _ {Proposal : Type 0} where
  on_build-IsLive :
      (h : Handle Proposal) (value : MiningBuild Proposal) → IsLive h → IsLive (on_build h value)
  unfolding on_build best_hash
  on_build-IsLive h value live =
      let head = value.metadata.best_hash in
      let kept = if is_head (best_hash h) head then h.build else [] in
      record {
        bounded = length-evict (kept ++ value ∷ []);
        head = head;
        one_head =
            StandsOn-evict head (kept ++ value ∷ [])
              (StandsOn-append head kept value (stands (is_head (best_hash h) head) refl) refl);
      }
    where
      stands :
          (b : Bool)
          → is_head (head_of (back h.build)) value.metadata.best_hash ≡ b
          → StandsOn value.metadata.best_hash (if b then h.build else [])
      stands true e =
          rw (← StandsOn-head live.head value.metadata.best_hash h.build live.one_head e)
            live.one_head
      stands false e = tt

  taken-IsLive :
      (h : Handle Proposal) (p seal : ℕ) (found : Option (MiningBuild Proposal))
      → IsLive h
      → IsLive (taken_from h p seal found)
  taken-IsLive h p seal none live = live
  taken-IsLive h p seal (some b) live = record {
    bounded = omega (arith, live.bounded, length-remove p h.build);
    head = live.head;
    one_head = StandsOn-remove live.head p h.build live.one_head;
  }

  finish-IsLive :
      (h : Handle Proposal) (imported : Bool) → IsLive h → IsLive (finish_submission h imported)
  unfolding finish_submission
  finish-IsLive h true live = record { bounded = omega arith; head = 0; one_head = tt }
  finish-IsLive h false live = live

  Step-IsLive : (h t : Handle Proposal) → Step h t → IsLive h → IsLive t
  unfolding on_major_syncing take_submission
  Step-IsLive h t syncing live = record { bounded = omega arith; head = 0; one_head = tt }
  Step-IsLive h t (building value) live = on_build-IsLive h value live
  Step-IsLive h t (taking p seal) live = taken-IsLive h p seal (find p h.build) live
  Step-IsLive h t (finishing imported) live = finish-IsLive h imported live

  -- However the threads interleave, from the new worker on, at most 256 builds are live and all of
  -- them stand on one head.
  pub Reach-IsLive : {t : Handle Proposal} → Reach new t → IsLive t
  Reach-IsLive here = record { bounded = omega arith; head = 0; one_head = tt }
  Reach-IsLive (next {t = t} {u = u} r st) = Step-IsLive t u st (Reach-IsLive r)

  -- A build that is handed in is what miners get at once: the worker's best hash and metadata are those
  -- of that build, and its version has moved, if it is a 64-bit number.
  pub on_build-metadata :
      (h : Handle Proposal) (value : MiningBuild Proposal)
      → h.version < u64_mod
      → (metadata (on_build h value) ≡ some value.metadata)
        × (best_hash (on_build h value) ≡ some value.metadata.best_hash)
        × ((on_build h value).version ≢ h.version)
  unfolding on_build metadata best_hash
  on_build-metadata h value v =
      let kept =
        if is_head (head_of (back h.build)) value.metadata.best_hash then h.build else [] in
      rw (back-evict kept value) (refl, refl, λ e. ground arith)
