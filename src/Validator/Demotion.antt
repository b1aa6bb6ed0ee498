-- ===== src/Validator/Demotion.antt =====
-- What the session boundary may do to a lock record (pallets/validator/src/lib.rs): end its active
-- status, and nothing else.
use numen.Prelude.{ℕ, ◌≡◌, refl, ◌∙◌, true, Option, none, some, List, [], ◌∷◌, arith}
use numen.Prelude.Maps.{lookup, keys, lookup-insert, insert-Distinct}
use numen.Prelude.Sets.{Distinct}
use numen.Validator.Defs.State.{LockInfo, KickReason, equivocation, Config, Gates, State}
use numen.Validator.Defs.Calls.{is_active}
use numen.Validator.Defs.Session.{
  kick_validator, kick_all, process_equivocations, count_offline, count_all,
  process_offline_counters, drop_pending_candidate, promote, promote_all, process_reports,
}

-- A lock record but for its status.
abbrev pub terms : Option LockInfo → Option (ℕ × ℕ × ℕ)
terms none = none
terms (some info) = some (info.amount, info.lock_block, info.expiry_block)

pub record Demotes {Ledger : Type 0} (s t : State Ledger) : Type 0 where
  pub same_pending : t.pending ≡ s.pending
  pub same_desired : t.desired ≡ s.desired
  pub same_ledger : t.ledger ≡ s.ledger
  pub same_block : t.block_number ≡ s.block_number
  pub same_exempt : t.exempt ≡ s.exempt
  pub distinct : Distinct (keys s.locks) → Distinct (keys t.locks)
  pub same_terms : (a : ℕ) → terms (lookup a t.locks) ≡ terms (lookup a s.locks)
  pub active_before : (a : ℕ) → is_active t.locks a ≡ true → is_active s.locks a ≡ true

module _ {Ledger : Type 0} where
  pub Demotes-refl : (s : State Ledger) → Demotes s s
  Demotes-refl s = record {
    same_pending = refl;
    same_desired = refl;
    same_ledger = refl;
    same_block = refl;
    same_exempt = refl;
    distinct = λ h. h;
    same_terms = λ a. refl;
    active_before = λ a h. h;
  }

  pub Demotes-trans : {s t u : State Ledger} → Demotes s t → Demotes t u → Demotes s u
  Demotes-trans h k = record {
    same_pending = k.same_pending ∙ h.same_pending;
    same_desired = k.same_desired ∙ h.same_desired;
    same_ledger = k.same_ledger ∙ h.same_ledger;
    same_block = k.same_block ∙ h.same_block;
    same_exempt = k.same_exempt ∙ h.same_exempt;
    distinct = λ d. k.distinct (h.distinct d);
    same_terms = λ a. k.same_terms a ∙ h.same_terms a;
    active_before = λ a p. h.active_before a (k.active_before a p);
  }

  kick_validator-Demotes :
      (cfg : Config) (s : State Ledger) (who : ℕ) (reason : KickReason)
      → Demotes s (kick_validator cfg s who reason)
  unfolding kick_validator is_active
  kick_validator-Demotes cfg s who reason = record {
    same_pending = ground arith;
    same_desired = ground arith;
    same_ledger = ground arith;
    same_block = ground arith;
    same_exempt = ground arith;
    distinct = λ d. grind (arith, insert-Distinct);
    same_terms = λ a. grind (arith, lookup-insert);
    active_before = λ a h. grind (arith, lookup-insert);
  }

  count_offline-Demotes :
      (cfg : Config) (s : State Ledger) (who : ℕ) → Demotes s (count_offline cfg s who)
  unfolding count_offline is_active kick_validator
  count_offline-Demotes cfg s who = record {
    same_pending = ground arith;
    same_desired = ground arith;
    same_ledger = ground arith;
    same_block = ground arith;
    same_exempt = ground arith;
    distinct = λ d. grind (arith, insert-Distinct);
    same_terms = λ a. grind (arith, lookup-insert);
    active_before = λ a h. grind (arith, lookup-insert);
  }

  drop_pending_candidate-Demotes :
      (s : State Ledger) (who : ℕ) → Demotes s (drop_pending_candidate s who)
  unfolding drop_pending_candidate is_active
  drop_pending_candidate-Demotes s who = record {
    same_pending = ground arith;
    same_desired = ground arith;
    same_ledger = ground arith;
    same_block = ground arith;
    same_exempt = ground arith;
    distinct = λ d. grind (arith, insert-Distinct);
    same_terms = λ a. grind (arith, lookup-insert);
    active_before = λ a h. grind (arith, lookup-insert);
  }

  kick_all-Demotes : (cfg : Config) (s : State Ledger) (l : List ℕ) → Demotes s (kick_all cfg s l)
  unfolding kick_all
  kick_all-Demotes cfg s [] = Demotes-refl s
  kick_all-Demotes cfg s (who ∷ rest) =
      Demotes-trans (kick_validator-Demotes cfg s who equivocation)
        (kick_all-Demotes cfg (kick_validator cfg s who equivocation) rest)

  count_all-Demotes : (cfg : Config) (s : State Ledger) (l : List ℕ) → Demotes s (count_all cfg s l)
  unfolding count_all
  count_all-Demotes cfg s [] = Demotes-refl s
  count_all-Demotes cfg s (who ∷ rest) =
      Demotes-trans (count_offline-Demotes cfg s who)
        (count_all-Demotes cfg (count_offline cfg s who) rest)

  Demotes-flags :
      (s : State Ledger) (reported flagged : List ℕ)
      → Demotes s (record s { offline_now = reported; equivocations = flagged })
  Demotes-flags s reported flagged = record {
    same_pending = refl;
    same_desired = refl;
    same_ledger = refl;
    same_block = refl;
    same_exempt = refl;
    distinct = λ h. h;
    same_terms = λ a. refl;
    active_before = λ a h. h;
  }

  pub process_equivocations-Demotes :
      (cfg : Config) (s : State Ledger) → Demotes s (process_equivocations cfg s)
  unfolding process_equivocations
  process_equivocations-Demotes cfg s =
      Demotes-trans (Demotes-flags s s.offline_now [])
        (kick_all-Demotes cfg (record s { equivocations = [] }) s.equivocations)

  process_offline_counters-Demotes :
      (cfg : Config) (s : State Ledger) → Demotes s (process_offline_counters cfg s)
  unfolding process_offline_counters
  process_offline_counters-Demotes cfg s =
      let counted = count_all cfg s s.desired in
      Demotes-trans (count_all-Demotes cfg s s.desired)
        (Demotes-flags counted [] counted.equivocations)

  -- The reports of a session end active statuses, and change no other part of a lock record.
  pub process_reports-Demotes :
      (cfg : Config) (s : State Ledger) → Demotes s (process_reports cfg s)
  unfolding process_reports
  process_reports-Demotes cfg s =
      Demotes-trans (process_equivocations-Demotes cfg s)
        (process_offline_counters-Demotes cfg (process_equivocations cfg s))

  pub promote-Demotes :
      (cfg : Config) (gates : Gates) (p : State Ledger × List ℕ) (who : ℕ)
      → Demotes p.0 (promote cfg gates p who).0
  unfolding promote
  promote-Demotes cfg gates (s, next) who =
      grind (arith, Demotes-refl, drop_pending_candidate-Demotes)

  pub promote_all-Demotes :
      (cfg : Config) (gates : Gates) (p : State Ledger × List ℕ) (l : List ℕ)
      → Demotes p.0 (promote_all cfg gates p l).0
  unfolding promote_all
  promote_all-Demotes cfg gates p [] = Demotes-refl p.0
  promote_all-Demotes cfg gates p (who ∷ rest) =
      Demotes-trans (promote-Demotes cfg gates p who)
        (promote_all-Demotes cfg gates (promote cfg gates p who) rest)
