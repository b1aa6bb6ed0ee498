-- ===== src/Mining/Tests.antt =====
-- consensus/sc-consensus-pow/src/worker.rs on small inputs.
use numen.Prelude.{ℕ, ◌+◌, ◌<◌, ◌≡◌, refl, true, false, none, [], ◌∷◌, arith}
use numen.Chain.Defs.{done, Algorithm}
use numen.Mining.Defs.{MiningBuild, Handle, new, on_build, take_submission, submit}
use numen.Mining.Tasks.{IsLive, building, taking, Reach, here, next, Reach-IsLive}
use numen.Mining.Waiter.{Waiter, tick, pending, poll_next, poll_next_wakes}

abbrev easy : Algorithm
easy = record {
  engine = 7;
  difficulty_of = λ parent inherent. done 5;
  preliminary_verify = λ pre_hash seal. done none;
  break_tie = λ own other. false;
  verify = λ parent pre_hash pre_digest seal difficulty. done true;
  increment = λ total difficulty. total + difficulty;
}

-- A task on head 1 with a pre-hash, whose proposal is a number.
abbrev task : ℕ → MiningBuild ℕ
task pre_hash = record {
  metadata = record { best_hash = 1; pre_hash = pre_hash; pre_runtime = none; difficulty = 5 };
  proposal = pre_hash;
}

abbrev two : Handle ℕ
two = on_build (on_build new (task 10)) (task 11)

history : Reach new (take_submission two 10 3)
history = next (next (next here (building (task 10))) (building (task 11))) (taking 10 3)

Reach-IsLive_example : IsLive (take_submission two 10 3)
Reach-IsLive_example = Reach-IsLive history

small : two.version < 5
unfolding on_build
small = omega arith

one_left : (take_submission two 10 3).build ≡ task 11 ∷ []
unfolding on_build take_submission
one_left = refl

submits : (submit easy (λ b seal. true) two 10 3).1 ≡ true
unfolding on_build submit
submits = refl

-- A poll at time 100 with a timeout of 1000, nothing queued and no delay running.
abbrev idle : Waiter
idle = record { queued = 0; is_closed = false; inner_delay = none }

idle_pending : (poll_next 1000 idle 100).1 ≡ pending
unfolding poll_next
idle_pending = refl

poll_next_wakes_example :
    (poll_next 1000 (record (poll_next 1000 idle 100).0 { queued = 0 }) 1200).1 ≡ tick
poll_next_wakes_example =
    poll_next_wakes 1000 idle 100 1200 0 refl (omega arith) (omega arith) idle_pending
