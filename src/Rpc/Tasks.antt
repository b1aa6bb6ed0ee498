-- ===== src/Rpc/Tasks.antt =====
-- node/src/mining_rpc.rs: the calls of external miners. The subscription is the list of the messages that
-- are sent over it.
use numen.Prelude.{ℕ, Bool, Option, none, some, List}

pub record MiningTask : Type 0 where
  pub pre_hash : ℕ
  pub difficulty : ℕ
  pub miner : List ℕ
  pub protocol : List ℕ

-- What the worker shows, and whether the blocking pool runs a submission to its end.
pub record ExternalMiner : Type 0 where
  pub current_task : Option (ℕ × ℕ)
  pub submit_seal : ℕ → List ℕ → Option Bool

pub record Mining : Type 0 where
  pub handle : ExternalMiner
  pub miner : List ℕ
  pub protocol : List ℕ

pub data RpcError : Type 0 where
  no_task submit_failed : RpcError

pub data RpcResult {ℓ} (A : Type ℓ) : Type ℓ where
  ok : A → RpcResult A
  failed : RpcError → RpcResult A

abbrev code : RpcError → ℕ
code no_task = 9001
code submit_failed = 9002

abbrev task_from : Mining → Option (ℕ × ℕ) → Option MiningTask
task_from mining none = none
task_from mining (some (pre_hash, difficulty)) = some (record {
  pre_hash = pre_hash;
  difficulty = difficulty;
  miner = mining.miner;
  protocol = mining.protocol;
})

unfoldable pub task_of : Mining → Option MiningTask
task_of mining = task_from mining mining.handle.current_task

abbrev ok_or {ℓ} : {A : Type ℓ} → Option A → RpcError → RpcResult A
ok_or none e = failed e
ok_or (some a) e = ok a

unfoldable pub get_task : Mining → RpcResult MiningTask
unfolding task_of
get_task mining = ok_or (task_of mining) no_task

unfoldable pub submit_seal : Mining → ℕ → List ℕ → RpcResult Bool
submit_seal mining pre_hash seal = ok_or (mining.handle.submit_seal pre_hash seal) submit_failed
