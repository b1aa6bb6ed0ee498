-- ===== src/Forward/Route.antt =====
-- node/src/eth_forward.rs: the methods, the side of the switch that a block lies on, and the calls.
use Prim.Native.String.{String, len}
use numen.Prelude.{
  ℕ, ◌-◌, Bool, true, false, Option, none, some, List, [], ◌∷◌, ltb, leb, ◌==◌, if◌then◌else◌,
}
use numen.Forward.Values.{
  Value, Items, Fields, null, scalar, string, array, object, nil, item, end, field, same, get,
  insert, nth, append, parse_quantity, quantity, u64_max,
}

pub data Route : Type 0 where
  head hash logs : Route
  block : ℕ → Route

abbrev pub methods : List (String × Route)
methods =
    ("eth_accounts", head)
    ∷ ("eth_blockNumber", head)
    ∷ ("eth_call", block 1)
    ∷ ("eth_chainId", head)
    ∷ ("eth_estimateGas", block 1)
    ∷ ("eth_feeHistory", head)
    ∷ ("eth_gasPrice", head)
    ∷ ("eth_getBalance", block 1)
    ∷ ("eth_getBlockByHash", hash)
    ∷ ("eth_getBlockByNumber", block 0)
    ∷ ("eth_getBlockReceipts", block 0)
    ∷ ("eth_getBlockTransactionCountByHash", hash)
    ∷ ("eth_getBlockTransactionCountByNumber", block 0)
    ∷ ("eth_getCode", block 1)
    ∷ ("eth_getLogs", logs)
    ∷ ("eth_getStorageAt", block 2)
    ∷ ("eth_getTransactionByBlockHashAndIndex", hash)
    ∷ ("eth_getTransactionByBlockNumberAndIndex", block 0)
    ∷ ("eth_getTransactionByHash", hash)
    ∷ ("eth_getTransactionCount", block 1)
    ∷ ("eth_getTransactionReceipt", hash)
    ∷ ("eth_maxPriorityFeePerGas", head)
    ∷ ("eth_sendRawTransaction", head)
    ∷ ("eth_sendTransaction", head)
    ∷ ("eth_syncing", head)
    ∷ ("net_listening", head)
    ∷ ("net_peerCount", head)
    ∷ ("net_version", head)
    ∷ ("web3_clientVersion", head)
    ∷ []

pub data Side : Type 0 where
  revive frontier by_hash : Side

abbrev side_of_number : Option ℕ → ℕ → Side
side_of_number none switch = revive
side_of_number (some number) switch = if ltb number switch then frontier else revive

abbrev side_of_text : String → ℕ → Side
side_of_text text switch =
    if same text "earliest"
    then frontier
    else if len text == 66
    then by_hash
    else side_of_number (parse_quantity text) switch

abbrev contains_key : String → Fields → Bool
contains_key key end = false
contains_key key (field name value rest) =
    let later = contains_key key rest in if same name key then true else later

unfoldable mutual
  pub side : Value → ℕ → Side
  side (string text) switch = side_of_text text switch
  side (object fields) switch =
      if contains_key "blockHash" fields then by_hash else side_field fields switch
  side null switch = revive
  side (scalar n) switch = revive
  side (array items) switch = revive

  -- The side of the field "blockNumber".
  pub side_field : Fields → ℕ → Side
  side_field end switch = revive
  side_field (field name value rest) switch =
      let here = side value switch in
      let later = side_field rest switch in if same name "blockNumber" then here else later

abbrev pub side_of : Option Value → ℕ → Side
side_of none switch = revive
side_of (some value) switch = side value switch

abbrev or_max : Option ℕ → ℕ
or_max none = u64_max
or_max (some n) = n

unfoldable pub number : Option Value → ℕ
number (some (string text)) = if same text "earliest" then 0 else or_max (parse_quantity text)
number _ = u64_max

-- What a server answers: a value, an error that it sent, or a failure to reach it.
pub data Answer : Type 0 where
  value : Value → Answer
  call_error : ℕ → Answer
  unreachable : ℕ → Answer

pub data Reply : Type 0 where
  reply : Value → Reply
  sent_error : ℕ → Reply
  internal_error : ℕ → Reply

abbrev pub upstream_error : Answer → Reply
upstream_error (value v) = reply v
upstream_error (call_error e) = sent_error e
upstream_error (unreachable e) = internal_error e

abbrev pub Server : Type 0
Server = String → Items → Answer

-- The two servers.
pub record Forwarder : Type 0 where
  pub eth_rpc : Server
  pub frozen : Option Server

abbrev pub get_logs : String
get_logs = "eth_getLogs"

-- Frontier's answer where eth-rpc has none.
abbrev unless_found : Answer → Answer → Answer
unless_found (value null) other = other
unless_found (call_error e) other = other
unless_found answer other = answer

abbrev unless_logs : Answer → Answer → Answer
unless_logs (value (array nil)) other = other
unless_logs (call_error e) other = other
unless_logs answer other = answer

-- The logs of both sides, the early ones first; the first error is the answer.
abbrev joined : Answer → Answer → Answer
joined (value (array early)) (value (array late)) = value (array (append early late))
joined (value early) (value late) = value late
joined (value early) late = late
joined early late = early

module _ (servers : Forwarder) where
  open servers use {eth_rpc, frozen}

  abbrev bounded : Server → Items → Fields → ℕ → Answer
  bounded old params filter switch =
      if ltb (number (get "toBlock" filter)) switch
      then old get_logs params
      else if leb switch (number (get "fromBlock" filter))
      then eth_rpc get_logs params
      else (joined
          (old get_logs (item (object (insert "toBlock" (quantity (switch - 1)) filter)) nil))
          (eth_rpc get_logs (item (object (insert "fromBlock" (quantity switch) filter)) nil)))

  abbrev pub split_logs : Option Server → Option Value → Items → ℕ → Answer
  split_logs (some old) (some (object filter)) params switch =
      if contains_key "blockHash" filter
      then unless_logs (eth_rpc get_logs params) (old get_logs params)
      else bounded old params filter switch
  split_logs _ _ params switch = eth_rpc get_logs params

  unfoldable pub logs_of : Items → ℕ → Answer
  unfolding number quantity
  logs_of params switch = split_logs frozen (nth 0 params) params switch

  abbrev pub routed : Side → Option Server → String → Items → Answer
  routed frontier (some old) method params = old method params
  routed by_hash (some old) method params = unless_found (eth_rpc method params) (old method params)
  routed _ _ method params = eth_rpc method params

  abbrev pub before_switch : Option Server → Server
  before_switch none = eth_rpc
  before_switch (some old) = old

  abbrev pub at_switch : String → Route → Items → ℕ → Answer
  at_switch method head params switch = routed revive frozen method params
  at_switch method hash params switch = routed by_hash frozen method params
  at_switch method (block at) params switch =
      routed (side_of (nth at params) switch) frozen method params
  at_switch method logs params switch = logs_of params switch

  abbrev pub answered : Option ℕ → String → Route → Items → Answer
  answered none method route params = before_switch frozen method params
  answered (some switch) method route params = at_switch method route params switch

  -- `forward`, with the answer of `Switch::block`.
  unfoldable pub forward : Option ℕ → String → Route → Items → Reply
  unfolding logs_of side
  forward switch method route params = upstream_error (answered switch method route params)
