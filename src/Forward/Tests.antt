-- ===== src/Forward/Tests.antt =====
-- node/src/eth_forward.rs on a small chain, whose first three blocks Frontier built.
use numen.Prelude.{ℕ, ◌≤◌, ◌≡◌, refl, true, none, some, [], ◌∷◌, arith, ltb, leb, if◌then◌else◌}
use numen.Forward.Switch.{Client, consensus, frontier_engine_id, built_by_frontier, block}
use numen.Forward.Search.{block-first}
use numen.Forward.Values.{null, string, nil, item, parse_quantity, quantity}
use numen.Forward.Route.{Route, Forwarder, forward, value, reply, side, frontier}

abbrev client : Client
client = record {
  best_number = 20;
  hash = λ n. some n;
  digest = λ h. some (if leb h 3 then consensus frontier_engine_id ∷ [] else []);
}

found_4 : block client none ≡ some 4
unfolding block
found_4 = refl

frontier_prefix :
    (a b : ℕ)
    → 1 ≤ a
    → a ≤ b
    → built_by_frontier client b ≡ true
    → built_by_frontier client a ≡ true
unfolding built_by_frontier
frontier_prefix a b p q h = ground (arith, p, q, h)

block-first_example : built_by_frontier client 9 ≡ ltb 9 4
block-first_example = block-first client 4 9 frontier_prefix found_4 (omega arith)

parsed : parse_quantity "0x1f" ≡ some 31
unfolding parse_quantity
parsed = refl

printed : quantity 31 ≡ string "0x1f"
unfolding quantity
printed = refl

sided : side (string "0x1f") 40 ≡ frontier
unfolding side parse_quantity
sided = refl

abbrev plain : Forwarder
plain = record { eth_rpc = λ method params. value (string method); frozen = none }

-- A block of Frontier's is asked of eth-rpc, since there is no other server.
forwarded :
    forward plain (some 4) "eth_call" (Route.block 1) (item null (item (string "0x1") nil))
    ≡ reply (string "eth_call")
unfolding forward side parse_quantity
forwarded = refl
