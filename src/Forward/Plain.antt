-- ===== src/Forward/Plain.antt =====
-- node/src/eth_forward.rs: a node without a frozen Frontier node hands every call to eth-rpc.
use Prim.Native.String.{String}
use numen.Prelude.{ℕ, ◌≡◌, refl, sym, ap, ◌∙◌, Option, none, some}
use numen.Forward.Values.{Items, nth}
use numen.Forward.Route.{
  Route, head, hash, logs, block, Side, revive, frontier, by_hash, Forwarder, forward, routed,
  split_logs, logs_of, get_logs, upstream_error, side_of, before_switch,
}

routed-none :
    (servers : Forwarder) (side : Side) (method : String) (params : Items)
    → routed servers side none method params ≡ servers.eth_rpc method params
routed-none servers revive method params = refl
routed-none servers frontier method params = refl
routed-none servers by_hash method params = refl

-- Without a frozen Frontier node every call, whatever block it is about and wherever the switch is, gets
-- eth-rpc's answer to that very call; the route of log filters is the one of eth_getLogs.
pub forward_without_frontier :
    (servers : Forwarder) (switch : Option ℕ) (method : String) (route : Route) (params : Items)
    → servers.frozen ≡ none
    → (route ≡ logs → method ≡ get_logs)
    → forward servers switch method route params ≡ upstream_error (servers.eth_rpc method params)
unfolding forward logs_of
forward_without_frontier servers none method route params h named =
    ap (λ f. upstream_error (before_switch servers f method params)) h
forward_without_frontier servers (some switch) method head params h named =
    ap (λ f. upstream_error (routed servers revive f method params)) h
forward_without_frontier servers (some switch) method hash params h named =
    ap (λ f. upstream_error (routed servers by_hash f method params)) h
forward_without_frontier servers (some switch) method (block at) params h named =
    let where_at = side_of (nth at params) switch in
    ap (λ f. upstream_error (routed servers where_at f method params)) h
    ∙ ap upstream_error (routed-none servers where_at method params)
forward_without_frontier servers (some switch) method logs params h named =
    ap (λ f. upstream_error (split_logs servers f (nth 0 params) params switch)) h
    ∙ ap (λ m. upstream_error (servers.eth_rpc m params)) (sym (named refl))
