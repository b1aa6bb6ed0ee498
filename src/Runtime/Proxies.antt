-- ===== src/Runtime/Proxies.antt =====
-- runtime/src/configs/mod.rs: what a proxy of each type may call.
use numen.Prelude.{◌≡◌, refl, Bool, true, false, not}

-- The calls that the filters tell apart.
pub data RuntimeCall : Type 0 where
  balances revive vested_transfer vesting : RuntimeCall
  treasury bounties child_bounties conviction_voting referenda utility : RuntimeCall
  other : RuntimeCall

pub data ProxyType : Type 0 where
  any non_transfer governance : ProxyType

abbrev moves_funds : RuntimeCall → Bool
moves_funds balances = true
moves_funds revive = true
moves_funds vested_transfer = true
moves_funds _ = false

abbrev governs : RuntimeCall → Bool
governs treasury = true
governs bounties = true
governs child_bounties = true
governs conviction_voting = true
governs referenda = true
governs utility = true
governs _ = false

unfoldable pub filter : ProxyType → RuntimeCall → Bool
filter any call = true
filter non_transfer call = not (moves_funds call)
filter governance call = governs call

unfoldable pub is_superset : ProxyType → ProxyType → Bool
is_superset any _ = true
is_superset non_transfer any = false
is_superset non_transfer _ = true
is_superset governance governance = true
is_superset governance _ = false

-- What a type is a superset of, it may call all of.
pub is_superset-filter :
    (p q : ProxyType) (call : RuntimeCall)
    → is_superset p q ≡ true
    → filter q call ≡ true
    → filter p call ≡ true
unfolding is_superset filter
is_superset-filter any q call h f = refl
is_superset-filter non_transfer any call h f = cc
is_superset-filter non_transfer non_transfer call h f = f
is_superset-filter non_transfer governance call h f = clear call f
  where
    clear : (call : RuntimeCall) → governs call ≡ true → not (moves_funds call) ≡ true
    clear balances f = cc
    clear revive f = cc
    clear vested_transfer f = cc
    clear vesting f = refl
    clear treasury f = refl
    clear bounties f = refl
    clear child_bounties f = refl
    clear conviction_voting f = refl
    clear referenda f = refl
    clear utility f = refl
    clear other f = refl
is_superset-filter governance any call h f = cc
is_superset-filter governance non_transfer call h f = cc
is_superset-filter governance governance call h f = f
