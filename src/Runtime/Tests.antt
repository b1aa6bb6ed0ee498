-- ===== src/Runtime/Tests.antt =====
-- runtime/src/configs/mod.rs: a governance proxy's calls are among those of a non-transfer proxy.
use numen.Prelude.{◌≡◌, refl, true}
use numen.Runtime.Proxies.{
  filter, is_superset, non_transfer, governance, referenda, is_superset-filter,
}

is_superset-filter_example : filter non_transfer referenda ≡ true
unfolding is_superset filter
is_superset-filter_example = is_superset-filter non_transfer governance referenda refl refl
