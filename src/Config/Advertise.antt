-- ===== src/Config/Advertise.antt =====
-- Interface.RouterAdvertisement (config.go).
pub mod Built
use corerad.Common.{
  ℕ, suc, Bool, true, false, ◌&&◌, not, List, [], ◌∷◌, Result, ok, err, ◌>>=◌, if◌then◌else◌,
  wrap_err,
}
use corerad.Common.Int.{ℤ, pos, ltb_ℤ}
use corerad.Ndp.{RouterAdvertisement}
use corerad.System.{World}
use corerad.Plugin.Types.{Plugin}
use corerad.Plugin.Apply.{apply}
use corerad.Config.Types.{
  Interface, Misconfiguration, interface_not_forwarding, ConfigError, cannot_apply,
}

-- The advertisement before any plugin is applied.
unfoldable pub base_ra : Interface → RouterAdvertisement
base_ra ifi = record {
  current_hop_limit = ifi.hop_limit;
  managed_configuration = ifi.managed;
  other_configuration = ifi.other_config;
  mobile_ipv6_home_agent = false;
  router_selection_preference = ifi.preference;
  neighbor_discovery_proxy = false;
  router_lifetime = ifi.default_lifetime;
  reachable_time = ifi.reachable_time;
  retransmit_timer = ifi.retransmit_timer;
  options = [];
}

-- The loop over the plugins. Object identities are counted up from `fresh`.
unfoldable pub apply_all :
    World → ℕ → List Plugin → RouterAdvertisement → Result ConfigError RouterAdvertisement
apply_all w fresh [] ra = ok ra
apply_all w fresh (p ∷ rest) ra = do
  ra' ← wrap_err (cannot_apply p) (apply w fresh p ra)
  apply_all w (suc fresh) rest ra'

unfoldable pub router_advertisement :
    World → ℕ → Interface → Bool → Result ConfigError (RouterAdvertisement × List Misconfiguration)
router_advertisement w fresh ifi forwarding = do
  ra ← apply_all w fresh ifi.plugins (base_ra ifi)
  ok (
      if ltb_ℤ (pos 0) ra.router_lifetime && not forwarding
      then (record ra { router_lifetime = pos 0 }, interface_not_forwarding ∷ [])
      else (ra, []))
