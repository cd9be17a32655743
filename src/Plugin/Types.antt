-- ===== src/Plugin/Types.antt =====
-- The plugins of plugin.go as data. A function field that Prepare sets is `none` or `false` before
-- it; the closure over the interface's index is that index.
use corerad.Common.{ℕ, Bool, true, List, String, Option, some}
use corerad.Common.Int.{ℤ}
use corerad.Netip.Addr.{Addr}
use corerad.Netip.Prefix.{Prefix}
use corerad.Ndp.{Preference}
use corerad.Ndp
use corerad.System.{Error}

pub data PluginError : Type 0 where
  -- "failed to fetch IP addresses: %v"
  fetch_addresses : Error → PluginError
  fetch_routes : Error → PluginError
  -- "plugin: route has not been prepared"
  not_prepared : PluginError
  -- "interface has no usable IPv6 addresses"
  no_usable_addresses : PluginError

pub record PrefixPlugin : Type 0 where
  pub auto : Bool
  pub prefix : Prefix
  pub on_link : Bool
  pub autonomous : Bool
  pub valid_lifetime : ℤ
  pub preferred_lifetime : ℤ
  -- Nanoseconds since the zero Time.
  pub epoch : ℤ
  pub deprecated : Bool
  pub time_now : Bool
  pub addrs : Option ℕ

pub record RoutePlugin : Type 0 where
  pub auto : Bool
  pub prefix : Prefix
  pub preference : Preference
  pub lifetime : ℤ
  pub epoch : ℤ
  pub deprecated : Bool
  pub time_now : Bool
  pub routes : Bool
  pub addrs : Option ℕ

pub record RdnssPlugin : Type 0 where
  pub auto : Bool
  pub lifetime : ℤ
  pub servers : List Addr
  pub addrs : Option ℕ

pub record DnsslPlugin : Type 0 where
  pub lifetime : ℤ
  pub domain_names : List String

pub data Plugin : Type 0 where
  prefix : PrefixPlugin → Plugin
  route : RoutePlugin → Plugin
  rdnss : RdnssPlugin → Plugin
  dnssl : DnsslPlugin → Plugin
  mtu : ℤ → Plugin
  -- The address, or `none` for nil.
  lla : Option (List ℕ) → Plugin
  captive_portal : Ndp.CaptivePortal → Plugin
  pref64 : Ndp.Pref64 → Plugin

-- The parts of a net.Interface that Prepare reads.
pub record Interface : Type 0 where
  pub index : ℕ
  pub hardware_addr : Option (List ℕ)

abbrev pub prepare_prefix : Interface → PrefixPlugin → PrefixPlugin
prepare_prefix ifi p = record p { time_now = true; addrs = some ifi.index }

abbrev pub prepare_route : Interface → RoutePlugin → RoutePlugin
prepare_route ifi r = record r { time_now = true; routes = true; addrs = some ifi.index }

abbrev pub prepare_rdnss : Interface → RdnssPlugin → RdnssPlugin
prepare_rdnss ifi r = record r { addrs = some ifi.index }

abbrev pub prepare_lla : Interface → Option (List ℕ)
prepare_lla ifi = ifi.hardware_addr

-- The method call on the interface Plugin; the other methods do nothing.
unfoldable pub prepare : Interface → Plugin → Plugin
prepare ifi (prefix p) = prefix (prepare_prefix ifi p)
prepare ifi (route r) = route (prepare_route ifi r)
prepare ifi (rdnss r) = rdnss (prepare_rdnss ifi r)
prepare ifi (dnssl d) = dnssl d
prepare ifi (mtu m) = mtu m
prepare ifi (lla _) = lla (prepare_lla ifi)
prepare ifi (captive_portal c) = captive_portal c
prepare ifi (pref64 p) = pref64 p
