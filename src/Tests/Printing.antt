-- ===== src/Tests/Printing.antt =====
-- The texts of plugins, and the metrics that are registered.
use corerad.Common.{
  ℕ, ◌≡◌, ◌≢◌, refl, true, false, String, List, [], ◌∷◌, map, Option, some, none, Result, ok, panic,
  All, Memᴰ, if◌then◌else◌, Bool, ◌==◌,
}
use corerad.Common.Int.{pos}
use corerad.Netip.Prefix
use corerad.System.{Error}
use corerad.Plugin.Types.{Interface, prepare, prefix, route, rdnss, dnssl}
use corerad.Plugin.Text.{Texts, name, string}
use corerad.Plugin.Text.Prepared.{string-prepare}
use corerad.Config.Types as Types
use corerad.Metrics.{const_scrape, context_of}
use corerad.Metrics.Registered.{
  Registration, const_gauges, metric_of, build_gauges, const_scrape_panics,
}
use corerad.Tests.Data.{world, prefix_plugin, route_plugin, rdnss_plugin, parsed_dnssl}
use corerad.Tests.Sending.{loud}

-- Every address is "A", every prefix "P", and so on.
abbrev texts : Texts
texts = record {
  addr = λ _. "A";
  prefix = λ _. "P";
  duration = λ _. "1h";
  preference = λ _. "high";
  hardware_addr = λ _. "de:ad";
  number = λ _. "1500";
  quoted = λ s. s;
  infinity = pos 4294967295000000000;
}

abbrev eth0 : Interface
eth0 = record { index = 2; hardware_addr = none }

prefix_text :
    string texts world (prefix prefix_plugin)
    ≡ ok "P [P, P] [DEPRECATED, on-link, autonomous], preferred: 1h, valid: 1h"
unfolding string corerad.Plugin.Text.prefix_string corerad.Plugin.Text.expanded
    corerad.Plugin.Prefixes.current corerad.Plugin.Text.joined corerad.Plugin.Text.join
    corerad.Common.sort_by corerad.Netip.Addr.is4 corerad.Netip.Addr.is_link_local_unicast
    corerad.Common.contains Prefix.masked corerad.Netip.Addr.leb corerad.Plugin.Text.flags
    corerad.Plugin.Text.dur_string
prefix_text = refl

dnssl_text :
    string texts world (dnssl parsed_dnssl) ≡ ok "domain names: [example.com, lan], lifetime: 1h"
unfolding string corerad.Plugin.Text.dnssl_string corerad.Plugin.Text.joined
    corerad.Plugin.Text.join corerad.Plugin.Text.dur_string
dnssl_text = refl

-- The text of a wildcard prefix panics before Prepare, and that of a wildcard route does not.
unprepared_prefix : string texts world (prefix (record prefix_plugin { addrs = none })) ≡ panic
unfolding string corerad.Plugin.Text.prefix_string corerad.Plugin.Text.expanded
    corerad.Plugin.Prefixes.current
unprepared_prefix = refl

unprepared_route :
    string texts world (route (record route_plugin { auto = true; routes = false; addrs = none }))
    ≡ ok "P, preference: high, lifetime: 1h"
unfolding string corerad.Plugin.Text.route_string corerad.Plugin.Text.expanded
    corerad.Plugin.Routes.current corerad.Plugin.Text.joined corerad.Plugin.Text.dur_string
unprepared_route = refl

string-prepare_example :
    (s : String) × (string texts world (prepare eth0 (rdnss rdnss_plugin)) ≡ ok s)
string-prepare_example = string-prepare texts world eth0 (rdnss rdnss_plugin) (λ h. cc) (λ h. cc)

-- A deprecated prefix without an epoch.
abbrev broken : Types.Interface
broken = record loud {
  plugins = prefix (record prefix_plugin { auto = false; deprecated = true; epoch = pos 0 }) ∷ [];
}

abbrev advertising : Registration
advertising = record { name = "corerad_interface_advertising"; labels = "interface" ∷ [] }

is_registered : Memᴰ advertising const_gauges
unfolding const_gauges
is_registered = Memᴰ.head refl

abbrev autoconf : String → Result Error Bool
autoconf _ = ok false

panics :
    (const_scrape world 0 autoconf autoconf
      (map (λ r. metric_of r.name) (advertising ∷ []))
      (loud ∷ broken ∷ [])).0
    ≡ panic
unfolding const_scrape context_of corerad.Config.Advertise.router_advertisement
    corerad.Config.Advertise.apply_all corerad.Plugin.Apply.apply corerad.Metrics.collect_metrics
    corerad.Common.map_result corerad.Metrics.collect_metric metric_of
    corerad.Plugin.Apply.apply_prefixes corerad.Plugin.Lifetimes.lifetimes
panics = refl

const_scrape_panics_example :
    (ifi : Types.Interface) × Memᴰ ifi (loud ∷ broken ∷ [])
    × (context_of world 0 autoconf autoconf ifi ≡ panic)
const_scrape_panics_example =
    const_scrape_panics world 0 autoconf autoconf (advertising ∷ []) (loud ∷ broken ∷ [])
      (is_registered, tt) panics

unset_build :
    build_gauges "v1.0.0" (pos 0)
    ≡ ("corerad_build_info", "v1.0.0" ∷ [], pos 1)
      ∷ ("corerad_build_timestamp_seconds", [], pos 0)
      ∷ []
unfolding build_gauges
unset_build = refl
