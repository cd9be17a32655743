-- ===== src/Tests/Parsing.antt =====
-- A small configuration is parsed.
use corerad.Common.{
  ◌≡◌, ◌≢◌, refl, true, false, List, [], ◌∷◌, some, none, ok, AllPairs, arith, ◌==◌, string_eq,
  contains, sort_by, map_result,
}
use corerad.Common.Int.{pos, negsuc}
use corerad.Netip.Addr
use corerad.Netip.Prefix
use corerad.Netip.Prefix.{prefix6}
use corerad.Plugin.Types.{PrefixPlugin}
use corerad.Config.Fields
use corerad.Config.Fields.{triple, parse_duration, parse_min_interval}
use corerad.Config.Overlap
use corerad.Config.Interfaces
use corerad.Config.File
use corerad.Plugin.Pref64.{new_pref64}
use corerad.Config.Overlap.{find_clash, find_clash-AllPairs, find_clash_sound}
use corerad.Config.Options
use corerad.Config.Options.{parse_prefix, parse_route, parse_rdnss, parse_dnssl}
use corerad.Config.Options.PrefixRules
use corerad.Config.Options.PrefixRules.{parse_prefix-IsAccepted}
use corerad.Config.Options.RouteRules
use corerad.Config.Options.RouteRules.{parse_route-IsAccepted}
use corerad.Config.Options.Servers
use corerad.Config.Options.Servers.{parse_rdnss-IsAccepted}
use corerad.Config.Options.Domains.{parse_dnssl_lem}
use corerad.Config.Plugins
use corerad.Config.Plugins.{parse_plugins, prefixes_clash}
use corerad.Config.Plugins.Disjoint.{IsAssembled, parse_plugins-IsAssembled}
use corerad.Config.Interfaces.{parse_interface}
use corerad.Config.Interfaces.Bounds
use corerad.Config.Interfaces.Bounds.{
  IsMinInterval, parse_min_interval_lem, parse_interface-IsAccepted,
}
use corerad.Config.File.{parse}
use corerad.Config.File.Names.{Expands, parse-IsDistinct}
use corerad.Tests.Data.{
  library, raw_prefix, raw_route, raw_rdnss, raw_dnssl, raw_interface, parsed_prefix, parsed_route,
  parsed_rdnss, parsed_dnssl, parsed_plugins, parsed_interface, file, config,
}

parse_prefix_run : parse_prefix library raw_prefix (pos 7) ≡ ok parsed_prefix
unfolding parse_prefix Fields.parse_ip_prefix Prefix.masked Addr.is6 Addr.is4_in6
    Prefix.is_single_ip Addr.is_unspecified parse_duration
parse_prefix_run = refl

parse_route_run : parse_route library raw_route (pos 7) ≡ ok parsed_route
unfolding parse_route Fields.parse_ip_prefix Prefix.masked Addr.is6 Addr.is4_in6 Addr.is_unspecified
    Fields.parse_preference parse_duration
parse_route_run = refl

parse_rdnss_run : parse_rdnss library raw_rdnss (pos 10000000000) ≡ ok parsed_rdnss
unfolding parse_rdnss parse_duration Options.parse_server_list Options.parse_servers Addr.is6
    Addr.is4_in6 Addr.is_unspecified contains sort_by
parse_rdnss_run = refl

parse_dnssl_run : parse_dnssl library raw_dnssl (pos 10000000000) ≡ ok parsed_dnssl
unfolding parse_dnssl parse_duration Options.check_domain_names contains
parse_dnssl_run = refl

parse_plugins_run :
    parse_plugins library raw_interface (pos 10000000000) (pos 7) ≡ ok parsed_plugins
unfolding parse_plugins Plugins.parse_prefixes map_result parse_prefix Fields.parse_ip_prefix
    Prefix.masked Addr.is6 Addr.is4_in6 Prefix.is_single_ip Addr.is_unspecified parse_duration
    find_clash Plugins.parse_routes parse_route Fields.parse_preference parse_rdnss
    Options.parse_server_list Options.parse_servers contains sort_by Options.check_domain_names
    parse_dnssl Overlap.clash_from Overlap.clash_in_row Plugins.parse_captive_portal
    Plugins.parse_pref64 Addr.is4 Addr.leb Addr.shl Addr.shr Prefix.has_bits Prefix.is_valid
    Prefix.mask Prefix.overlaps new_pref64
parse_plugins_run = refl

parse_interface_run : parse_interface library "eth0" raw_interface (pos 7) ≡ ok parsed_interface
unfolding parse_interface Interfaces.duration_or parse_min_interval Fields.parse_default_lifetime
    Fields.parse_preference parse_duration
parse_interface_run = rw parse_plugins_run

pub parse_run : parse library file (pos 7) ≡ ok config
unfolding parse File.parse_from Interfaces.parse_interfaces Interfaces.interface_names map_result
    File.see_names contains
parse_run = rw parse_interface_run

parse_prefix_example : PrefixRules.IsAccepted library parsed_prefix
parse_prefix_example = parse_prefix-IsAccepted library raw_prefix (pos 7) parse_prefix_run

parse_route_example : RouteRules.IsAccepted library raw_route parsed_route
parse_route_example = parse_route-IsAccepted library raw_route (pos 7) parse_route_run

parse_rdnss_example : Servers.IsAccepted library raw_rdnss parsed_rdnss
parse_rdnss_example = parse_rdnss-IsAccepted library raw_rdnss (pos 10000000000) parse_rdnss_run

parse_dnssl_example :
    (parsed_dnssl.domain_names ≡ raw_dnssl.domain_names)
    × (raw_dnssl.domain_names ≢ [])
    × AllPairs ◌≢◌ raw_dnssl.domain_names
    × (parse_duration library raw_dnssl.lifetime (triple (pos 10000000000))
        ≡ ok parsed_dnssl.lifetime)
parse_dnssl_example = parse_dnssl_lem library raw_dnssl (pos 10000000000) parse_dnssl_run

parse_plugins_example : IsAssembled library raw_interface (pos 10000000000) (pos 7) parsed_plugins
parse_plugins_example =
    parse_plugins-IsAssembled library raw_interface (pos 10000000000) (pos 7) parse_plugins_run

parse_interface_example : Bounds.IsAccepted "eth0" raw_interface parsed_interface
parse_interface_example =
    parse_interface-IsAccepted library "eth0" raw_interface (pos 7) parse_interface_run

parse_example :
    (file.interfaces ≢ [])
    × Expands library (pos 7) file.interfaces config.interfaces
    × AllPairs (λ a b. a.name ≢ b.name) config.interfaces
    × (config.debug.address ≡ file.debug.address)
    × ((file.debug.address == "") ≡ false → library.resolves_tcp_addr file.debug.address ≡ true)
parse_example = parse-IsDistinct library (pos 7) file parse_run

-- A maximum interval of 9 seconds makes the default minimum 2 seconds.
min_interval_run : parse_min_interval library "auto" (pos 9000000000) ≡ ok (pos 2000000000)
unfolding parse_min_interval
min_interval_run = refl

parse_min_interval_example : IsMinInterval (pos 2000000000) (pos 9000000000)
parse_min_interval_example =
    parse_min_interval_lem library "auto" (pos 9000000000) (omega arith) min_interval_run

abbrev two_prefixes : List PrefixPlugin
two_prefixes =
    parsed_prefix
    ∷ record parsed_prefix { prefix = prefix6 0x20010db9000000000000000000000000 64 }
    ∷ []

no_clash_run : find_clash prefixes_clash two_prefixes ≡ none
unfolding find_clash Prefix.overlaps
no_clash_run = refl

find_clash_none_example : AllPairs (λ x y. prefixes_clash x y ≡ false) two_prefixes
find_clash_none_example = find_clash-AllPairs prefixes_clash two_prefixes no_clash_run

abbrev same_prefixes : List PrefixPlugin
same_prefixes = parsed_prefix ∷ parsed_prefix ∷ []

clash_run : find_clash prefixes_clash same_prefixes ≡ some (parsed_prefix, parsed_prefix)
unfolding find_clash Prefix.overlaps
clash_run = refl

find_clash_some_example : prefixes_clash parsed_prefix parsed_prefix ≡ true
find_clash_some_example =
    find_clash_sound prefixes_clash same_prefixes (parsed_prefix, parsed_prefix) clash_run

-- Negative lifetimes are accepted.
negative_lifetime_run :
    parse_prefix (record library { parse_go_duration = λ _. some (negsuc 0) }) raw_prefix (pos 7)
    ≡ ok (record parsed_prefix { valid_lifetime = negsuc 0; preferred_lifetime = negsuc 0 })
unfolding parse_prefix Fields.parse_ip_prefix Prefix.masked Addr.is6 Addr.is4_in6
    Prefix.is_single_ip Addr.is_unspecified parse_duration
negative_lifetime_run = refl
