-- ===== src/Tests/Data.antt =====
-- Addresses, plugins and a world that the tests share.
use corerad.Common.{
  ℕ, true, false, String, List, [], ◌∷◌, Option, some, none, ok, ◌==◌, string_eq, if◌then◌else◌,
}
use corerad.Common.Int.{ℤ, pos}
use corerad.Netip.Addr.{Addr, v6}
use corerad.Netip.Prefix.{Prefix, prefix6}
use corerad.Ndp.{Preference, RouterAdvertisement}
use corerad.System.{Ip, Route, World}
use corerad.Plugin.Types.{
  PrefixPlugin, RoutePlugin, RdnssPlugin, DnsslPlugin, Plugin, prefix, route, rdnss, dnssl, mtu,
  lla,
}
use corerad.Config.Types.{
  RawPrefix, RawRoute, RawRdnss, RawDnssl, RawInterface, RawFile, Debug, Interface, Config, Library,
}

abbrev pub ip_of : Prefix → Ip
ip_of p = record {
  address = p;
  deprecated = false;
  manage_temporary_addresses = false;
  stable_privacy = false;
  temporary = false;
  tentative = false;
  valid_forever = true;
}

-- 2001:db8::1/64, fe80::1/64 and 2001:db8:0:1::1/64.
abbrev pub addrs : List Ip
addrs =
    ip_of (prefix6 (0x20010db8000000000000000000000001) 64)
    ∷ ip_of (prefix6 0xfe800000000000000000000000000001 64)
    ∷ ip_of (prefix6 0x20010db8000000010000000000000001 64)
    ∷ []

abbrev pub route_to : ℕ → ℕ → Route
route_to ip bits = record { prefix = prefix6 ip bits; index = 1; preference = Preference.medium }

-- 2001:db8::/32 twice, 2001:db8::/48 within it, and the unrelated 2001:db9::/32.
abbrev pub routes : List Route
routes =
    route_to 0x20010db8000000000000000000000000 48
    ∷ route_to 0x20010db8000000000000000000000000 32
    ∷ route_to 0x20010db9000000000000000000000000 32
    ∷ route_to 0x20010db8000000000000000000000000 32
    ∷ []

abbrev pub world : World
world = record {
  now = pos 5000000000;
  addresses_by_index = λ _. ok addrs;
  loopback_routes = ok routes;
}

abbrev pub prefix_plugin : PrefixPlugin
prefix_plugin = record {
  auto = true;
  prefix = prefix6 0 64;
  on_link = true;
  autonomous = true;
  valid_lifetime = pos 10000000000;
  preferred_lifetime = pos 4000000000;
  epoch = pos 1000000000;
  deprecated = true;
  time_now = true;
  addrs = some 1;
}

abbrev pub route_plugin : RoutePlugin
route_plugin = record {
  auto = true;
  prefix = prefix6 0 0;
  preference = Preference.medium;
  lifetime = pos 10000000000;
  epoch = pos 1000000000;
  deprecated = false;
  time_now = true;
  routes = true;
  addrs = some 1;
}

abbrev pub rdnss_plugin : RdnssPlugin
rdnss_plugin = record { auto = true; lifetime = pos 10000000000; servers = []; addrs = some 1 }

-- A few entries of the text parsers.
abbrev pub parse_go_duration : String → Option ℤ
parse_go_duration s =
    if s == "10s" then some (pos 10000000000) else if s == "4s" then some (pos 4000000000) else none

abbrev pub parse_go_prefix : String → Option Prefix
parse_go_prefix s =
    if s == "2001:db8::/64"
    then some (prefix6 0x20010db8000000000000000000000000 64)
    else if s == "::/64"
    then some (prefix6 0 64)
    else if s == "2001:db8::/32"
    then some (prefix6 0x20010db8000000000000000000000000 32)
    else none

abbrev pub parse_go_addr : String → Option Addr
parse_go_addr s =
    if s == "2001:db8::1"
    then some (v6 0x20010db8000000000000000000000001)
    else if s == "::"
    then some (v6 0)
    else none

abbrev pub library : Library
library = record {
  ndp = record {
    infinity = pos 4294967295000000000;
    hop_limit = 255;
    unrestricted = "urn:ietf:params:capport:unrestricted";
    new_captive_portal = λ uri. some (record { ref = 1; uri = uri });
  };
  parse_go_duration = parse_go_duration;
  parse_go_prefix = parse_go_prefix;
  parse_go_addr = parse_go_addr;
  resolves_tcp_addr = λ a. a == "localhost:9430";
}

abbrev pub raw_prefix : RawPrefix
raw_prefix = record {
  prefix = "2001:db8::/64";
  on_link = none;
  autonomous = some false;
  valid_lifetime = some "10s";
  preferred_lifetime = some "4s";
  deprecated = false;
}

abbrev pub raw_route : RawRoute
raw_route = record {
  prefix = "2001:db8::/32";
  preference = "low";
  lifetime = some "10s";
  deprecated = false;
}

abbrev pub raw_rdnss : RawRdnss
raw_rdnss = record { lifetime = some "10s"; servers = "2001:db8::1" ∷ "::" ∷ [] }

abbrev pub raw_dnssl : RawDnssl
raw_dnssl = record { lifetime = some "10s"; domain_names = "example.com" ∷ "lan" ∷ [] }

abbrev pub raw_interface : RawInterface
raw_interface = record {
  name = "eth0";
  names = [];
  monitor = false;
  advertise = true;
  verbose = false;
  max_interval = "10s";
  min_interval = "4s";
  managed = false;
  other_config = true;
  reachable_time = "";
  retransmit_timer = "";
  hop_limit = none;
  default_lifetime = some "10s";
  unicast_only = false;
  preference = "high";
  prefixes = raw_prefix ∷ [];
  routes = raw_route ∷ [];
  rdnss = raw_rdnss ∷ [];
  dnssl = raw_dnssl ∷ [];
  pref64 = [];
  mtu = pos 1500;
  source_lla = none;
  captive_portal = "";
}

-- What these stand for.
abbrev pub parsed_prefix : PrefixPlugin
parsed_prefix = record {
  auto = false;
  prefix = prefix6 0x20010db8000000000000000000000000 64;
  on_link = true;
  autonomous = false;
  valid_lifetime = pos 10000000000;
  preferred_lifetime = pos 4000000000;
  epoch = pos 7;
  deprecated = false;
  time_now = false;
  addrs = none;
}

abbrev pub parsed_route : RoutePlugin
parsed_route = record {
  auto = false;
  prefix = prefix6 0x20010db8000000000000000000000000 32;
  preference = Preference.low;
  lifetime = pos 10000000000;
  epoch = pos 7;
  deprecated = false;
  time_now = false;
  routes = false;
  addrs = none;
}

abbrev pub parsed_rdnss : RdnssPlugin
parsed_rdnss = record {
  auto = true;
  lifetime = pos 10000000000;
  servers = v6 0x20010db8000000000000000000000001 ∷ [];
  addrs = none;
}

abbrev pub parsed_dnssl : DnsslPlugin
parsed_dnssl = record { lifetime = pos 10000000000; domain_names = "example.com" ∷ "lan" ∷ [] }

abbrev pub parsed_plugins : List Plugin
parsed_plugins =
    prefix parsed_prefix
    ∷ route parsed_route
    ∷ rdnss parsed_rdnss
    ∷ dnssl parsed_dnssl
    ∷ mtu (pos 1500)
    ∷ lla none
    ∷ []

abbrev pub parsed_interface : Interface
parsed_interface = record {
  name = "eth0";
  monitor = false;
  advertise = true;
  verbose = false;
  min_interval = pos 4000000000;
  max_interval = pos 10000000000;
  managed = false;
  other_config = true;
  reachable_time = pos 0;
  retransmit_timer = pos 0;
  hop_limit = 64;
  default_lifetime = pos 10000000000;
  unicast_only = false;
  preference = Preference.high;
  plugins = parsed_plugins;
}

abbrev pub debug : Debug
debug = record { address = "localhost:9430"; prometheus = true; pprof = false }

abbrev pub file : RawFile
file = record { interfaces = raw_interface ∷ []; debug = debug }

abbrev pub config : Config
config = record { interfaces = parsed_interface ∷ []; debug = debug }

abbrev pub empty_ra : RouterAdvertisement
empty_ra = record {
  current_hop_limit = 64;
  managed_configuration = false;
  other_configuration = false;
  mobile_ipv6_home_agent = false;
  router_selection_preference = Preference.medium;
  neighbor_discovery_proxy = false;
  router_lifetime = pos 0;
  reachable_time = pos 0;
  retransmit_timer = pos 0;
  options = [];
}
