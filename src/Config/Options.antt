-- ===== src/Config/Options.antt =====
-- The parsers of the plugins: parsePrefix, parseRoute, parseRDNSS and parseDNSSL (plugin.go).
pub mod PrefixRules
pub mod RouteRules
pub mod Servers
pub mod Domains
use corerad.Common.{
  ℕ, Bool, true, false, ◌||◌, ◌&&◌, not, String, List, [], ◌∷◌, ◌++◌, Option, some, none, Result,
  ok, err, ◌>>=◌, ◌>>◌, refuse, if◌then◌else◌, ◌==◌, string_eq, nat_eq, list_eq, contains, sort_by,
}
use corerad.Common.Int.{ℤ, pos, ltb_ℤ, int_eq}
use corerad.Netip.Addr
use corerad.Netip.Addr.{Addr, addr_eq}
use corerad.Netip.Prefix
use corerad.Netip.Prefix.{Prefix, prefix_eq, prefix6}
use corerad.Plugin.Types.{PrefixPlugin, RoutePlugin, RdnssPlugin, DnsslPlugin}
use corerad.Config.Types.{
  RawPrefix, RawRoute, RawRdnss, RawDnssl, ConfigError, Library, single_ip, only_auto_prefix,
  only_auto_route, zero_valid, zero_preferred, zero_lifetime, preferred_exceeds_valid,
  deprecated_infinite, no_domain_names, repeated_domain_name, bad_server, not_ipv6_server,
  repeated_wildcard, repeated_server,
}
use corerad.Config.Fields.{
  seconds, triple, or_error, parse_duration, parse_ip_prefix, parse_preference,
}

-- ::/64.
abbrev pub auto_prefix : Prefix
auto_prefix = prefix6 0 64

-- ::/0.
abbrev pub auto_route : Prefix
auto_route = prefix6 0 0

-- A boolean key that is true unless it is set.
abbrev pub or_true : Option Bool → Bool
or_true none = true
or_true (some b) = b

-- An empty prefix stands for the wildcard.
abbrev pub or_wildcard : Prefix → Prefix → Prefix
or_wildcard wildcard p = if Prefix.is_valid p then p else wildcard

module _ (lib : Library) where
  unfoldable pub parse_prefix : RawPrefix → ℤ → Result ConfigError PrefixPlugin
  parse_prefix p epoch = do
    parsed ← parse_ip_prefix lib p.prefix
    let prefix = or_wildcard auto_prefix parsed
    refuse (Prefix.is_single_ip prefix) single_ip
    refuse (Addr.is_unspecified prefix.ip && not (Prefix.has_bits prefix 64)) only_auto_prefix
    valid ← parse_duration lib p.valid_lifetime (seconds 86400)
    refuse (valid == pos 0) zero_valid
    preferred ← parse_duration lib p.preferred_lifetime (seconds 14400)
    refuse (preferred == pos 0) zero_preferred
    refuse (ltb_ℤ valid preferred) preferred_exceeds_valid
    refuse (p.deprecated && (preferred == lib.infinity || valid == lib.infinity))
        deprecated_infinite
    ok (record {
      auto = prefix == auto_prefix;
      prefix = prefix;
      on_link = or_true p.on_link;
      autonomous = or_true p.autonomous;
      valid_lifetime = valid;
      preferred_lifetime = preferred;
      epoch = epoch;
      deprecated = p.deprecated;
      time_now = false;
      addrs = none;
    })

  unfoldable pub parse_route : RawRoute → ℤ → Result ConfigError RoutePlugin
  parse_route r epoch = do
    parsed ← parse_ip_prefix lib r.prefix
    let prefix = or_wildcard auto_route parsed
    refuse (Addr.is_unspecified prefix.ip && not (Prefix.has_bits prefix 0)) only_auto_route
    pref ← parse_preference r.preference
    lt ← parse_duration lib r.lifetime (seconds 86400)
    refuse (lt == pos 0) zero_lifetime
    refuse (r.deprecated && lt == lib.infinity) deprecated_infinite
    ok (record {
      auto = prefix == auto_route;
      prefix = prefix;
      preference = pref;
      lifetime = lt;
      epoch = epoch;
      deprecated = r.deprecated;
      time_now = false;
      routes = false;
      addrs = none;
    })

  -- The loop over the servers, with the wildcard flag and the set of the servers so far.
  unfoldable pub parse_servers :
      Bool → List Addr → List String → Result ConfigError (Bool × List Addr)
  parse_servers auto servers [] = ok (auto, servers)
  parse_servers auto servers (s ∷ rest) = do
    ip ← or_error (lib.parse_go_addr s) (bad_server s)
    refuse (not (Addr.is6 ip) || Addr.is4_in6 ip) (not_ipv6_server s)
    let wildcard = parse_servers true servers rest
    let static = parse_servers auto (ip ∷ servers) rest
    if Addr.is_unspecified ip
        then if auto then err repeated_wildcard else wildcard
        else if contains servers ip
        then err (repeated_server ip)
        else static

  -- No servers stand for the wildcard alone.
  unfoldable pub parse_server_list : List String → Result ConfigError (Bool × List Addr)
  parse_server_list [] = ok (true, [])
  parse_server_list (s ∷ rest) = parse_servers false [] (s ∷ rest)

  unfoldable pub parse_rdnss : RawRdnss → ℤ → Result ConfigError RdnssPlugin
  parse_rdnss d max_interval = do
    lifetime ← parse_duration lib d.lifetime (triple max_interval)
    (auto, servers) ← parse_server_list d.servers
    ok (record {
      auto = auto;
      lifetime = lifetime;
      servers = sort_by Addr.leb servers;
      addrs = none;
    })

  -- The loop over the domain names, with the set of those seen.
  unfoldable pub check_domain_names : List String → List String → Result ConfigError (Unit {0})
  check_domain_names seen [] = ok tt
  check_domain_names seen (d ∷ rest) = do
    refuse (contains seen d) (repeated_domain_name d)
    check_domain_names (d ∷ seen) rest

  unfoldable pub parse_dnssl : RawDnssl → ℤ → Result ConfigError DnsslPlugin
  parse_dnssl d max_interval = do
    lifetime ← parse_duration lib d.lifetime (triple max_interval)
    refuse (d.domain_names == []) no_domain_names
    check_domain_names [] d.domain_names
    ok (record { lifetime = lifetime; domain_names = d.domain_names })
