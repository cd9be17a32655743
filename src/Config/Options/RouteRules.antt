-- ===== src/Config/Options/RouteRules.antt =====
-- What parseRoute accepts.
use corerad.Common.{◌≡◌, ◌≢◌, refl, ◌↔◌, true, arith, ok}
use corerad.Common.Int.{ℤ, pos, eqb_ℤ_iff}
use corerad.Netip.Addr
use corerad.Netip.Prefix
use corerad.Netip.Prefix.{prefix_beq_iff}
use corerad.Plugin.Types.{RoutePlugin}
use corerad.Config.Types.{RawRoute, Library}
use corerad.Config.Fields.{parse_preference}
use corerad.Config.Options.{auto_route, parse_route}
use corerad.Config.Options.PrefixRules.{IsNetwork, parse_ip_prefix-IsNetwork}

auto_route-IsNetwork : IsNetwork auto_route
unfolding Prefix.is_valid Addr.is6 Addr.is4_in6 Prefix.masked
auto_route-IsNetwork = record { valid = refl; six = refl; unmapped = refl; canonical = refl }

-- What a route plugin satisfies when the configuration is accepted.
pub record IsAccepted (lib : Library) (raw : RawRoute) (q : RoutePlugin) : Type 0 where
  pub network : IsNetwork q.prefix
  pub auto_iff : (q.auto ≡ true) ↔ (q.prefix ≡ auto_route)
  pub wildcard : Addr.is_unspecified q.prefix.ip ≡ true → Prefix.has_bits q.prefix 0 ≡ true
  pub preferred : parse_preference raw.preference ≡ ok q.preference
  pub nonzero : q.lifetime ≢ pos 0
  pub finite : q.deprecated ≡ true → q.lifetime ≢ lib.infinity

-- Every accepted route is a canonical IPv6 network, is the wildcard exactly if it is ::/0 and has
-- no other length with the address ::, has the preference that its key names, a non-zero lifetime,
-- and no infinite one if deprecated.
pub parse_route-IsAccepted :
    (lib : Library) (raw : RawRoute) (epoch : ℤ) {q : RoutePlugin}
    → parse_route lib raw epoch ≡ ok q
    → IsAccepted lib raw q
unfolding parse_route
parse_route-IsAccepted lib raw epoch {q} h = ground (
  arith,
  prefix_beq_iff q.prefix auto_route,
  parse_ip_prefix-IsNetwork lib raw.prefix {p = q.prefix},
  auto_route-IsNetwork,
  eqb_ℤ_iff q.lifetime (pos 0),
)
