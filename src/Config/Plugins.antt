-- ===== src/Config/Plugins.antt =====
-- parsePlugins (plugin.go): the plugins of one interface.
pub mod Disjoint
use corerad.Common.{
  ℕ, Bool, true, false, ◌||◌, ◌&&◌, not, String, List, [], ◌∷◌, ◌++◌, map, Option, some, none,
  Result, ok, err, ◌>>=◌, ◌>>◌, refuse, if◌then◌else◌, ◌==◌, string_eq, map_result, wrap_err,
}
use corerad.Common.Int.{ℤ, pos, ltb_ℤ, int_eq}
use corerad.Netip.Prefix
use corerad.Netip.Prefix.{Prefix, prefix_eq}
use corerad.Plugin.Types.{
  Plugin, PrefixPlugin, RoutePlugin, prefix, route, rdnss, dnssl, mtu, lla, captive_portal, pref64,
}
use corerad.Plugin.Pref64.{new_pref64}
use corerad.Config.Types.{
  RawInterface, RawPrefix, RawRoute, RawPref64, ConfigError, Library, in_prefix, in_route, in_rdnss,
  in_dnssl, prefixes_overlap, routes_overlap, mtu_range, bad_captive_portal, bad_prefix,
}
use corerad.Config.Fields.{or_error}
use corerad.Config.Overlap.{find_clash}
use corerad.Config.Options.{
  auto_route, parse_prefix, parse_route, parse_rdnss, parse_dnssl, or_true,
}

abbrev pub prefixes_clash : PrefixPlugin → PrefixPlugin → Bool
prefixes_clash p q = Prefix.overlaps p.prefix q.prefix

-- The wildcard route may overlap any other.
abbrev pub routes_clash : RoutePlugin → RoutePlugin → Bool
routes_clash p q =
    if p.prefix == auto_route || q.prefix == auto_route
    then false
    else Prefix.overlaps p.prefix q.prefix

abbrev pub refuse_clash :
    {A : Type 0} → (A × A → ConfigError) → Option (A × A) → Result ConfigError (Unit {0})
refuse_clash f none = ok tt
refuse_clash f (some c) = err (f c)

abbrev pub default_pref64_prefix : String
default_pref64_prefix = "64:ff9b::/96"

abbrev pub when : Bool → List Plugin → List Plugin
when true ps = ps
when false ps = []

module _ (lib : Library) where
  unfoldable pub parse_prefixes : List RawPrefix → ℤ → Result ConfigError (List PrefixPlugin)
  parse_prefixes raw epoch = do
    prefixes ←
        map_result (λ (p : RawPrefix). wrap_err (in_prefix p.prefix) (parse_prefix lib p epoch)) raw
    refuse_clash (λ c. prefixes_overlap c.0.prefix c.1.prefix) (find_clash prefixes_clash prefixes)
    ok prefixes

  unfoldable pub parse_routes : List RawRoute → ℤ → Result ConfigError (List RoutePlugin)
  parse_routes raw epoch = do
    routes ←
        map_result (λ (r : RawRoute). wrap_err (in_route r.prefix) (parse_route lib r epoch)) raw
    refuse_clash (λ c. routes_overlap c.0.prefix c.1.prefix) (find_clash routes_clash routes)
    ok routes

  unfoldable pub parse_captive_portal : String → Result ConfigError (List Plugin)
  parse_captive_portal uri = if uri == "" then ok [] else do
    cp ← or_error (lib.new_captive_portal uri) (bad_captive_portal uri)
    ok (captive_portal cp ∷ [])

  abbrev base_prefix : Option String → String
  base_prefix none = default_pref64_prefix
  base_prefix (some s) = if not (s == "") then s else default_pref64_prefix

  unfoldable pub parse_pref64 : ℤ → RawPref64 → Result ConfigError Plugin
  parse_pref64 max_interval p = do
    base ← or_error (lib.parse_go_prefix (base_prefix p.prefix)) (bad_prefix (base_prefix p.prefix))
    ok (pref64 (new_pref64 base max_interval))

  unfoldable pub parse_plugins : RawInterface → ℤ → ℤ → Result ConfigError (List Plugin)
  parse_plugins ifi max_interval epoch = do
    prefixes ← parse_prefixes ifi.prefixes epoch
    routes ← parse_routes ifi.routes epoch
    rdnsses ← map_result (λ r. wrap_err in_rdnss (parse_rdnss lib r max_interval)) ifi.rdnss
    dnssls ← map_result (λ d. wrap_err in_dnssl (parse_dnssl lib d max_interval)) ifi.dnssl
    refuse (ltb_ℤ ifi.mtu (pos 0) || ltb_ℤ (pos 65536) ifi.mtu) mtu_range
    portals ← parse_captive_portal ifi.captive_portal
    pref64s ← map_result (parse_pref64 max_interval) ifi.pref64
    ok (
        map prefix prefixes
        ++ (map route routes
            ++ (map rdnss rdnsses
                ++ (map dnssl dnssls
                    ++ (when (not (ifi.mtu == pos 0)) (mtu ifi.mtu ∷ [])
                        ++ (when (or_true ifi.source_lla) (lla none ∷ [])
                            ++ (portals ++ pref64s)))))))
