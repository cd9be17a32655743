-- ===== src/Plugin/Apply.antt =====
-- Plugin.Apply of each plugin: what it adds to a router advertisement.
pub mod Contribution
use corerad.Common.{
  ℕ, suc, ◌+◌, ◌-◌, ◌%◌, ◌^◌, Bool, true, false, not, List, [], ◌∷◌, ◌++◌, map, Option, some, none,
  if◌then◌else◌, Result, ok, err, panic, ◌>>=◌,
}
use corerad.Common.Int.{ℤ, pos, negsuc}
use corerad.Netip.Addr.{Addr}
use corerad.Netip.Prefix
use corerad.Netip.Prefix.{Prefix}
use corerad.Ndp.{
  CaptivePortal, Pref64, NdpOption, RouterAdvertisement, prefix_information, route_information,
  recursive_dns_server, dns_search_list, link_layer_address,
}
use corerad.Ndp
use corerad.System.{World}
use corerad.Plugin.Types.{
  Plugin, PluginError, PrefixPlugin, RoutePlugin, RdnssPlugin, DnsslPlugin, prefix, route, rdnss,
  dnssl, mtu, lla, captive_portal, pref64,
}
use corerad.Plugin.Lifetimes.{lifetimes, lifetime}
use corerad.Plugin.Prefixes
use corerad.Plugin.Routes
use corerad.Plugin.Rdnss

-- ra.Options = append(ra.Options, opts...)
abbrev pub push_options : RouterAdvertisement → List NdpOption → RouterAdvertisement
push_options ra os = record ra { options = ra.options ++ os }

-- Prefix.apply.
unfoldable pub apply_prefixes :
    PrefixPlugin
    → World
    → List Prefix
    → RouterAdvertisement
    → Result PluginError RouterAdvertisement
apply_prefixes p w prefixes ra = do
  (valid, pref) ← lifetimes p w.now
  let opts =
      map
        (λ (pfx : Prefix). prefix_information (record {
          prefix_length = Prefix.bits_u8 pfx;
          on_link = p.on_link;
          autonomous_address_configuration = p.autonomous;
          valid_lifetime = valid;
          preferred_lifetime = pref;
          prefix = pfx.ip;
        }))
        prefixes
  ok (push_options ra opts)

-- Route.apply appends in the loop; its `opts` stays empty and is appended at the end.
unfoldable pub push_routes :
    RoutePlugin → ℤ → List Prefix → RouterAdvertisement → RouterAdvertisement
push_routes r lt [] ra = push_options ra []
push_routes r lt (rt ∷ rest) ra = push_routes r lt rest (
    push_options ra (
      route_information (record {
        prefix_length = Prefix.bits_u8 rt;
        preference = r.preference;
        route_lifetime = lt;
        prefix = rt.ip;
      })
      ∷ []))

unfoldable pub apply_routes :
    RoutePlugin → World → List Prefix → RouterAdvertisement → Result PluginError RouterAdvertisement
apply_routes r w routes ra = do lt ← lifetime r w.now; ok (push_routes r lt routes ra)

-- RDNSS.apply.
unfoldable pub apply_servers : RdnssPlugin → List Addr → RouterAdvertisement → RouterAdvertisement
apply_servers r servers ra =
    push_options ra
      (recursive_dns_server (record { lifetime = r.lifetime; servers = servers }) ∷ [])

-- uint32(*m).
unfoldable pub to_u32 : ℤ → ℕ
to_u32 (pos n) = n % 2 ^ 32
to_u32 (negsuc n) = 2 ^ 32 - 1 - n % 2 ^ 32

abbrev pub apply_prefix :
    PrefixPlugin → World → RouterAdvertisement → Result PluginError RouterAdvertisement
apply_prefix p w ra =
    if not p.auto
    then apply_prefixes p w (p.prefix ∷ []) ra
    else do prefixes ← Prefixes.current p w; apply_prefixes p w prefixes ra

abbrev pub apply_route :
    RoutePlugin → World → RouterAdvertisement → Result PluginError RouterAdvertisement
apply_route r w ra =
    if not r.auto
    then apply_routes r w (r.prefix ∷ []) ra
    else do routes ← Routes.current r w; apply_routes r w routes ra

abbrev pub apply_rdnss :
    RdnssPlugin → World → RouterAdvertisement → Result PluginError RouterAdvertisement
apply_rdnss r w ra =
    if not r.auto
    then ok (apply_servers r r.servers ra)
    else do server ← Rdnss.current r w; ok (apply_servers r (server ∷ r.servers) ra)

abbrev pub apply_dnssl : DnsslPlugin → RouterAdvertisement → RouterAdvertisement
apply_dnssl d ra =
    push_options ra
      (dns_search_list (record { lifetime = d.lifetime; domain_names = d.domain_names }) ∷ [])

-- `fresh` is the identity of the object that this call allocates.
abbrev pub apply_mtu : ℕ → ℤ → RouterAdvertisement → RouterAdvertisement
apply_mtu fresh m ra = push_options ra (Ndp.mtu (record { ref = fresh; mtu = to_u32 m }) ∷ [])

abbrev pub apply_lla : Option (List ℕ) → RouterAdvertisement → RouterAdvertisement
apply_lla none ra = ra
apply_lla (some addr) ra =
    push_options ra (link_layer_address (record { source = true; addr = addr }) ∷ [])

abbrev pub apply_captive_portal : CaptivePortal → RouterAdvertisement → RouterAdvertisement
apply_captive_portal c ra = push_options ra (Ndp.captive_portal c ∷ [])

abbrev pub apply_pref64 : Pref64 → RouterAdvertisement → RouterAdvertisement
apply_pref64 p ra = push_options ra (Ndp.pref64 p ∷ [])

-- The method call on the interface Plugin.
unfoldable pub apply :
    World → ℕ → Plugin → RouterAdvertisement → Result PluginError RouterAdvertisement
apply w fresh (prefix p) ra = apply_prefix p w ra
apply w fresh (route r) ra = apply_route r w ra
apply w fresh (rdnss r) ra = apply_rdnss r w ra
apply w fresh (dnssl d) ra = ok (apply_dnssl d ra)
apply w fresh (mtu m) ra = ok (apply_mtu fresh m ra)
apply w fresh (lla addr) ra = ok (apply_lla addr ra)
apply w fresh (captive_portal c) ra = ok (apply_captive_portal c ra)
apply w fresh (pref64 p) ra = ok (apply_pref64 p ra)
