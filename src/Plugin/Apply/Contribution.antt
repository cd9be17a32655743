-- ===== src/Plugin/Apply/Contribution.antt =====
-- Apply only appends: what a plugin adds does not depend on the advertisement.
use mathlib.Core.List.{append-nil, append_assoc}
use corerad.Common.{
  ℕ, ◌≡◌, refl, ◌∙◌, ap, true, List, [], ◌∷◌, map, some, none, arith, if◌then◌else◌, Result, ok,
  ◌>>=◌,
}
use corerad.Common.Int.{ℤ}
use corerad.Netip.Prefix
use corerad.Netip.Prefix.{Prefix}
use corerad.Ndp.{NdpOption, RouterAdvertisement, prefix_information, route_information}
use corerad.Ndp
use corerad.System.{World}
use corerad.Plugin.Types.{
  Plugin, PluginError, PrefixPlugin, RoutePlugin, prefix, route, rdnss, dnssl, mtu, lla,
  captive_portal, pref64,
}
use corerad.Plugin.Lifetimes.{lifetimes, lifetime}
use corerad.Plugin.Prefixes
use corerad.Plugin.Routes
use corerad.Plugin.Rdnss
use corerad.Plugin.Apply.{
  push_options, push_routes, apply_routes, apply_prefixes, apply_servers, apply, to_u32,
}

unfoldable pub prefix_option : PrefixPlugin → ℤ × ℤ → Prefix → NdpOption
prefix_option p (valid, pref) pfx = prefix_information (record {
  prefix_length = Prefix.bits_u8 pfx;
  on_link = p.on_link;
  autonomous_address_configuration = p.autonomous;
  valid_lifetime = valid;
  preferred_lifetime = pref;
  prefix = pfx.ip;
})

unfoldable pub route_option : RoutePlugin → ℤ → Prefix → NdpOption
route_option r lt rt = route_information (record {
  prefix_length = Prefix.bits_u8 rt;
  preference = r.preference;
  route_lifetime = lt;
  prefix = rt.ip;
})

-- The options of a plugin: one for each of its prefixes or routes, in order, all with the same
-- lifetimes; or one option.
unfoldable pub contribution : World → ℕ → Plugin → Result PluginError (List NdpOption)
contribution w fresh (prefix p) = do
  prefixes ← if p.auto then Prefixes.current p w else ok (p.prefix ∷ [])
  lts ← lifetimes p w.now
  ok (map (prefix_option p lts) prefixes)
contribution w fresh (route r) = do
  routes ← if r.auto then Routes.current r w else ok (r.prefix ∷ [])
  lt ← lifetime r w.now
  ok (map (route_option r lt) routes)
contribution w fresh (rdnss r) = do
  servers ← if r.auto then Rdnss.current r w >>= (λ s. ok (s ∷ r.servers)) else ok r.servers
  ok (Ndp.recursive_dns_server (record { lifetime = r.lifetime; servers = servers }) ∷ [])
contribution w fresh (dnssl d) =
    ok (Ndp.dns_search_list (record { lifetime = d.lifetime; domain_names = d.domain_names }) ∷ [])
contribution w fresh (mtu m) = ok (Ndp.mtu (record { ref = fresh; mtu = to_u32 m }) ∷ [])
contribution w fresh (lla none) = ok []
contribution w fresh (lla (some addr)) =
    ok (Ndp.link_layer_address (record { source = true; addr = addr }) ∷ [])
contribution w fresh (captive_portal c) = ok (Ndp.captive_portal c ∷ [])
contribution w fresh (pref64 p) = ok (Ndp.pref64 p ∷ [])

push_routes_lem :
    (r : RoutePlugin) (lt : ℤ) (routes : List Prefix) (ra : RouterAdvertisement)
    → push_routes r lt routes ra ≡ push_options ra (map (route_option r lt) routes)
unfolding push_routes route_option
push_routes_lem r lt [] ra = refl
push_routes_lem r lt (rt ∷ rest) ra =
    push_routes_lem r lt rest (push_options ra (route_option r lt rt ∷ []))
    ∙ ap (λ os. record ra { options = os }) (append_assoc ra.options _ _)

apply_prefixes_lem :
    (p : PrefixPlugin) (w : World) (prefixes : List Prefix) (ra : RouterAdvertisement)
    → apply_prefixes p w prefixes ra
      ≡ (lifetimes p w.now >>= λ lts. ok (push_options ra (map (prefix_option p lts) prefixes)))
unfolding apply_prefixes prefix_option
apply_prefixes_lem p w prefixes ra = ground arith

apply_routes_lem :
    (r : RoutePlugin) (w : World) (routes : List Prefix) (ra : RouterAdvertisement)
    → apply_routes r w routes ra
      ≡ (lifetime r w.now >>= λ lt. ok (push_options ra (map (route_option r lt) routes)))
unfolding apply_routes
apply_routes_lem r w routes ra = simp push_routes_lem

-- Applying a plugin to an advertisement appends the plugin's options, which do not depend on the
-- advertisement, and changes no other field; or it fails as they do.
pub apply_lem :
    (w : World) (fresh : ℕ) (p : Plugin) (ra : RouterAdvertisement)
    → apply w fresh p ra ≡ (contribution w fresh p >>= λ os. ok (push_options ra os))
unfolding apply contribution apply_servers
apply_lem w fresh (prefix p) ra = simp apply_prefixes_lem (ground arith)
apply_lem w fresh (route r) ra = simp apply_routes_lem (ground arith)
apply_lem w fresh (rdnss r) ra = ground arith
apply_lem w fresh (dnssl d) ra = refl
apply_lem w fresh (mtu m) ra = refl
apply_lem w fresh (lla none) ra = rw append-nil
apply_lem w fresh (lla (some addr)) ra = refl
apply_lem w fresh (captive_portal c) ra = refl
apply_lem w fresh (pref64 p) ra = refl
