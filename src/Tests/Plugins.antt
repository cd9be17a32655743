-- ===== src/Tests/Plugins.antt =====
-- The plugins on a small network.
use corerad.Common.{
  ℕ, ◌+◌, ◌*◌, ◌/◌, ◌≤◌, ◌<◌, ◌≡◌, ◌≢◌, ◌↔◌, ◌⊎◌, refl, true, false, List, [], ◌∷◌, ok, err, ◌>>=◌,
  All, AllPairs, Memᴰ, arith, sort_by, contains,
}
use corerad.Common.Int.{ℤ, pos, ◌≤ℤ◌, ◌+ℤ◌}
use corerad.Netip.Addr
use corerad.Netip.Addr.{Addr, v6}
use corerad.Netip.Prefix
use corerad.Netip.Prefix.{Prefix, prefix6}
use corerad.System.{Ip, Route}
use corerad.Plugin.Types.{rdnss, no_usable_addresses}
use corerad.Plugin.Lifetimes.{lifetimes, lifetimes_deprecated}
use corerad.Plugin.Prefixes
use corerad.Plugin.Prefixes.{by_addr, is_skipped}
use corerad.Plugin.Prefixes.Expansion.{IsExpanded, prefix_current_lem}
use corerad.Plugin.Routes
use corerad.Plugin.Routes.{covers}
use corerad.Plugin.Routes.Cover.{IsRepresented}
use corerad.Plugin.Routes.Expansion.{is_eligible, IsEligible, route_current_lem}
use corerad.Plugin.Rdnss
use corerad.Plugin.Rdnss.{is_excluded}
use corerad.Plugin.Rdnss.Best.{IsBest, IsReported, rdnss_current_lem}
use corerad.Plugin.Pref64.{new_pref64, second, new_pref64_lem}
use corerad.Plugin.Apply.{apply, push_options}
use corerad.Plugin.Apply.Contribution.{contribution, apply_lem}
use corerad.Tests.Data.{addrs, routes, world, prefix_plugin, route_plugin, rdnss_plugin, empty_ra}

-- The covering route alone remains.
route_current_run :
    Routes.current route_plugin world ≡ ok (prefix6 0x20010db8000000000000000000000000 32 ∷ [])
unfolding Routes.current sort_by Addr.is4 Prefix.is_single_ip contains Routes.covers_usable_addr
    Prefixes.usable_addr Addr.is_link_local_unicast Prefix.contains
route_current_run = refl

route_current_example :
    (out : List Prefix) × (Routes.current route_plugin world ≡ ok out)
    × AllPairs (λ a b. by_addr a b ≡ true) out
    × AllPairs ◌≢◌ out
    × All (λ p. IsEligible addrs routes p × All (λ q. covers p q ≡ false) out) out
    × ((rt : Route) → Memᴰ rt routes → is_eligible addrs rt ≡ true → IsRepresented out rt.prefix)
route_current_example = route_current_lem route_plugin world 1 routes addrs refl refl refl refl

prefix_current_example :
    (out : List Prefix) × (Prefixes.current prefix_plugin world ≡ ok out)
    × AllPairs (λ a b. by_addr a b ≡ true) out
    × AllPairs ◌≢◌ out
    × All (IsExpanded prefix_plugin addrs) out
    × ((a : Ip)
        → Memᴰ a addrs
        → is_skipped prefix_plugin a ≡ false
        → Memᴰ (Prefix.masked a.address) out)
prefix_current_example = prefix_current_lem prefix_plugin world 1 addrs refl refl

addrs-IsReported : All IsReported addrs
unfolding Prefix.is_valid Addr.is_valid
addrs-IsReported = ((refl, refl), ((refl, refl), ((refl, refl), tt)))

rdnss_current_example :
    ((b : Ip) × IsBest addrs b × (Rdnss.current rdnss_plugin world ≡ ok b.address.ip))
    ⊎ (All (λ a. is_excluded a ≡ true) addrs
        × (Rdnss.current rdnss_plugin world ≡ err no_usable_addresses))
rdnss_current_example = rdnss_current_lem rdnss_plugin world 1 addrs refl refl addrs-IsReported

lifetimes_example :
    (valid pref valid' pref' : ℤ) × (lifetimes prefix_plugin (pos 2000000000) ≡ ok (valid, pref))
    × (lifetimes prefix_plugin (pos 5000000000) ≡ ok (valid', pref'))
    × (pos 0 ≤ℤ valid)
    × (pos 0 ≤ℤ pref)
    × (prefix_plugin.preferred_lifetime ≤ℤ prefix_plugin.valid_lifetime → pref ≤ℤ valid)
    × ((valid ≡ pos 0) ↔ (prefix_plugin.epoch +ℤ prefix_plugin.valid_lifetime ≤ℤ pos 2000000000))
    × ((pref ≡ pos 0) ↔ (prefix_plugin.epoch +ℤ prefix_plugin.preferred_lifetime ≤ℤ pos 2000000000))
    × (valid' ≤ℤ valid)
    × (pref' ≤ℤ pref)
lifetimes_example =
    lifetimes_deprecated prefix_plugin (pos 2000000000) (pos 5000000000) refl (ground arith) refl
      (omega arith)

new_pref64_example :
    (k : ℕ) × ((new_pref64 (prefix6 0 96) (pos 601000000000)).lifetime ≡ pos (8 * k * second))
    × (k ≤ 8191)
    × (((601000000000 / second * 3 ≤ 8 * k) × (8 * k < 601000000000 / second * 3 + 8))
        ⊎ ((k ≡ 8191) × (65528 ≤ 601000000000 / second * 3)))
new_pref64_example = new_pref64_lem (prefix6 0 96) 601000000000

apply_example :
    apply world 0 (rdnss rdnss_plugin) empty_ra
    ≡ (contribution world 0 (rdnss rdnss_plugin) >>= λ os. ok (push_options empty_ra os))
apply_example = apply_lem world 0 (rdnss rdnss_plugin) empty_ra
