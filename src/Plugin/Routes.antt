-- ===== src/Plugin/Routes.antt =====
-- Route.current: the routes that ::/0 stands for, from the loopback routes of the system.
pub mod Cover
pub mod Expansion
use corerad.Common.{
  ℕ, Bool, true, false, ◌||◌, ◌&&◌, not, List, [], ◌∷◌, Option, some, none, if◌then◌else◌, ltb, any,
  filter, contains, sort_by, Result, ok, err, panic, ◌>>=◌, wrap_err,
}
use corerad.Netip.Addr
use corerad.Netip.Prefix
use corerad.Netip.Prefix.{Prefix, prefix_eq}
use corerad.System.{Ip, Route, World}
use corerad.Plugin.Types.{RoutePlugin, PluginError, fetch_routes, not_prepared}
use corerad.Plugin.Prefixes.{usable_addr, call_addrs, by_addr}

unfoldable pub covers_usable_addr : Prefix → List Ip → Bool
unfolding any
covers_usable_addr pfx addrs = any (λ a. usable_addr a && Prefix.contains pfx a.address.ip) addrs

-- The loop of coveringRoutes; `seen` holds the prefixes that are already kept.
unfoldable pub covering_from : List Ip → List Prefix → List Route → List Prefix
covering_from addrs seen [] = []
covering_from addrs seen (rt ∷ rest) =
    let skip = covering_from addrs seen rest in
    let keep = rt.prefix ∷ covering_from addrs (rt.prefix ∷ seen) rest in
    if Addr.is4 rt.prefix.ip || Prefix.is_single_ip rt.prefix
    then skip
    else if contains seen rt.prefix
    then skip
    else if not (covers_usable_addr rt.prefix addrs)
    then skip
    else keep

unfoldable pub covering_routes : List Route → List Ip → List Prefix
unfolding covering_from
covering_routes routes addrs = covering_from addrs [] routes

-- `p` is strictly shorter than `q` and contains its address.
unfoldable pub covers : Prefix → Prefix → Bool
covers p q = ltb p.bits_plus_one q.bits_plus_one && Prefix.contains p q.ip

unfoldable pub is_covered : Prefix → List Prefix → Bool
unfolding any covers
is_covered pfx prefixes = any (λ p. covers p pfx) prefixes

unfoldable pub uncovered_prefixes : List Prefix → List Prefix
unfolding filter is_covered
uncovered_prefixes prefixes = filter (λ pfx. not (is_covered pfx prefixes)) prefixes

-- With both functions set by Prepare: their calls, the filters and the sort.
unfoldable pub expand : Result PluginError (List Ip) → World → Result PluginError (List Prefix)
unfolding covering_routes uncovered_prefixes
expand fetched w = do
  routes ← wrap_err fetch_routes w.loopback_routes
  addrs ← fetched
  ok (sort_by by_addr (uncovered_prefixes (covering_routes routes addrs)))

unfoldable pub current : RoutePlugin → World → Result PluginError (List Prefix)
unfolding expand call_addrs
current r w = if not r.routes then err not_prepared else elim r.addrs [
  | none ↦ err not_prepared
  | some index ↦ expand (call_addrs (some index) w) w
]
