-- ===== src/Plugin/Routes/Expansion.antt =====
-- What the expansion of ::/0 contains, and in which order (Route.current).
use mathlib.Core.List.Memᴰ
use corerad.Common.{
  ℕ, ◌≡◌, ◌≢◌, refl, sym, Bool, true, false, not, ◌||◌, ◌&&◌, List, [], ◌∷◌, map, some, Memᴰ, arith,
  sort_by, sort_by-sorted, All-sort_by, mem-sort_by, sort_by-AllPairs, IsOrder-on, ok, All,
  AllPairs, All-of_mem, filter, mem-filter, mem-of_filter, filter-AllPairs, dedup_from,
  mem-of_dedup, mem-dedup_all, dedup-distinct, inl, inr,
}
use corerad.Netip.Addr
use corerad.Netip.Addr.{leb-IsOrder}
use corerad.Netip.Prefix
use corerad.Netip.Prefix.{Prefix, prefix_eq}
use corerad.System.{Ip, Route, World}
use corerad.Plugin.Types.{RoutePlugin}
use corerad.Plugin.Prefixes.{by_addr, call_addrs}
use corerad.Plugin.Routes.{
  covers_usable_addr, covering_from, covering_routes, covers, is_covered, uncovered_prefixes,
  current,
}
use corerad.Plugin.Routes.Cover.{
  IsRepresented, uncovered_prefixes-represents, uncovered_prefixes-antichain,
}

-- A route that may be advertised: IPv6, no single address, and covering a usable address.
abbrev pub is_eligible : List Ip → Route → Bool
is_eligible addrs rt =
    not (Addr.is4 rt.prefix.ip || Prefix.is_single_ip rt.prefix)
    && covers_usable_addr rt.prefix addrs

abbrev prefix_of : Route → Prefix
prefix_of rt = rt.prefix

abbrev candidates : List Ip → List Route → List Prefix
candidates addrs routes = map prefix_of (filter (is_eligible addrs) routes)

-- The loop keeps the first occurrence of each prefix of an eligible route.
covering_from-dedup :
    (addrs : List Ip) (seen : List Prefix) (routes : List Route)
    → covering_from addrs seen routes ≡ dedup_from seen (candidates addrs routes)
unfolding covering_from dedup_from filter
covering_from-dedup addrs seen [] = refl
covering_from-dedup addrs seen (rt ∷ rest) =
    ground (
      arith,
      covering_from-dedup addrs seen rest,
      covering_from-dedup addrs (rt.prefix ∷ seen) rest,
    )

-- `q` is the prefix of an eligible route of the system.
abbrev pub IsEligible : List Ip → List Route → Prefix → Type 0
IsEligible addrs routes q =
    (rt : Route) × Memᴰ rt routes × (is_eligible addrs rt ≡ true) × (rt.prefix ≡ q)

candidates-IsEligible :
    (addrs : List Ip) (routes : List Route) (q : Prefix)
    → Memᴰ q (candidates addrs routes)
    → IsEligible addrs routes q
candidates-IsEligible addrs routes q m =
    let (rt, n, e) = Memᴰ.of_map prefix_of (filter (is_eligible addrs) routes) m in
    let (n', h) = mem-of_filter (is_eligible addrs) routes rt n in (rt, n', h, e)

module _ (addrs : List Ip) (routes : List Route) where
  abbrev found : List Prefix
  found = dedup_from [] (candidates addrs routes)

  abbrev kept : List Prefix
  kept = uncovered_prefixes found

  kept-IsEligible : (q : Prefix) → Memᴰ q kept → IsEligible addrs routes q
  unfolding uncovered_prefixes
  kept-IsEligible q m =
      candidates-IsEligible addrs routes q
        (mem-of_dedup [] _ q (mem-of_filter (λ pfx. not (is_covered pfx found)) found q m).0)

  kept-distinct : AllPairs ◌≢◌ kept
  unfolding uncovered_prefixes
  kept-distinct =
      filter-AllPairs ◌≢◌ (λ pfx. not (is_covered pfx found)) found
        (dedup-distinct [] (candidates addrs routes))

  kept-antichain : (p q : Prefix) → Memᴰ p kept → Memᴰ q kept → covers p q ≡ false
  kept-antichain = uncovered_prefixes-antichain found

  abbrev sorted : List Prefix
  sorted = sort_by by_addr kept

  sorted_represents :
      (rt : Route) → Memᴰ rt routes → is_eligible addrs rt ≡ true → IsRepresented sorted rt.prefix
  sorted_represents rt m h =
      let in_found =
        mem-dedup_all _ _ (Memᴰ.map prefix_of (mem-filter (is_eligible addrs) routes rt m h)) in
      elim (uncovered_prefixes-represents found rt.prefix in_found) [
        | inl k ↦ inl (mem-sort_by by_addr _ _ k)
        | inr (p, k, c) ↦ inr (p, mem-sort_by by_addr _ _ k, c)
      ]

-- Once it is prepared, and when the loopback routes and the addresses of the interface can be
-- read, the wildcard ::/0 stands for a list of prefixes that is ordered by address, names no
-- prefix twice, holds only prefixes of IPv6 routes that are no single address and cover a usable
-- address of the interface, holds no two of which one covers the other, and covers or holds the
-- prefix of every such route.
pub route_current_lem :
    (r : RoutePlugin) (w : World) (index : ℕ) (routes : List Route) (addrs : List Ip)
    → r.routes ≡ true
    → r.addrs ≡ some index
    → w.loopback_routes ≡ ok routes
    → w.addresses_by_index index ≡ ok addrs
    → (out : List Prefix) × (current r w ≡ ok out)
      × AllPairs (λ a b. by_addr a b ≡ true) out
      × AllPairs ◌≢◌ out
      × All (λ p. IsEligible addrs routes p × All (λ q. covers p q ≡ false) out) out
      × ((rt : Route) → Memᴰ rt routes → is_eligible addrs rt ≡ true → IsRepresented out rt.prefix)
unfolding current covering_routes
route_current_lem r w index routes addrs p a k l = (
  sorted addrs routes,
  rw (p, a, call_addrs, l, k, covering_from-dedup addrs [] routes),
  sort_by-sorted by_addr (IsOrder-on (λ (p : Prefix). p.ip) leb-IsOrder) _,
  sort_by-AllPairs by_addr ◌≢◌ (λ x y n e. n (sym e)) _ (kept-distinct addrs routes),
  All-sort_by by_addr _ _ (
      All-of_mem _ _ (λ p m. (
        kept-IsEligible addrs routes p m,
        All-sort_by by_addr _ _ (All-of_mem _ _ (λ q n. kept-antichain addrs routes p q m n)),
      ))),
  sorted_represents addrs routes,
)
