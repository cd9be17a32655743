-- ===== src/Plugin/Prefixes/Expansion.antt =====
-- What the expansion of ::/N contains, and in which order (Prefix.current).
use mathlib.Core.List.Memᴰ
use corerad.Common.{
  ℕ, ◌≡◌, ◌≢◌, refl, sym, Bool, true, false, not, List, [], ◌∷◌, map, some, Memᴰ, arith, sort_by,
  sort_by-sorted, All-sort_by, mem-sort_by, sort_by-AllPairs, ok, All, AllPairs, All-of_mem, filter,
  mem-filter, mem-of_filter, dedup_from, mem-of_dedup, mem-dedup_all, IsOrder-on, dedup-distinct,
}
use corerad.Netip.Addr.{leb-IsOrder}
use corerad.Netip.Prefix
use corerad.Netip.Prefix.{Prefix, prefix_eq}
use corerad.System.{Ip, World}
use corerad.Plugin.Types.{PrefixPlugin}
use corerad.Plugin.Prefixes.{is_skipped, current_from, current, by_addr, call_addrs}

abbrev masked_of : Ip → Prefix
masked_of a = Prefix.masked a.address

abbrev candidates : PrefixPlugin → List Ip → List Prefix
candidates p addrs = map masked_of (filter (λ a. not (is_skipped p a)) addrs)

-- The loop keeps the first occurrence of each masked prefix of the addresses that it does not skip.
current_from-dedup :
    (p : PrefixPlugin) (seen : List Prefix) (addrs : List Ip)
    → current_from p seen addrs ≡ dedup_from seen (candidates p addrs)
unfolding current_from dedup_from filter
current_from-dedup p seen [] = refl
current_from-dedup p seen (a ∷ rest) =
    ground (arith, current_from-dedup p seen rest, current_from-dedup p (masked_of a ∷ seen) rest)

mem-candidates :
    (p : PrefixPlugin) (addrs : List Ip) (a : Ip)
    → Memᴰ a addrs
    → is_skipped p a ≡ false
    → Memᴰ (masked_of a) (candidates p addrs)
mem-candidates p addrs a m h = Memᴰ.map masked_of (mem-filter _ addrs a m (rw h))

-- `q` is the masked prefix of an address among `addrs` that the plugin does not skip.
abbrev pub IsExpanded : PrefixPlugin → List Ip → Prefix → Type 0
IsExpanded p addrs q =
    (a : Ip) × Memᴰ a addrs × (is_skipped p a ≡ false) × (Prefix.masked a.address ≡ q)

not-eq-true : (b : Bool) → not b ≡ true → b ≡ false
not-eq-true b h = ground arith

candidates-IsExpanded :
    (p : PrefixPlugin) (addrs : List Ip) (q : Prefix)
    → Memᴰ q (candidates p addrs)
    → IsExpanded p addrs q
candidates-IsExpanded p addrs q m =
    let (a, n, e) = Memᴰ.of_map masked_of (filter (λ a. not (is_skipped p a)) addrs) m in
    let (n', h) = mem-of_filter (λ a. not (is_skipped p a)) addrs a n in (a, n', not-eq-true _ h, e)

-- When the addresses of the interface can be read, the wildcard ::/N stands for a list of
-- prefixes that is ordered by address, names no prefix twice, holds only masked prefixes of
-- addresses that are usable and have the length N, and holds the prefix of every such address.
pub prefix_current_lem :
    (p : PrefixPlugin) (w : World) (index : ℕ) (addrs : List Ip)
    → p.addrs ≡ some index
    → w.addresses_by_index index ≡ ok addrs
    → (out : List Prefix) × (current p w ≡ ok out)
      × AllPairs (λ a b. by_addr a b ≡ true) out
      × AllPairs ◌≢◌ out
      × All (IsExpanded p addrs) out
      × ((a : Ip) → Memᴰ a addrs → is_skipped p a ≡ false → Memᴰ (Prefix.masked a.address) out)
unfolding current
prefix_current_lem p w index addrs h k = (
  sort_by by_addr (dedup_from [] (candidates p addrs)),
  rw (h, call_addrs, k, current_from-dedup p [] addrs),
  sort_by-sorted by_addr (IsOrder-on (λ (p : Prefix). p.ip) leb-IsOrder) _,
  sort_by-AllPairs by_addr ◌≢◌ (λ a b n e. n (sym e)) _ (dedup-distinct [] (candidates p addrs)),
  All-sort_by by_addr (IsExpanded p addrs) _
      (All-of_mem _ _ (λ q m. candidates-IsExpanded p addrs q (mem-of_dedup [] _ q m))),
  λ a m s. mem-sort_by by_addr _ _ (mem-dedup_all _ _ (mem-candidates p addrs a m s)),
)
