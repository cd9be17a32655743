-- ===== src/Plugin/Prefixes.antt =====
-- Prefix.current: the prefixes that ::/N stands for on the interface.
pub mod Expansion
use corerad.Common.{
  ℕ, Bool, true, false, ◌||◌, ◌&&◌, not, List, [], ◌∷◌, Option, some, none, if◌then◌else◌, ◌==◌,
  nat_eq, contains, sort_by, Result, ok, panic, ◌>>=◌, wrap_err,
}
use corerad.Netip.Addr
use corerad.Netip.Prefix
use corerad.Netip.Prefix.{Prefix, prefix_eq}
use corerad.System.{Ip, World}
use corerad.Plugin.Types.{PrefixPlugin, PluginError, fetch_addresses}

-- usableAddr.
unfoldable pub usable_addr : Ip → Bool
usable_addr a =
    if Addr.is4 a.address.ip || Addr.is_link_local_unicast a.address.ip
    then false
    else not a.temporary && not a.tentative

-- An address that the loop of `current` passes over.
unfoldable pub is_skipped : PrefixPlugin → Ip → Bool
unfolding usable_addr
is_skipped p a = not (usable_addr a) || not (a.address.bits_plus_one == p.prefix.bits_plus_one)

-- The loop over the addresses; `seen` holds the prefixes that are already kept.
unfoldable pub current_from : PrefixPlugin → List Prefix → List Ip → List Prefix
unfolding is_skipped
current_from p seen [] = []
current_from p seen (a ∷ rest) =
    let pfx = Prefix.masked a.address in
    let skip = current_from p seen rest in
    let keep = pfx ∷ current_from p (pfx ∷ seen) rest in
    if is_skipped p a then skip else if contains seen pfx then skip else keep

-- A call of Addrs, which panics while it is nil.
unfoldable pub call_addrs : Option ℕ → World → Result PluginError (List Ip)
call_addrs none w = panic
call_addrs (some index) w = wrap_err fetch_addresses (w.addresses_by_index index)

-- a.Addr().Compare(b.Addr()) <= 0.
abbrev pub by_addr : Prefix → Prefix → Bool
by_addr p q = Addr.leb p.ip q.ip

unfoldable pub current : PrefixPlugin → World → Result PluginError (List Prefix)
unfolding current_from call_addrs
current p w = do addrs ← call_addrs p.addrs w; ok (sort_by by_addr (current_from p [] addrs))
