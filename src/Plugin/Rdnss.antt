-- ===== src/Plugin/Rdnss.antt =====
-- RDNSS.current: the address of the interface that stands for the wildcard server ::.
pub mod Preference
pub mod Best
use corerad.Common.{
  ℕ, ◌+◌, ◌*◌, ◌%◌, Bool, true, false, ◌||◌, ◌&&◌, not, List, [], ◌∷◌, if◌then◌else◌, ◌==◌, nat_eq,
  Result, ok, err, ◌>>=◌,
}
use corerad.Netip.Addr
use corerad.Netip.Addr.{Addr, none_addr, shr}
use corerad.Netip.Prefix
use corerad.Netip.Prefix.{none_prefix}
use corerad.System.{Ip, World}
use corerad.Plugin.Types.{RdnssPlugin, PluginError, no_usable_addresses}
use corerad.Plugin.Prefixes.{call_addrs}

-- The value of ip.As16(), with an IPv4 address mapped to ::ffff:0:0/96.
as16 : Addr → ℕ
as16 a = if Addr.is4 a then a.value + 0xffff * 4294967296 else a.value

-- Bytes 11 and 12 of the address are ff and fe.
unfoldable pub is_eui64 : Addr → Bool
unfolding as16 shr
is_eui64 a = shr (as16 a) 32 % 256 == 0xff && shr (as16 a) 24 % 256 == 0xfe

unfoldable pub is_stable : Ip → Bool
unfolding is_eui64
is_stable a =
    a.valid_forever || a.manage_temporary_addresses || a.stable_privacy || is_eui64 a.address.ip

-- The loop over the tests of the two addresses, and the byte comparison that follows it.
unfoldable pub tie_break : List (Addr → Bool) → Ip → Ip → Ip
tie_break [] best cur = if Addr.less cur.address.ip best.address.ip then cur else best
tie_break (fn ∷ fns) best cur =
    let next = tie_break fns best cur in
    let ok_c = fn cur.address.ip in
    let ok_b = fn best.address.ip in
    if ok_c && not ok_b
    then cur
    else if not ok_c && ok_b
    then best
    else if ok_c && ok_b
    then if Addr.less cur.address.ip best.address.ip then cur else best
    else next

unfoldable pub better_rdnss : Ip → Ip → Ip
better_rdnss best cur =
    let tie =
      tie_break (Addr.is_private ∷ Addr.is_global_unicast ∷ Addr.is_link_local_unicast ∷ []) best
        cur in
    if not (Prefix.is_valid best.address)
    then cur
    else if is_stable cur && not (is_stable best)
    then cur
    else if not (is_stable cur) && is_stable best
    then best
    else tie

unfoldable pub is_excluded : Ip → Bool
is_excluded a = Addr.is4 a.address.ip || a.deprecated || a.temporary || a.tentative

-- The zero system.IP, with which the loop starts.
abbrev pub none_ip : Ip
none_ip = record {
  address = none_prefix;
  deprecated = false;
  manage_temporary_addresses = false;
  stable_privacy = false;
  temporary = false;
  tentative = false;
  valid_forever = false;
}

unfoldable pub best_from : Ip → List Ip → Ip
best_from best [] = best
best_from best (a ∷ rest) = best_from (if is_excluded a then best else better_rdnss best a) rest

unfoldable pub current : RdnssPlugin → World → Result PluginError Addr
current r w = do
  addrs ← call_addrs r.addrs w
  let ip = (best_from none_ip addrs).address.ip
  if not (Addr.is_valid ip) then err no_usable_addresses else ok ip
