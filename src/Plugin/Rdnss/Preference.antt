-- ===== src/Plugin/Rdnss/Preference.antt =====
-- The order by which betterRDNSS chooses: stability, then the kind of address, then its bytes.
use corerad.Common.{
  ℕ, ◌+◌, ◌≤◌, ◌≡◌, Bool, true, ◌||◌, ◌&&◌, [], ◌∷◌, if◌then◌else◌, ◌==◌, nat_eq, ltb, arith,
  IsOrder,
}
use corerad.Netip.Addr
use corerad.Netip.Addr.{Addr, leb-IsOrder}
use corerad.Netip.Prefix
use corerad.System.{Ip}
use corerad.Plugin.Rdnss.{is_stable, tie_break, better_rdnss}

-- Unique local addresses first, then global ones, link-local ones, and the others last.
pub kind : Addr → ℕ
kind a =
    if Addr.is_private a
    then 0
    else if Addr.is_global_unicast a
    then 1
    else if Addr.is_link_local_unicast a
    then 2
    else 3

-- Any stable address ranks before any other.
pub rank : Ip → ℕ
rank a = if is_stable a then kind a.address.ip else 4 + kind a.address.ip

-- `a` is at least as good a server as `b`.
pub preferred : Ip → Ip → Bool
preferred a b = ltb (rank a) (rank b) || (rank a == rank b && Addr.leb a.address.ip b.address.ip)

by_kind : Ip → Ip → Bool
by_kind a b =
    ltb (kind a.address.ip) (kind b.address.ip)
    || (kind a.address.ip == kind b.address.ip && Addr.leb a.address.ip b.address.ip)

kind-le-three : (a : Addr) → kind a ≤ 3
unfolding kind
kind-le-three a = ground arith

pub preferred-IsOrder : IsOrder preferred
unfolding preferred
preferred-IsOrder = record {
  total = λ a b h. ground (arith, leb-IsOrder.total a.address.ip b.address.ip);
  trans = λ a b c h k. ground (arith, leb-IsOrder.trans a.address.ip b.address.ip c.address.ip);
}

tie_break_lem :
    (best cur : Ip)
    → tie_break
        (Addr.is_private ∷ Addr.is_global_unicast ∷ Addr.is_link_local_unicast ∷ [])
        best
        cur
      ≡ (if by_kind best cur then best else cur)
unfolding tie_break by_kind kind Addr.less
tie_break_lem best cur = ground arith

-- The routine chooses by that order, and keeps the older address on a tie.
pub better_rdnss_lem :
    (best cur : Ip)
    → Prefix.is_valid best.address ≡ true
    → better_rdnss best cur ≡ (if preferred best cur then best else cur)
unfolding better_rdnss preferred rank by_kind
better_rdnss_lem best cur v =
    ground
      (arith, tie_break_lem best cur, kind-le-three best.address.ip, kind-le-three cur.address.ip)
