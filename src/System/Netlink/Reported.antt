-- ===== src/System/Netlink/Reported.antt =====
-- What the Addresser reports, and what the plugins make of it.
use corerad.Common.{
  ℕ, ◌≤◌, ◌≡◌, ◌⊎◌, inl, inr, true, List, [], ◌∷◌, some, none, Result, ok, err, >>=-eq-ok,
  map_result, All, arith, Option-cases, ◌%◌, ◌^◌,
}
use corerad.Common.Int.{ℤ}
use corerad.Netip.Addr
use corerad.Netip.Addr.{Addr, from_slice}
use corerad.Netip.Prefix
use corerad.Netip.Prefix.{prefix_from}
use corerad.System.{Error, Ip}
use corerad.System.Netlink.{
  Constants, Message, Request, Interface, address_message, route_message, other_message, get_addr,
  parse_ip6, to_ip, addresses_by_index, world_of,
}
use corerad.Plugin.Types.{RdnssPlugin, no_usable_addresses}
use corerad.Plugin.Rdnss.{current, is_excluded}
use corerad.Plugin.Rdnss.Best.{IsBest, IsReported, rdnss_current_lem}

-- The length of an address's prefix is at most that of an IPv6 address.
abbrev pub HasLength : Message → Type 0
HasLength (address_message family prefix_length attributes) = prefix_length ≤ 128
HasLength _ = Unit

parse_ip6_lem : (bytes : List ℕ) {ip : Addr} → parse_ip6 bytes ≡ some ip → ip.bit_len ≡ 128
unfolding parse_ip6 from_slice Addr.is6
parse_ip6_lem bytes h = ground arith

module _ (unix : Constants) where
  to_ip-IsReported : (m : Message) {ip : Ip} → HasLength m → to_ip unix m ≡ ok ip → IsReported ip
  unfolding to_ip prefix_from Prefix.is_valid Addr.is_valid
  to_ip-IsReported (address_message f n none) l h = cc
  to_ip-IsReported (route_message f n a) l h = cc
  to_ip-IsReported other_message l h = cc
  to_ip-IsReported (address_message f n (some a)) l h = elim (Option-cases (parse_ip6 a.address)) [
    | inl e ↦ ground arith
    | inr (ip, e) ↦ ground (arith, parse_ip6_lem a.address e)
  ]

  loop-IsReported :
      (msgs : List Message) {ips : List Ip}
      → All HasLength msgs
      → map_result (to_ip unix) msgs ≡ ok ips
      → All IsReported ips
  unfolding map_result
  loop-IsReported [] {ips} l h = let e : [] ≡ ips = cc in rw (← e) tt
  loop-IsReported (m ∷ msgs) {ips} l h =
      let (ip, p, q) = >>=-eq-ok (to_ip unix m) _ h in
      let (rest, r, s) = >>=-eq-ok (map_result (to_ip unix) msgs) _ q in
      let e : ip ∷ rest ≡ ips = cc in
      rw (← e) (to_ip-IsReported m l.0 p, loop-IsReported msgs l.1 r)

  module _ (execute : Request → Result Error (List Message)) where
    -- Where rtnetlink answers a request for the addresses of an interface with messages whose prefix
    -- lengths are at most 128, and AddressesByIndex returns addresses for them, the wildcard RDNSS
    -- server of a plugin of that interface is the best of these addresses that qualify; or all of them
    -- are excluded, and the plugin returns the error that says so.
    pub rdnss_current_netlink :
        (r : RdnssPlugin) (now : ℤ) (interfaces : Result Error (List Interface)) (index : ℕ)
        (msgs : List Message) (addrs : List Ip)
        → r.addrs ≡ some index
        → execute (get_addr unix.af_inet6 (index % 2 ^ 32)) ≡ ok msgs
        → All HasLength msgs
        → addresses_by_index unix execute index ≡ ok addrs
        → ((b : Ip) × IsBest addrs b
            × (current r (world_of unix execute now interfaces) ≡ ok b.address.ip))
          ⊎ (All (λ a. is_excluded a ≡ true) addrs
              × (current r (world_of unix execute now interfaces) ≡ err no_usable_addresses))
    unfolding addresses_by_index
    rdnss_current_netlink r now interfaces index msgs addrs p q l h =
        rdnss_current_lem r (world_of unix execute now interfaces) index addrs p h
          (loop-IsReported msgs l (rw q at h))
