-- ===== src/System/Portable.antt =====
-- The Addresser over package net (netAddresser in internal/system/addresser.go), for systems other than
-- Linux.
use corerad.Common.{
  ℕ, ◌≡◌, true, false, ◌||◌, not, List, [], ◌∷◌, Option, some, none, Result, ok, err, ◌>>=◌,
  if◌then◌else◌, All, arith, Bool-cases, Option-cases, some_inj, ok_inj, inl, inr, panic,
}
use corerad.Netip.Addr
use corerad.Netip.Addr.{Addr, from_slice}
use corerad.Netip.Prefix.{prefix_from}
use corerad.System.{Error, Ip, Route}

-- The address of a *net.IPNet with the ones of its mask, or `none` for an address of another type.
abbrev pub NetAddr : Type 0
NetAddr = Option (List ℕ × ℕ)

-- An address without flags.
abbrev pub plain : Addr → ℕ → Ip
plain ip bits = record {
  address = prefix_from ip bits;
  deprecated = false;
  manage_temporary_addresses = false;
  stable_privacy = false;
  temporary = false;
  tentative = false;
  valid_forever = false;
}

-- The body of the loop: the address that it appends, if any.
unfoldable pub to_ip : NetAddr → Option Ip
to_ip none = none
to_ip (some (bytes, bits)) = elim (from_slice bytes) [
  | none ↦ none
  | some ip ↦ if not (Addr.is6 ip) || Addr.is4_in6 ip then none else some (plain ip bits)
]

unfoldable pub gather : List NetAddr → List Ip
gather [] = []
gather (a ∷ rest) =
    let later = gather rest in elim (to_ip a) [ none ↦ later | some ip ↦ ip ∷ later ]

-- AddressesByIndex, from the answers of InterfaceByIndex and Addrs.
unfoldable pub addresses_by_index :
    Option Error → Result Error (List NetAddr) → Result Error (List Ip)
addresses_by_index (some e) addrs = err e
addresses_by_index none addrs = do as_list ← addrs; ok (gather as_list)

unfoldable pub loopback_routes : Result Error (List Route)
loopback_routes = ok []

-- An address that the Linux Addresser reports too: IPv6, and not an IPv4 address in IPv6 form.
abbrev pub IsIpv6 : Ip → Type 0
IsIpv6 ip = (Addr.is6 ip.address.ip ≡ true) × (Addr.is4_in6 ip.address.ip ≡ false)

to_ip-IsIpv6 : (a : NetAddr) {ip : Ip} → to_ip a ≡ some ip → IsIpv6 ip
unfolding to_ip Addr.is6 Addr.is4_in6 prefix_from
to_ip-IsIpv6 none h = cc
to_ip-IsIpv6 (some (bytes, bits)) {ip} h = elim (Option-cases (from_slice bytes)) [
  | inl e ↦ cc (rw (e, to_ip) at h)
  | inr (x, e) ↦ elim (Bool-cases (not (Addr.is6 x) || Addr.is4_in6 x)) [
    | inl t ↦ cc (rw (e, t, to_ip) at h)
    | inr f ↦
        let q : plain x bits ≡ ip = some_inj (rw (e, f, to_ip) at h) in rw (← q) (ground arith)
  ]
]

gather-IsIpv6 : (addrs : List NetAddr) → All IsIpv6 (gather addrs)
unfolding gather
gather-IsIpv6 [] = tt
gather-IsIpv6 (a ∷ rest) = elim (Option-cases (to_ip a)) [
  | inl e ↦ rw (e, gather) (gather-IsIpv6 rest)
  | inr (ip, e) ↦ rw (e, gather) (to_ip-IsIpv6 a e, gather-IsIpv6 rest)
]

-- Whatever the interface has, all addresses that are reported are IPv6 and not mapped IPv4 addresses.
pub addresses_by_index-IsIpv6 :
    (lookup : Option Error) (addrs : Result Error (List NetAddr)) {ips : List Ip}
    → addresses_by_index lookup addrs ≡ ok ips
    → All IsIpv6 ips
unfolding addresses_by_index
addresses_by_index-IsIpv6 (some e) addrs h = cc
addresses_by_index-IsIpv6 none (err e) h = cc
addresses_by_index-IsIpv6 none panic h = cc
addresses_by_index-IsIpv6 none (ok as_list) h = rw (← ok_inj h) (gather-IsIpv6 as_list)
