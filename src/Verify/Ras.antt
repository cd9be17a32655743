-- ===== src/Verify/Ras.antt =====
-- When the comparison finds no problem (verify.go).
use corerad.Common.{
  ◌≡◌, ◌↔◌, ◌⊎◌, refl, true, List, [], Option, some, none, arith, ◌==◌, nat_eq, Memᴰ, string_eq,
  list_eq, eqb_iff, bool_eq, bool_beq_iff,
}
use corerad.Common.Int.{ℤ, pos, int_eq, eqb_ℤ_iff}
use corerad.Netip.Addr.{addr_eq, addr_beq_iff}
use corerad.Ndp.{
  NdpOption, PrefixInformation, RouteInformation, RecursiveDnsServer, DnsSearchList, Mtu,
  CaptivePortal, RouterAdvertisement, preference_eq, preference_beq_iff,
}
use corerad.Verify.Problems.{
  pick, pick_first, as_prefix, as_route, as_rdnss, as_dnssl, as_mtu, as_captive_portal, addresses,
  names, durations, numbers, texts,
}
use corerad.Verify.Checks.{
  check_durations, check_ras, check_mtus, prefix_problems, check_prefixes, route_problems,
  check_routes, server_problems, name_problems, check_rdnss, check_dnssl, check_captive_portal,
  mtu_problems, portal_problems,
}
use corerad.Verify.Loops.{push_if_lem, nil_iff_append, list_problems_lem, cross_lem, aligned_lem}

check_durations_lem :
    (a b : ℤ) → (check_durations a b ≡ true) ↔ ((a ≡ pos 0) ⊎ (b ≡ pos 0) ⊎ (a ≡ b))
unfolding check_durations
check_durations_lem a b = ground (arith, eqb_ℤ_iff a (pos 0), eqb_ℤ_iff b (pos 0), eqb_ℤ_iff a b)

-- Two prefixes with one address and length have both lifetimes in common.
Agrees : PrefixInformation → PrefixInformation → Type 0
Agrees a b =
    a.prefix ≡ b.prefix
    → a.prefix_length ≡ b.prefix_length
    → (a.preferred_lifetime ≡ b.preferred_lifetime) × (a.valid_lifetime ≡ b.valid_lifetime)

prefix_problems_lem : (a b : PrefixInformation) → (prefix_problems a b ≡ []) ↔ Agrees a b
unfolding prefix_problems Agrees
prefix_problems_lem a b = ground (
  arith,
  addr_beq_iff a.prefix b.prefix,
  eqb_iff a.prefix_length b.prefix_length,
  eqb_ℤ_iff a.preferred_lifetime b.preferred_lifetime,
  eqb_ℤ_iff a.valid_lifetime b.valid_lifetime,
)

RouteAgrees : RouteInformation → RouteInformation → Type 0
RouteAgrees a b =
    a.prefix ≡ b.prefix
    → a.prefix_length ≡ b.prefix_length
    → a.preference ≡ b.preference
    → a.route_lifetime ≡ b.route_lifetime

route_problems_lem : (a b : RouteInformation) → (route_problems a b ≡ []) ↔ RouteAgrees a b
unfolding route_problems RouteAgrees
route_problems_lem a b = ground (
  arith,
  addr_beq_iff a.prefix b.prefix,
  eqb_iff a.prefix_length b.prefix_length,
  preference_beq_iff a.preference b.preference,
  eqb_ℤ_iff a.route_lifetime b.route_lifetime,
)

server_problems_lem : (a b : RecursiveDnsServer) → (server_problems a b ≡ []) ↔ (a ≡ b)
unfolding server_problems
server_problems_lem a b = ground (
  arith,
  nil_iff_append _ _,
  push_if_lem (a.lifetime == b.lifetime) "rdnss_lifetime" (durations a.lifetime b.lifetime),
  eqb_ℤ_iff a.lifetime b.lifetime,
  list_problems_lem a.servers b.servers "rdnss_servers" (addresses a.servers b.servers),
)

name_problems_lem : (a b : DnsSearchList) → (name_problems a b ≡ []) ↔ (a ≡ b)
unfolding name_problems
name_problems_lem a b = ground (
  arith,
  nil_iff_append _ _,
  push_if_lem (a.lifetime == b.lifetime) "dnssl_lifetime" (durations a.lifetime b.lifetime),
  eqb_ℤ_iff a.lifetime b.lifetime,
  list_problems_lem a.domain_names b.domain_names "dnssl_domain_names"
      (names a.domain_names b.domain_names),
)

module _ (a b : RouterAdvertisement) where
  -- The fields that must agree, and the values that leave them open.
  pub record IsFieldsConsistent : Type 0 where
    pub hop_limit : a.current_hop_limit ≡ b.current_hop_limit
    pub managed : a.managed_configuration ≡ b.managed_configuration
    pub other : a.other_configuration ≡ b.other_configuration
    pub reachable :
        (a.reachable_time ≡ pos 0)
        ⊎ (b.reachable_time ≡ pos 0)
        ⊎ (a.reachable_time ≡ b.reachable_time)
    pub retransmit :
        (a.retransmit_timer ≡ pos 0)
        ⊎ (b.retransmit_timer ≡ pos 0)
        ⊎ (a.retransmit_timer ≡ b.retransmit_timer)

  pub check_ras_lem : (check_ras a b ≡ []) ↔ IsFieldsConsistent
  unfolding check_ras
  check_ras_lem = ground (
    arith,
    eqb_iff a.current_hop_limit b.current_hop_limit,
    bool_beq_iff a.managed_configuration b.managed_configuration,
    bool_beq_iff a.other_configuration b.other_configuration,
    check_durations_lem a.reachable_time b.reachable_time,
    check_durations_lem a.retransmit_timer b.retransmit_timer,
  )

some_inj : {A : Type 0} {x y : A} → Path (Option A) (some x) (some y) → x ≡ y
some_inj h = cc

mtu_problems_lem :
    (x y : Option Mtu)
    → (mtu_problems x y ≡ []) ↔ ((m n : Mtu) → x ≡ some m → y ≡ some n → m.ref ≡ n.ref)
mtu_problems_lem none y = (λ h m n p q. cc, λ h. refl)
mtu_problems_lem (some a) none = (λ h m n p q. cc, λ h. refl)
mtu_problems_lem (some a) (some b) =
    let e = push_if_lem (a.ref == b.ref) "mtu" (numbers a.mtu b.mtu) in
    (
      λ h m n p q. rw (← some_inj p, ← some_inj q) ((eqb_iff a.ref b.ref).0 (e.0 h)),
      λ h. e.1 ((eqb_iff a.ref b.ref).1 (h a b refl refl)),
    )

portal_problems_lem :
    (x y : Option CaptivePortal)
    → (portal_problems x y ≡ []) ↔ ((c d : CaptivePortal) → x ≡ some c → y ≡ some d → c.ref ≡ d.ref)
portal_problems_lem none y = (λ h m n p q. cc, λ h. refl)
portal_problems_lem (some a) none = (λ h m n p q. cc, λ h. refl)
portal_problems_lem (some a) (some b) =
    let e = push_if_lem (a.ref == b.ref) "captive_portal" (texts a.uri b.uri) in
    (
      λ h c d p q. rw (← some_inj p, ← some_inj q) ((eqb_iff a.ref b.ref).0 (e.0 h)),
      λ h. e.1 ((eqb_iff a.ref b.ref).1 (h a b refl refl)),
    )

module _ (want got : List NdpOption) where
  -- The check of the MTU options compares the option objects and not the MTUs: it reports nothing
  -- just where one side has no MTU option, or the first MTU options of the two are one object.
  pub check_mtus_lem : (check_mtus want got ≡ []) ↔ (
      (m n : Mtu)
      → pick_first as_mtu want ≡ some m
      → pick_first as_mtu got ≡ some n
      → m.ref ≡ n.ref)
  unfolding check_mtus
  check_mtus_lem = mtu_problems_lem _ _

  pub check_captive_portal_lem : (check_captive_portal want got ≡ []) ↔ (
      (c d : CaptivePortal)
      → pick_first as_captive_portal want ≡ some c
      → pick_first as_captive_portal got ≡ some d
      → c.ref ≡ d.ref)
  unfolding check_captive_portal
  check_captive_portal_lem = portal_problems_lem _ _

  -- The prefixes of two routers are consistent just where any two of one address and length agree
  -- in both lifetimes.
  pub check_prefixes_lem : (check_prefixes want got ≡ []) ↔ (
      (a b : PrefixInformation)
      → Memᴰ a (pick as_prefix want)
      → Memᴰ b (pick as_prefix got)
      → a.prefix ≡ b.prefix
      → a.prefix_length ≡ b.prefix_length
      → (a.preferred_lifetime ≡ b.preferred_lifetime) × (a.valid_lifetime ≡ b.valid_lifetime))
  unfolding check_prefixes Agrees
  check_prefixes_lem =
      let c = cross_lem prefix_problems (pick as_prefix want) (pick as_prefix got) in
      (
        λ h a b m n. (prefix_problems_lem a b).0 (c.0 h a b m n),
        λ h. c.1 (λ a b m n. (prefix_problems_lem a b).1 (h a b m n)),
      )

  -- The routes are consistent just where any two of one address, length and preference have one
  -- lifetime.
  pub check_routes_lem : (check_routes want got ≡ []) ↔ (
      (a b : RouteInformation)
      → Memᴰ a (pick as_route want)
      → Memᴰ b (pick as_route got)
      → a.prefix ≡ b.prefix
      → a.prefix_length ≡ b.prefix_length
      → a.preference ≡ b.preference
      → a.route_lifetime ≡ b.route_lifetime)
  unfolding check_routes RouteAgrees
  check_routes_lem =
      let c = cross_lem route_problems (pick as_route want) (pick as_route got) in
      (
        λ h a b m n. (route_problems_lem a b).0 (c.0 h a b m n),
        λ h. c.1 (λ a b m n. (route_problems_lem a b).1 (h a b m n)),
      )

  -- The RDNSS options, where both routers send some, are consistent just where they are the same
  -- options in the same order: lifetimes, servers and the servers' order.
  pub check_rdnss_lem : (check_rdnss want got ≡ []) ↔ (
      (pick as_rdnss want ≡ [])
      ⊎ (pick as_rdnss got ≡ [])
      ⊎ (pick as_rdnss want ≡ pick as_rdnss got))
  unfolding check_rdnss
  check_rdnss_lem = aligned_lem server_problems server_problems_lem _ _ _ _

  -- The DNSSL options are consistent in the same way.
  pub check_dnssl_lem : (check_dnssl want got ≡ []) ↔ (
      (pick as_dnssl want ≡ [])
      ⊎ (pick as_dnssl got ≡ [])
      ⊎ (pick as_dnssl want ≡ pick as_dnssl got))
  unfolding check_dnssl
  check_dnssl_lem = aligned_lem name_problems name_problems_lem _ _ _ _
