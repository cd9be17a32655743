-- ===== src/Verify/Consistency.antt =====
-- When two advertisements are reported as consistent: no problem is found (verifyRAs).
use corerad.Common.{◌≡◌, ◌↔◌, ◌⊎◌, [], some, arith, Memᴰ}
use corerad.Ndp.{PrefixInformation, RouteInformation, Mtu, CaptivePortal, RouterAdvertisement}
use corerad.Verify.Problems.{
  pick, pick_first, as_prefix, as_route, as_rdnss, as_dnssl, as_mtu, as_captive_portal,
}
use corerad.Verify.Checks.{verify_ras}
use corerad.Verify.Loops.{nil_iff_append}
use corerad.Verify.Ras.{
  IsFieldsConsistent, check_ras_lem, check_mtus_lem, check_prefixes_lem, check_routes_lem,
  check_rdnss_lem, check_dnssl_lem, check_captive_portal_lem,
}

module _ (a b : RouterAdvertisement) where
  -- Two advertisements are reported as consistent.
  pub record IsConsistent : Type 0 where
    pub fields : IsFieldsConsistent a b
    pub mtu :
        (m n : Mtu)
        → pick_first as_mtu a.options ≡ some m
        → pick_first as_mtu b.options ≡ some n
        → m.ref ≡ n.ref
    pub prefixes :
        (p q : PrefixInformation)
        → Memᴰ p (pick as_prefix a.options)
        → Memᴰ q (pick as_prefix b.options)
        → p.prefix ≡ q.prefix
        → p.prefix_length ≡ q.prefix_length
        → (p.preferred_lifetime ≡ q.preferred_lifetime) × (p.valid_lifetime ≡ q.valid_lifetime)
    pub routes :
        (p q : RouteInformation)
        → Memᴰ p (pick as_route a.options)
        → Memᴰ q (pick as_route b.options)
        → p.prefix ≡ q.prefix
        → p.prefix_length ≡ q.prefix_length
        → p.preference ≡ q.preference
        → p.route_lifetime ≡ q.route_lifetime
    pub rdnss :
        (pick as_rdnss a.options ≡ [])
        ⊎ (pick as_rdnss b.options ≡ [])
        ⊎ (pick as_rdnss a.options ≡ pick as_rdnss b.options)
    pub dnssl :
        (pick as_dnssl a.options ≡ [])
        ⊎ (pick as_dnssl b.options ≡ [])
        ⊎ (pick as_dnssl a.options ≡ pick as_dnssl b.options)
    pub captive_portal :
        (c d : CaptivePortal)
        → pick_first as_captive_portal a.options ≡ some c
        → pick_first as_captive_portal b.options ≡ some d
        → c.ref ≡ d.ref

  -- No problem is reported between two advertisements just where their fields, prefixes, routes,
  -- RDNSS and DNSSL options agree as IsConsistent says, and where the MTU and captive portal options
  -- that both have are the same objects.
  pub verify_ras-IsConsistent : (verify_ras a b ≡ []) ↔ IsConsistent
  unfolding verify_ras
  verify_ras-IsConsistent = ground (
    arith,
    nil_iff_append _ _,
    check_ras_lem a b,
    check_mtus_lem a.options b.options,
    check_prefixes_lem a.options b.options,
    check_routes_lem a.options b.options,
    check_rdnss_lem a.options b.options,
    check_dnssl_lem a.options b.options,
    check_captive_portal_lem a.options b.options,
  )
