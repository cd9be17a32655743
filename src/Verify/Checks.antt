-- ===== src/Verify/Checks.antt =====
-- The checks of verify.go, one function for each. No problem is the empty list.
use corerad.Common.{
  Bool, true, false, ◌&&◌, ◌||◌, not, List, [], ◌∷◌, ◌++◌, Option, some, length, Eq, ◌==◌, nat_eq,
  string_eq, bool_eq, list_eq, if◌then◌else◌,
}
use corerad.Common.Int.{ℤ, pos, int_eq}
use corerad.Netip.Addr.{addr_eq}
use corerad.Ndp.{
  NdpOption, PrefixInformation, RouteInformation, RecursiveDnsServer, DnsSearchList, Mtu,
  CaptivePortal, RouterAdvertisement, preference_eq,
}
use corerad.Verify.Problems.{
  Problem, push_if, push_at_if, for_each, pick, pick_first, as_prefix, as_route, as_rdnss, as_dnssl,
  as_mtu, as_captive_portal, numbers, flags, durations, addresses, names, texts,
}

unfoldable pub check_durations : ℤ → ℤ → Bool
check_durations want got = if want == pos 0 || got == pos 0 then true else want == got

unfoldable pub check_ras : RouterAdvertisement → RouterAdvertisement → List Problem
check_ras a b =
    push_if (not (a.current_hop_limit == b.current_hop_limit)) "hop_limit"
      (numbers a.current_hop_limit b.current_hop_limit)
    ++ (push_if (not (a.managed_configuration == b.managed_configuration)) "managed_configuration"
          (flags a.managed_configuration b.managed_configuration)
        ++ (push_if (not (a.other_configuration == b.other_configuration)) "other_configuration"
              (flags a.other_configuration b.other_configuration)
            ++ (push_if (not (check_durations a.reachable_time b.reachable_time)) "reachable_time"
                  (durations a.reachable_time b.reachable_time)
                ++ push_if (not (check_durations a.retransmit_timer b.retransmit_timer))
                    "retransmit_timer" (durations a.retransmit_timer b.retransmit_timer))))

-- `mtuA == mtuB` compares two pointers.
abbrev pub mtu_problems : Option Mtu → Option Mtu → List Problem
mtu_problems (some a) (some b) = push_if (not (a.ref == b.ref)) "mtu" (numbers a.mtu b.mtu)
mtu_problems _ _ = []

unfoldable pub check_mtus : List NdpOption → List NdpOption → List Problem
check_mtus want got = mtu_problems (pick_first as_mtu want) (pick_first as_mtu got)

-- The body of the loops. Two empty picks return early, with nothing, as the loops do.
unfoldable pub prefix_problems : PrefixInformation → PrefixInformation → List Problem
prefix_problems a b =
    if not (a.prefix == b.prefix) || not (a.prefix_length == b.prefix_length)
    then []
    else push_at_if (not (a.preferred_lifetime == b.preferred_lifetime))
        "prefix_information_preferred_lifetime" (a.prefix, a.prefix_length)
        (durations a.preferred_lifetime b.preferred_lifetime)
      ++ push_at_if (not (a.valid_lifetime == b.valid_lifetime)) "prefix_information_valid_lifetime"
          (a.prefix, a.prefix_length) (durations a.valid_lifetime b.valid_lifetime)

-- `if len(want) == 0 || len(got) == 0 { return nil }`.
abbrev pub unless_empty : {A : Type 0} → List A → List A → List Problem → List Problem
unless_empty want got ps = if length want == 0 || length got == 0 then [] else ps

unfoldable pub check_prefixes : List NdpOption → List NdpOption → List Problem
check_prefixes want got =
    let xs = pick as_prefix want in
    let ys = pick as_prefix got in
    unless_empty xs ys (for_each (λ a. for_each (prefix_problems a) ys) xs)

unfoldable pub route_problems : RouteInformation → RouteInformation → List Problem
route_problems a b =
    if not (a.prefix == b.prefix) || not (a.prefix_length == b.prefix_length)
    then []
    else push_at_if (a.preference == b.preference && not (a.route_lifetime == b.route_lifetime))
        "route_information_lifetime" (a.prefix, a.prefix_length)
        (durations a.route_lifetime b.route_lifetime)

unfoldable pub check_routes : List NdpOption → List NdpOption → List Problem
check_routes want got =
    let xs = pick as_route want in
    let ys = pick as_route got in
    unless_empty xs ys (for_each (λ a. for_each (route_problems a) ys) xs)

-- The loop that clears `equal` at the first difference, on lists of one length.
unfoldable pub same_elements : {A : Type 0} ⦃e : Eq A⦄ → List A → List A → Bool
same_elements (x ∷ xs) (y ∷ ys) = if not (x == y) then false else same_elements xs ys
same_elements _ _ = true

unfoldable pub server_problems : RecursiveDnsServer → RecursiveDnsServer → List Problem
server_problems a b =
    push_if (not (a.lifetime == b.lifetime)) "rdnss_lifetime" (durations a.lifetime b.lifetime)
    ++ (if not (length a.servers == length b.servers)
        then push_if true "rdnss_servers" (addresses a.servers b.servers)
        else push_if (not (same_elements a.servers b.servers)) "rdnss_servers"
            (addresses a.servers b.servers))

unfoldable pub name_problems : DnsSearchList → DnsSearchList → List Problem
name_problems a b =
    push_if (not (a.lifetime == b.lifetime)) "dnssl_lifetime" (durations a.lifetime b.lifetime)
    ++ (if not (length a.domain_names == length b.domain_names)
        then push_if true "dnssl_domain_names" (names a.domain_names b.domain_names)
        else push_if (not (same_elements a.domain_names b.domain_names)) "dnssl_domain_names"
            (names a.domain_names b.domain_names))

-- The loop over the positions of two lists of one length.
unfoldable pub each_position :
    {A : Type 0} → (A → A → List Problem) → List A → List A → List Problem
each_position f (x ∷ xs) (y ∷ ys) = f x y ++ each_position f xs ys
each_position f _ _ = []

unfoldable pub check_rdnss : List NdpOption → List NdpOption → List Problem
check_rdnss want got =
    let xs = pick as_rdnss want in
    let ys = pick as_rdnss got in
    unless_empty xs ys (
      if not (length xs == length ys)
      then push_if true "rdnss_count" (numbers (length xs) (length ys))
      else each_position server_problems xs ys)

unfoldable pub check_dnssl : List NdpOption → List NdpOption → List Problem
check_dnssl want got =
    let xs = pick as_dnssl want in
    let ys = pick as_dnssl got in
    unless_empty xs ys (
      if not (length xs == length ys)
      then push_if true "dnssl_count" (numbers (length xs) (length ys))
      else each_position name_problems xs ys)

-- `cpA == cpB` compares two pointers, too.
abbrev pub portal_problems : Option CaptivePortal → Option CaptivePortal → List Problem
portal_problems (some a) (some b) =
    push_if (not (a.ref == b.ref)) "captive_portal" (texts a.uri b.uri)
portal_problems _ _ = []

unfoldable pub check_captive_portal : List NdpOption → List NdpOption → List Problem
check_captive_portal want got =
    portal_problems (pick_first as_captive_portal want) (pick_first as_captive_portal got)

unfoldable pub verify_ras : RouterAdvertisement → RouterAdvertisement → List Problem
verify_ras a b =
    check_ras a b
    ++ (check_mtus a.options b.options
        ++ (check_prefixes a.options b.options
            ++ (check_routes a.options b.options
                ++ (check_rdnss a.options b.options
                    ++ (check_dnssl a.options b.options
                        ++ check_captive_portal a.options b.options)))))
