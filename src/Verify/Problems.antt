-- ===== src/Verify/Problems.antt =====
-- What the comparison reports, and how it picks the options of one type (verify.go).
use corerad.Common.{ℕ, Bool, String, List, [], ◌∷◌, ◌++◌, Option, some, none, if◌then◌else◌}
use corerad.Common.Int.{ℤ}
use corerad.Netip.Addr.{Addr}
use corerad.Ndp.{
  NdpOption, PrefixInformation, RouteInformation, RecursiveDnsServer, DnsSearchList, Mtu,
  CaptivePortal, prefix_information, route_information, recursive_dns_server, dns_search_list,
}
use corerad.Ndp

-- The two values that a message shows, in place of the text "want: …, got: …". They have one type,
-- so newProblem's check of the types never panics.
pub data Message : Type 0 where
  numbers : ℕ → ℕ → Message
  flags : Bool → Bool → Message
  durations : ℤ → ℤ → Message
  addresses : List Addr → List Addr → Message
  names : List String → List String → Message
  texts : String → String → Message

pub record Problem : Type 0 where
  pub field : String
  -- The prefix that the text shows, where there is one.
  pub details : Option (Addr × ℕ)
  pub message : Message

-- `if bad { ps.push(field, "", …) }`.
abbrev pub push_if : Bool → String → Message → List Problem
push_if bad f m = if bad then record { field = f; details = none; message = m } ∷ [] else []

abbrev pub push_at_if : Bool → String → Addr × ℕ → Message → List Problem
push_at_if bad f at m =
    if bad then record { field = f; details = some at; message = m } ∷ [] else []

-- A loop that pushes the problems of each element.
unfoldable pub for_each : {A : Type 0} → (A → List Problem) → List A → List Problem
for_each f [] = []
for_each f (x ∷ xs) = f x ++ for_each f xs

-- The type assertions `o.(T)`.
abbrev pub as_prefix : NdpOption → Option PrefixInformation
as_prefix (prefix_information p) = some p
as_prefix _ = none

abbrev pub as_route : NdpOption → Option RouteInformation
as_route (route_information r) = some r
as_route _ = none

abbrev pub as_rdnss : NdpOption → Option RecursiveDnsServer
as_rdnss (recursive_dns_server r) = some r
as_rdnss _ = none

abbrev pub as_dnssl : NdpOption → Option DnsSearchList
as_dnssl (dns_search_list d) = some d
as_dnssl _ = none

abbrev pub as_mtu : NdpOption → Option Mtu
as_mtu (Ndp.mtu m) = some m
as_mtu _ = none

abbrev pub as_captive_portal : NdpOption → Option CaptivePortal
as_captive_portal (Ndp.captive_portal c) = some c
as_captive_portal _ = none

module _ {T : Type 0} (assert : NdpOption → Option T) where
  unfoldable pub pick : List NdpOption → List T
  pick [] = []
  pick (o ∷ os) = elim (assert o) [ some t ↦ t ∷ pick os | none ↦ pick os ]

  unfoldable pub pick_first : List NdpOption → Option T
  pick_first [] = none
  pick_first (o ∷ os) =
      let rest = pick_first os in elim (assert o) [ some t ↦ some t | none ↦ rest ]
