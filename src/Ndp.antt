-- ===== src/Ndp.antt =====
-- The data of github.com/mdlayher/ndp that the program builds and reads, with the fields that it
-- uses, and the package's constants as parameters. A pointer's identity is a number, `ref`, where
-- the program compares pointers.
use corerad.Common.{ℕ, Bool, List, String, Option, Eq, ◌==◌, nat_eq, ◌≡◌, true, false, arith, ◌↔◌}
use corerad.Common.Int.{ℤ}
use corerad.Netip.Addr.{Addr}
use corerad.Netip.Prefix.{Prefix}

pub data Preference : Type 0 where
  low medium high : Preference
  -- Any other value of the underlying integer.
  reserved : ℕ → Preference

abbrev pub preference_beq : Preference → Preference → Bool
preference_beq Preference.low Preference.low = true
preference_beq Preference.medium Preference.medium = true
preference_beq Preference.high Preference.high = true
preference_beq (Preference.reserved a) (Preference.reserved b) = a == b
preference_beq _ _ = false

pub preference_beq_iff : (a b : Preference) → (preference_beq a b ≡ true) ↔ (a ≡ b)
preference_beq_iff a b = ground arith

instance abbrev pub preference_eq : Eq Preference
preference_eq = record { beq = preference_beq; beq_iff = preference_beq_iff }

pub record PrefixInformation : Type 0 where
  pub prefix_length : ℕ
  pub on_link : Bool
  pub autonomous_address_configuration : Bool
  pub valid_lifetime : ℤ
  pub preferred_lifetime : ℤ
  pub prefix : Addr

pub record RouteInformation : Type 0 where
  pub prefix_length : ℕ
  pub preference : Preference
  pub route_lifetime : ℤ
  pub prefix : Addr

pub record RecursiveDnsServer : Type 0 where
  pub lifetime : ℤ
  pub servers : List Addr

pub record DnsSearchList : Type 0 where
  pub lifetime : ℤ
  pub domain_names : List String

pub record LinkLayerAddress : Type 0 where
  -- Whether Direction is ndp.Source.
  pub source : Bool
  pub addr : List ℕ

pub record Mtu : Type 0 where
  pub ref : ℕ
  pub mtu : ℕ

pub record CaptivePortal : Type 0 where
  pub ref : ℕ
  pub uri : String

pub record Pref64 : Type 0 where
  pub prefix : Prefix
  pub lifetime : ℤ

-- The dynamic type of an ndp.Option.
pub data NdpOption : Type 0 where
  prefix_information : PrefixInformation → NdpOption
  route_information : RouteInformation → NdpOption
  recursive_dns_server : RecursiveDnsServer → NdpOption
  dns_search_list : DnsSearchList → NdpOption
  link_layer_address : LinkLayerAddress → NdpOption
  mtu : Mtu → NdpOption
  captive_portal : CaptivePortal → NdpOption
  pref64 : Pref64 → NdpOption
  -- A type that the program does not name.
  unknown : ℕ → NdpOption

pub record RouterAdvertisement : Type 0 where
  pub current_hop_limit : ℕ
  pub managed_configuration : Bool
  pub other_configuration : Bool
  pub mobile_ipv6_home_agent : Bool
  pub router_selection_preference : Preference
  pub neighbor_discovery_proxy : Bool
  pub router_lifetime : ℤ
  pub reachable_time : ℤ
  pub retransmit_timer : ℤ
  pub options : List NdpOption

-- What the program takes from the package: its constants, and ndp.NewCaptivePortal, which
-- validates a URI and allocates the option.
pub record Package : Type 0 where
  pub infinity : ℤ
  pub hop_limit : ℕ
  pub unrestricted : String
  pub new_captive_portal : String → Option CaptivePortal
