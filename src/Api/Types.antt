-- ===== src/Api/Types.antt =====
-- The response body of the interfaces route (internal/crhttp/ra.go).
use corerad.Common.{ℕ, Bool, String, List, Option}
use corerad.Common.Int.{ℤ}
use corerad.Netip.Addr.{Addr}
use corerad.System.{Error}
use corerad.Config.Types.{ConfigError}

pub record Dnssl : Type 0 where
  pub lifetime_seconds : ℤ
  pub domain_names : List String

pub record Prefix : Type 0 where
  pub prefix : String
  pub on_link : Bool
  pub autonomous_address_autoconfiguration : Bool
  pub valid_lifetime_seconds : ℤ
  pub preferred_lifetime_seconds : ℤ

pub record Rdnss : Type 0 where
  pub lifetime_seconds : ℤ
  pub servers : List String

pub record Route : Type 0 where
  pub prefix : String
  pub preference : String
  pub route_lifetime_seconds : ℤ

pub record Options : Type 0 where
  pub dnssl : List Dnssl
  pub mtu : ℕ
  pub prefixes : List Prefix
  pub rdnss : List Rdnss
  pub routes : List Route
  pub source_link_layer_address : String
  pub captive_portal : String

pub record Advertisement : Type 0 where
  pub current_hop_limit : ℕ
  pub managed_configuration : Bool
  pub other_configuration : Bool
  pub mobile_ipv6_home_agent : Bool
  pub router_selection_preference : String
  pub neighbor_discovery_proxy : Bool
  pub router_lifetime_seconds : ℤ
  pub reachable_time_milliseconds : ℤ
  pub retransmit_timer_milliseconds : ℤ
  pub options : Options

pub record InterfaceBody : Type 0 where
  pub name : String
  pub advertise : Bool
  -- `none` for nil.
  pub advertisement : Option Advertisement

-- How the packages netip and net print an address, a prefix and a hardware address.
pub record Printer : Type 0 where
  pub addr : Addr → String
  pub prefix : Addr → ℕ → String
  pub hardware : List ℕ → String

-- The two errors that the handler replies with.
pub data ApiError : Type 0 where
  forwarding_failed : String → Error → ApiError
  generate_failed : ConfigError → ApiError
