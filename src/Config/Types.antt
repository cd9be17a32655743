-- ===== src/Config/Types.antt =====
-- The raw configuration (config.go), the interface that it is turned into, and the errors.
use corerad.Common.{ℕ, Bool, List, String, Option}
use corerad.Common.Int.{ℤ}
use corerad.Netip.Addr.{Addr}
use corerad.Netip.Prefix.{Prefix}
use corerad.Ndp.{Preference, Package}
use corerad.Plugin.Types.{Plugin, PluginError}

pub record RawPrefix : Type 0 where
  pub prefix : String
  pub on_link : Option Bool
  pub autonomous : Option Bool
  pub valid_lifetime : Option String
  pub preferred_lifetime : Option String
  pub deprecated : Bool

pub record RawRoute : Type 0 where
  pub prefix : String
  pub preference : String
  pub lifetime : Option String
  pub deprecated : Bool

pub record RawDnssl : Type 0 where
  pub lifetime : Option String
  pub domain_names : List String

pub record RawRdnss : Type 0 where
  pub lifetime : Option String
  pub servers : List String

pub record RawPref64 : Type 0 where
  pub prefix : Option String

pub record RawInterface : Type 0 where
  pub name : String
  pub names : List String
  pub monitor : Bool
  pub advertise : Bool
  pub verbose : Bool
  pub max_interval : String
  pub min_interval : String
  pub managed : Bool
  pub other_config : Bool
  pub reachable_time : String
  pub retransmit_timer : String
  pub hop_limit : Option ℤ
  pub default_lifetime : Option String
  pub unicast_only : Bool
  pub preference : String
  pub prefixes : List RawPrefix
  pub routes : List RawRoute
  pub rdnss : List RawRdnss
  pub dnssl : List RawDnssl
  pub pref64 : List RawPref64
  pub mtu : ℤ
  pub source_lla : Option Bool
  pub captive_portal : String

pub record Debug : Type 0 where
  pub address : String
  pub prometheus : Bool
  pub pprof : Bool

-- The decoded file.
pub record RawFile : Type 0 where
  pub interfaces : List RawInterface
  pub debug : Debug

pub record Interface : Type 0 where
  pub name : String
  pub monitor : Bool
  pub advertise : Bool
  pub verbose : Bool
  pub min_interval : ℤ
  pub max_interval : ℤ
  pub managed : Bool
  pub other_config : Bool
  pub reachable_time : ℤ
  pub retransmit_timer : ℤ
  pub hop_limit : ℕ
  pub default_lifetime : ℤ
  pub unicast_only : Bool
  pub preference : Preference
  pub plugins : List Plugin

pub record Config : Type 0 where
  pub interfaces : List Interface
  pub debug : Debug

pub data Misconfiguration : Type 0 where
  interface_not_forwarding : Misconfiguration

-- One constructor for each error that the package makes, with the values that it reports.
pub data ConfigError : Type 0 where
  no_interfaces bad_debug_address : ConfigError
  in_interface : ℕ → ConfigError → ConfigError
  repeated_interface : ℕ → String → ConfigError
  name_and_names no_name : ConfigError
  named : String → ConfigError → ConfigError
  monitor_and_advertise : ConfigError
  bad_max_interval bad_min_interval bad_reachable_time bad_retransmit_timer : ConfigError
  max_interval_range min_interval_range reachable_time_range : ConfigError
  retransmit_timer_range hop_limit_range default_lifetime_range mtu_range : ConfigError
  bad_duration : String → ConfigError
  bad_preference : String → ConfigError
  in_prefix in_route : String → ConfigError → ConfigError
  in_rdnss in_dnssl : ConfigError → ConfigError
  prefixes_overlap routes_overlap : Prefix → Prefix → ConfigError
  bad_captive_portal bad_prefix : String → ConfigError
  individual_address not_ipv6_prefix single_ip : ConfigError
  only_auto_prefix only_auto_route : ConfigError
  zero_valid zero_preferred zero_lifetime preferred_exceeds_valid : ConfigError
  deprecated_infinite : ConfigError
  no_domain_names : ConfigError
  repeated_domain_name : String → ConfigError
  bad_server not_ipv6_server : String → ConfigError
  repeated_wildcard : ConfigError
  repeated_server : Addr → ConfigError
  cannot_apply : Plugin → PluginError → ConfigError

-- What the package calls and does not implement: the text parsers of Go's time, net/netip and net,
-- where `none` is an error, and the package ndp.
pub record Library : Type 0 where
  pub ndp : Package
  pub open ndp use *
  pub parse_go_duration : String → Option ℤ
  pub parse_go_prefix : String → Option Prefix
  pub parse_go_addr : String → Option Addr
  pub resolves_tcp_addr : String → Bool
