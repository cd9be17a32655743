-- ===== src/Config/Interfaces.antt =====
-- parseInterfaces and parseInterface (interface.go).
pub mod Bounds
use corerad.Common.{
  ℕ, Bool, true, false, ◌||◌, ◌&&◌, not, String, List, [], ◌∷◌, Option, some, none, Result, ok, err,
  ◌>>=◌, ◌>>◌, refuse, if◌then◌else◌, ◌==◌, string_eq, list_eq, map_result, wrap_err,
}
use corerad.Common.Int.{ℤ, pos, pos_part, ltb_ℤ}
use corerad.Ndp.{medium}
use corerad.Config.Types.{
  RawInterface, Interface, ConfigError, Library, monitor_and_advertise, bad_max_interval,
  bad_reachable_time, bad_retransmit_timer, max_interval_range, reachable_time_range,
  retransmit_timer_range, hop_limit_range, name_and_names, no_name, named,
}
use corerad.Config.Fields.{
  seconds, or_error, parse_min_interval, parse_default_lifetime, parse_preference,
}
use corerad.Config.Plugins.{parse_plugins}

-- The Interface of monitor mode: every other field is zero.
abbrev pub monitored : String → RawInterface → Interface
monitored name ifi = record {
  name = name;
  monitor = ifi.monitor;
  advertise = false;
  verbose = ifi.verbose;
  min_interval = pos 0;
  max_interval = pos 0;
  managed = false;
  other_config = false;
  reachable_time = pos 0;
  retransmit_timer = pos 0;
  hop_limit = 0;
  default_lifetime = pos 0;
  unicast_only = false;
  preference = medium;
  plugins = [];
}

abbrev pub or_default : Option ℤ → ℤ → ℤ
or_default none d = d
or_default (some n) d = n

module _ (lib : Library) where
  -- A duration key that is `def` when it is not set.
  unfoldable pub duration_or : String → ℤ → ConfigError → Result ConfigError ℤ
  duration_or s def e = if s == "" then ok def else or_error (lib.parse_go_duration s) e

  unfoldable pub parse_interface : String → RawInterface → ℤ → Result ConfigError Interface
  parse_interface name ifi epoch =
      if ifi.monitor && ifi.advertise
      then err monitor_and_advertise
      else if ifi.monitor
      then ok (monitored name ifi)
      else do
        max_interval ← duration_or ifi.max_interval (seconds 600) bad_max_interval
        refuse (ltb_ℤ max_interval (seconds 4) || ltb_ℤ (seconds 1800) max_interval)
            max_interval_range
        min_interval ← parse_min_interval lib ifi.min_interval max_interval
        reachable ← duration_or ifi.reachable_time (pos 0) bad_reachable_time
        refuse (ltb_ℤ reachable (pos 0) || ltb_ℤ (seconds 3600) reachable) reachable_time_range
        retrans ← duration_or ifi.retransmit_timer (pos 0) bad_retransmit_timer
        refuse (ltb_ℤ retrans (pos 0) || ltb_ℤ (seconds 3600) retrans) retransmit_timer_range
        let hop_limit = or_default ifi.hop_limit (pos 64)
        refuse (ltb_ℤ hop_limit (pos 0) || ltb_ℤ (pos 255) hop_limit) hop_limit_range
        lifetime ← parse_default_lifetime lib ifi.default_lifetime max_interval
        pref ← parse_preference ifi.preference
        plugins ← parse_plugins lib ifi max_interval epoch
        ok (record {
          name = name;
          monitor = ifi.monitor;
          advertise = ifi.advertise;
          verbose = ifi.verbose;
          min_interval = min_interval;
          max_interval = max_interval;
          managed = ifi.managed;
          other_config = ifi.other_config;
          reachable_time = reachable;
          retransmit_timer = retrans;
          hop_limit = pos_part hop_limit;
          default_lifetime = lifetime;
          unicast_only = ifi.unicast_only;
          preference = pref;
          plugins = plugins;
        })

  -- The names of the interfaces that one stanza configures.
  unfoldable pub interface_names : RawInterface → Result ConfigError (List String)
  interface_names ifi =
      let has_name = not (ifi.name == "") in
      let has_names = not (ifi.names == []) in
      if has_name && has_names
      then err name_and_names
      else if has_name && not has_names
      then ok (ifi.name ∷ [])
      else if not has_name && has_names
      then ok ifi.names
      else err no_name

  unfoldable pub parse_interfaces : RawInterface → ℤ → Result ConfigError (List Interface)
  parse_interfaces ifi epoch = do
    names ← interface_names ifi
    map_result (λ name. wrap_err (named name) (parse_interface name ifi epoch)) names
