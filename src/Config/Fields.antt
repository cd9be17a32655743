-- ===== src/Config/Fields.antt =====
-- The parsers of single values: parseDuration (config.go), parseMinInterval, parseDefaultLifetime,
-- parsePreference (interface.go) and parseIPPrefix (plugin.go).
use corerad.Common.{
  ℕ, ◌*◌, ◌/◌, ◌||◌, ◌&&◌, not, String, Option, some, none, Result, ok, err, ◌>>=◌, ◌>>◌, refuse,
  if◌then◌else◌, ◌==◌, string_eq,
}
use corerad.Common.Int.{ℤ, pos, pos_part, ltb_ℤ, int_eq}
use corerad.Netip.Addr
use corerad.Netip.Prefix
use corerad.Netip.Prefix.{Prefix, prefix_eq, none_prefix}
use corerad.Ndp.{Preference, low, medium, high}
use corerad.Config.Types.{
  ConfigError, Library, bad_duration, bad_min_interval, min_interval_range, default_lifetime_range,
  bad_preference, bad_prefix, individual_address, not_ipv6_prefix,
}

-- time.Second.
abbrev pub second : ℕ
second = 1000000000

-- `n` seconds as a Duration.
abbrev pub seconds : ℕ → ℤ
seconds n = pos (n * second)

-- `3 * d` for a Duration that is not negative.
abbrev pub triple : ℤ → ℤ
triple d = pos (3 * pos_part d)

abbrev pub or_error : {A : Type 0} → Option A → ConfigError → Result ConfigError A
or_error none e = err e
or_error (some a) e = ok a

module _ (lib : Library) where
  unfoldable pub parse_duration : Option String → ℤ → Result ConfigError ℤ
  parse_duration none def = ok def
  parse_duration (some s) def =
      if s == "infinite"
      then ok lib.infinity
      else if s == "auto"
      then ok def
      else if s == ""
      then ok (pos 0)
      else or_error (lib.parse_go_duration s) (bad_duration s)

  -- The float64 products 0.33 * max and 0.75 * max, truncated to a second, are the integer
  -- quotients below for the durations of at most 1800 seconds that reach this code.
  unfoldable pub parse_min_interval : String → ℤ → Result ConfigError ℤ
  parse_min_interval s max =
      if s == "" || s == "auto"
      then ok
          (if not (ltb_ℤ max (seconds 9)) then seconds (33 * pos_part max / 100 / second) else max)
      else do
        min ← or_error (lib.parse_go_duration s) bad_min_interval
        refuse (ltb_ℤ min (seconds 3) || ltb_ℤ (seconds (3 * pos_part max / 4 / second)) min)
            min_interval_range
        ok min

  unfoldable pub parse_default_lifetime : Option String → ℤ → Result ConfigError ℤ
  unfolding parse_duration
  parse_default_lifetime s max = do
    lt ← parse_duration s (triple max)
    refuse (not (lt == pos 0) && (ltb_ℤ lt max || ltb_ℤ (seconds 9000) lt)) default_lifetime_range
    ok lt

  unfoldable pub parse_ip_prefix : String → Result ConfigError Prefix
  parse_ip_prefix s = if s == "" then ok none_prefix else do
    p1 ← or_error (lib.parse_go_prefix s) (bad_prefix s)
    refuse (not (p1 == Prefix.masked p1)) individual_address
    refuse (not (Addr.is6 p1.ip) || Addr.is4_in6 p1.ip) not_ipv6_prefix
    ok p1

unfoldable pub parse_preference : String → Result ConfigError Preference
parse_preference s =
    if s == "" || s == "medium"
    then ok medium
    else if s == "low"
    then ok low
    else if s == "high"
    then ok high
    else err (bad_preference s)
