-- ===== src/Config/Interfaces/Bounds.antt =====
-- The values of an accepted interface lie in the ranges of RFC 4861 (parseInterface).
use corerad.Common.{◌≤◌, ◌≡◌, ◌⊎◌, true, false, String, Option, arith, ok}
use corerad.Common.Int.{ℤ, pos, pos_part, ◌≤ℤ◌, eqb_ℤ_iff}
use corerad.Config.Types.{RawInterface, Interface, Library}
use corerad.Config.Fields.{seconds, parse_min_interval, parse_default_lifetime}
use corerad.Config.Interfaces.{parse_interface, monitored}

-- A minimum interval of an accepted interface: at least 3 seconds and at most the maximum, but
-- 2 seconds where the default is computed for a maximum just above 9 seconds.
abbrev pub IsMinInterval : ℤ → ℤ → Type 0
IsMinInterval min max =
    ((seconds 3 ≤ℤ min) × (min ≤ℤ max))
    ⊎ ((min ≡ seconds 2) × (seconds 9 ≤ℤ max) × (pos_part max ≤ 9090909090))

-- For a maximum interval of at least 4 seconds, an accepted minimum interval lies between 3 seconds
-- and the maximum, or is the 2 seconds that stand for the default where the maximum is at least 9
-- and at most about 9.09 seconds.
pub parse_min_interval_lem :
    (lib : Library) (s : String) (max : ℤ) {min : ℤ}
    → seconds 4 ≤ℤ max
    → parse_min_interval lib s max ≡ ok min
    → IsMinInterval min max
unfolding parse_min_interval
parse_min_interval_lem lib s max {min} lo h = ground arith

parse_default_lifetime_lem :
    (lib : Library) (max : ℤ) {lt : ℤ} (s : Option String)
    → parse_default_lifetime lib s max ≡ ok lt
    → (lt ≡ pos 0) ⊎ ((max ≤ℤ lt) × (lt ≤ℤ seconds 9000))
unfolding parse_default_lifetime
parse_default_lifetime_lem lib max {lt} s h = ground (arith, eqb_ℤ_iff lt (pos 0))

-- What an accepted interface satisfies.
pub record IsAccepted (name : String) (raw : RawInterface) (ifi : Interface) : Type 0 where
  pub named : ifi.name ≡ name
  pub one_mode : (ifi.monitor ≡ true) → ifi.advertise ≡ false
  pub modes : (ifi.monitor ≡ raw.monitor) × (ifi.advertise ≡ raw.advertise)
  pub bare_monitor : ifi.monitor ≡ true → ifi ≡ monitored name raw
  pub max_interval :
      ifi.monitor ≡ false → (seconds 4 ≤ℤ ifi.max_interval) × (ifi.max_interval ≤ℤ seconds 1800)
  pub min_interval : ifi.monitor ≡ false → IsMinInterval ifi.min_interval ifi.max_interval
  pub reachable_time : (pos 0 ≤ℤ ifi.reachable_time) × (ifi.reachable_time ≤ℤ seconds 3600)
  pub retransmit_timer : (pos 0 ≤ℤ ifi.retransmit_timer) × (ifi.retransmit_timer ≤ℤ seconds 3600)
  pub hop_limit : ifi.hop_limit ≤ 255
  pub default_lifetime :
      (ifi.default_lifetime ≡ pos 0)
      ⊎ ((ifi.max_interval ≤ℤ ifi.default_lifetime) × (ifi.default_lifetime ≤ℤ seconds 9000))

-- An accepted interface bears the given name and does not both monitor and advertise. If it
-- monitors, it has no other configuration. If not, its maximum interval lies between 4 and 1800
-- seconds and its minimum interval is as IsMinInterval says. Its reachable time and retransmit timer
-- lie between 0 and 3600 seconds, its hop limit is at most 255, and its default lifetime is zero or
-- lies between the maximum interval and 9000 seconds.
pub parse_interface-IsAccepted :
    (lib : Library) (name : String) (raw : RawInterface) (epoch : ℤ) {ifi : Interface}
    → parse_interface lib name raw epoch ≡ ok ifi
    → IsAccepted name raw ifi
unfolding parse_interface
parse_interface-IsAccepted lib name raw epoch {ifi} h = ground (
  arith,
  parse_min_interval_lem lib raw.min_interval ifi.max_interval {min = ifi.min_interval},
  parse_default_lifetime_lem lib ifi.max_interval {lt = ifi.default_lifetime} raw.default_lifetime,
)
