-- ===== src/System.antt =====
-- internal/system: addresses and routes as the operating system reports them (addresser.go).
pub mod Dialer
pub mod Ready
pub mod Portable
pub mod Netlink
pub mod Socket
pub mod State
use corerad.Common.{ℕ, Bool, List, String, Result}
use corerad.Common.Int.{ℤ}
use corerad.Netip.Prefix.{Prefix}
use corerad.Ndp.{Preference}

-- The text of a Go error from outside the program.
abbrev pub Error : Type 0
Error = String

pub record Ip : Type 0 where
  pub address : Prefix
  pub deprecated : Bool
  pub manage_temporary_addresses : Bool
  pub stable_privacy : Bool
  pub temporary : Bool
  pub tentative : Bool
  pub valid_forever : Bool

pub record Route : Type 0 where
  pub prefix : Prefix
  pub index : ℕ
  pub preference : Preference

-- What the operating system answers at one moment: the clock, in nanoseconds since the zero Time,
-- and the methods of an Addresser.
pub record World : Type 0 where
  pub now : ℤ
  pub addresses_by_index : ℕ → Result Error (List Ip)
  pub loopback_routes : Result Error (List Route)
