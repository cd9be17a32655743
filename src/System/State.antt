-- ===== src/System/State.antt =====
-- The IPv6 parameters of an interface (internal/system/state.go, interface_others.go): the
-- interface State and its implementations for tests and for systems other than Linux.
pub mod Sysctl
pub mod Autoconf
use corerad.Common.{
  Bool, true, false, String, List, [], ◌∷◌, Option, some, none, Result, ok, err, ◌==◌, string_eq,
  if◌then◌else◌,
}
use corerad.System.Socket.{SetError}

-- The methods of a State, over what they read and change.
pub record State (S : Type 0) : Type 0 where
  pub ipv6_autoconf : String → S → Result SetError Bool
  pub ipv6_forwarding : String → S → Result SetError Bool
  pub set_ipv6_autoconf : String → Bool → S → Option SetError × S

pub record TestStateInterface : Type 0 where
  pub autoconf : Bool
  pub forwarding : Bool

-- The map holds the first entry of a name.
pub record TestState : Type 0 where
  pub autoconf : Bool
  pub forwarding : Bool
  pub error : Option SetError
  pub interfaces : List (String × TestStateInterface)

unfoldable pub find_interface :
    String → List (String × TestStateInterface) → Option TestStateInterface
find_interface iface [] = none
find_interface iface ((name, tsi) ∷ rest) =
    let later = find_interface iface rest in if name == iface then some tsi else later

-- A value that is returned beside an error, if there is one.
abbrev with_error : Option SetError → Bool → Result SetError Bool
with_error none b = ok b
with_error (some e) b = err e

unfoldable pub test_autoconf : String → TestState → Result SetError Bool
test_autoconf iface ts = elim (find_interface iface ts.interfaces) [
  | some tsi ↦ with_error ts.error tsi.autoconf
  | none ↦ with_error ts.error ts.autoconf
]

unfoldable pub test_forwarding : String → TestState → Result SetError Bool
test_forwarding iface ts = elim (find_interface iface ts.interfaces) [
  | some tsi ↦ with_error ts.error tsi.forwarding
  | none ↦ with_error ts.error ts.forwarding
]

unfoldable pub test_set_autoconf : String → Bool → TestState → Option SetError × TestState
test_set_autoconf iface _ ts = (ts.error, ts)

unfoldable pub test_state : State TestState
test_state = record {
  ipv6_autoconf = test_autoconf;
  ipv6_forwarding = test_forwarding;
  set_ipv6_autoconf = test_set_autoconf;
}

-- NewState on a system other than Linux.
unfoldable pub other_state : {S : Type 0} → State S
other_state = record {
  ipv6_autoconf = λ iface s. ok false;
  ipv6_forwarding = λ iface s. ok true;
  set_ipv6_autoconf = λ iface enable s. (none, s);
}
