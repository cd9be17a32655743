-- ===== src/System/Ready.antt =====
-- Whether an interface can be used (internal/system/conn.go).
use corerad.Common.{
  ℕ, ◌≡◌, ◌↔◌, refl, Bool, true, false, ◌&&◌, not, String, List, [], ◌∷◌, Option, some, none, ◌==◌,
  string_eq, if◌then◌else◌, any, any-of_mem, any-witness, Memᴰ, arith,
}
use corerad.Netip.Addr
use corerad.Netip.Addr.{from_slice}
use corerad.System.{Error}
use corerad.System.Dialer.{Outcome, done, failed, link_not_ready, other}

-- The error of net.InterfaceByName: a *net.OpError with its Op, Net and the text of Err, or another.
pub data LookupError : Type 0 where
  op_error : String → String → String → LookupError
  lookup_other : Error → LookupError

unfoldable pub is_no_such_interface : LookupError → Bool
is_no_such_interface (op_error op net text) =
    op == "route" && (net == "ip+net" && text == "no such network interface")
is_no_such_interface (lookup_other e) = false

-- The answer is the error, or `none` for an interface.
unfoldable pub lookup_interface : Option LookupError → Outcome (Unit {0})
lookup_interface none = done tt
lookup_interface (some e) =
    if is_no_such_interface e
    then failed link_not_ready
    else failed (other "failed to get interface")

-- The bytes of a *net.IPNet, or `none` for an address of another type.
abbrev pub NetAddr : Type 0
NetAddr = Option (List ℕ)

-- The tests of one address in the loop.
unfoldable pub is_ready_addr : NetAddr → Bool
is_ready_addr none = false
is_ready_addr (some bytes) = elim (from_slice bytes) [
  | none ↦ false
  | some ip ↦ Addr.is6 ip && Addr.is_link_local_unicast ip
]

-- The loop that stops at the first such address.
unfoldable pub found_link_local : List NetAddr → Bool
found_link_local [] = false
found_link_local (a ∷ rest) =
    let later = found_link_local rest in if is_ready_addr a then true else later

-- Whether the interface is up, and its addresses or the error of fetching them.
unfoldable pub check_interface : Bool → Outcome (List NetAddr) → Outcome (Unit {0})
check_interface up addrs = if not up then failed link_not_ready else elim addrs [
  | failed e ↦ failed e
  | done as_list ↦ if not (found_link_local as_list) then failed link_not_ready else done tt
]

found_any : (addrs : List NetAddr) → found_link_local addrs ≡ any is_ready_addr addrs
unfolding found_link_local any
found_any [] = refl
found_any (a ∷ rest) = ground (arith, found_any rest)

check_interface_found :
    (up : Bool) (addrs : List NetAddr)
    → (check_interface up (done addrs) ≡ done tt) ↔ ((up ≡ true) × (any is_ready_addr addrs ≡ true))
unfolding check_interface
check_interface_found up addrs =
    (λ h. ground (arith, found_any addrs), λ h. ground (arith, found_any addrs))

-- An interface whose addresses can be read is ready just where it is up and one of the addresses
-- passes the tests of an IPv6 link-local address.
pub check_interface_ready :
    (up : Bool) (addrs : List NetAddr)
    → (check_interface up (done addrs) ≡ done tt)
      ↔ ((up ≡ true) × ((a : NetAddr) × Memᴰ a addrs × (is_ready_addr a ≡ true)))
check_interface_ready up addrs = (
  λ h. let (u, f) = (check_interface_found up addrs).0 h in (u, any-witness is_ready_addr addrs f),
  λ (u, (a, m, r)). (check_interface_found up addrs).1 (u, any-of_mem is_ready_addr addrs a m r),
)
