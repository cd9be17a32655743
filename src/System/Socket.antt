-- ===== src/System/Socket.antt =====
-- Dialer.dial, setAutoconf and dialNDP (internal/system/dialer.go): what a dial leaves behind on the
-- host, and what the function done of its DialContext undoes.
pub mod Restore
use corerad.Common.{
  ℕ, suc, ◌+◌, ◌-◌, Bool, true, false, List, Option, some, none, Result, ok, err, panic, ◌>>=◌,
  if◌then◌else◌,
}
use corerad.System.{Error}
use corerad.System.Dialer.{DialError, Outcome, done, failed, other, clean_up, link_not_ready}
use corerad.System.Ready.{LookupError, NetAddr, lookup_interface, check_interface}

-- The part of the host that a dial changes: whether the interface autoconfigures itself, how many
-- NDP sockets are open and how many of them are in the all-routers group.
pub record Host : Type 0 where
  pub autoconf : Bool
  pub sockets : ℕ
  pub members : ℕ

pub data Mode : Type 0 where
  advertise monitor : Mode

-- An error of SetIPv6Autoconf, by what errors.Is finds.
pub data SetError : Type 0 where
  permission not_exist : SetError
  set_other : Error → SetError

-- What the system answers to the calls of one dial, each an error or `none`.
pub record Answers : Type 0 where
  pub lookup : Option LookupError
  pub up : Bool
  pub addrs : Outcome (List NetAddr)
  pub listen : Option DialError
  pub set_filter : Option Error
  pub set_control : Option Error
  pub join_group : Option Error
  pub get_autoconf : Option Error
  pub set_autoconf : Option SetError

-- dialNDP, and the host it leaves.
unfoldable pub dial_ndp : Answers → Host → Outcome (Unit {0}) × Host
dial_ndp a h = elim a.listen [
  | some e ↦ (failed e, h)
  | none ↦
      let opened = record h { sockets = suc h.sockets } in
      elim a.set_filter [
        | some e ↦ (failed (other "failed to apply ICMPv6 filter"), opened)
        | none ↦ elim a.set_control [
          | some e ↦ (failed (other "failed to apply IPv6 control message flags"), opened)
          | none ↦ elim a.join_group [
            | some e ↦ (
              failed (other "failed to join IPv6 link-local all routers multicast group"),
              opened,
            )
            | none ↦ (done tt, record opened { members = suc h.members })
          ]
        ]
      ]
]

-- SetIPv6Autoconf, which changes nothing where it returns an error.
unfoldable pub set_ipv6_autoconf : Option SetError → Bool → Host → Host
set_ipv6_autoconf none b h = record h { autoconf = b }
set_ipv6_autoconf (some e) b h = h

-- setAutoconf: the value to restore.
unfoldable pub set_autoconf : Answers → Host → Outcome Bool × Host
set_autoconf a h = elim a.get_autoconf [
  | some e ↦ (failed (other "failed to get IPv6 autoconfiguration state"), h)
  | none ↦
      let after = set_ipv6_autoconf a.set_autoconf false h in
      elim a.set_autoconf [
        | none ↦ (done h.autoconf, after)
        | some permission ↦ (done h.autoconf, after)
        | some not_exist ↦ (failed (other "failed to disable IPv6 autoconfiguration"), after)
        | some (set_other e) ↦ (failed (other "failed to disable IPv6 autoconfiguration"), after)
      ]
]

-- restore, which takes every error but one of the last kind as no error.
unfoldable pub restore : Option SetError → Bool → Host → Option Error × Host
restore none prev h = (none, set_ipv6_autoconf none prev h)
restore (some permission) prev h = (none, set_ipv6_autoconf (some permission) prev h)
restore (some not_exist) prev h = (none, set_ipv6_autoconf (some not_exist) prev h)
restore (some (set_other e)) prev h =
    (some "failed to restore IPv6 autoconfiguration", set_ipv6_autoconf (some (set_other e)) prev h)

-- The steps of dial after the connection is made: the value for done to restore, if any.
unfoldable pub prepare : Mode → Answers → Host → Outcome (Option Bool) × Host
prepare monitor a h = (done none, h)
prepare advertise a h =
    let (result, after) = set_autoconf a h in
    elim result [ failed e ↦ (failed e, after) | done prev ↦ (done (some prev), after) ]

-- dial.
unfoldable pub dial : Mode → Answers → Host → Outcome (Option Bool) × Host
dial mode a h = elim (lookup_interface a.lookup) [
  | failed e ↦ (failed e, h)
  | done _ ↦ elim (check_interface a.up a.addrs) [
    | failed e ↦ (failed e, h)
    | done _ ↦
        let (result, opened) = dial_ndp a h in
        elim result [ failed e ↦ (failed e, opened) | done _ ↦ prepare mode a opened ]
  ]
]

-- The function done of a DialContext, with the value to restore and the answers to LeaveGroup, Close
-- and SetIPv6Autoconf. A socket that is closed is in no group.
unfoldable pub release :
    Option Bool → Option Error → Option Error → Option SetError → Host → Option Error × Host
release prev leave_err close_err set_err h =
    let left : Host = elim leave_err [ none ↦ record h { members = h.members - 1 } | some _ ↦ h ] in
    let closed : Host = elim close_err [
      | none ↦ record h { sockets = h.sockets - 1; members = h.members - 1 }
      | some _ ↦ left
    ] in
    elim prev [ none ↦ (none, closed) | some p ↦ restore set_err p closed ]
