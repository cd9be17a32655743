-- ===== src/System/Socket/Restore.antt =====
-- What is left on the host by a dial, and by a dial and its release.
use corerad.Common.{suc, ◌-◌, ◌≡◌, inl, inr, Bool, Option, none, arith}
use corerad.System.{Error}
use corerad.System.Dialer.{DialError, done, failed}
use corerad.System.Dialer.Retry.{Outcome-cases}
use corerad.System.Ready.{lookup_interface, check_interface}
use corerad.System.Socket.{
  Host, Mode, Answers, dial_ndp, set_ipv6_autoconf, set_autoconf, restore, prepare, dial, release,
  advertise, monitor,
}

-- dial_ndp succeeds with one socket more, in the group, or fails.
dial_ndp_done :
    (a : Answers) (h : Host) {h' : Host}
    → dial_ndp a h ≡ (done tt, h')
    → h' ≡ record h { sockets = suc h.sockets; members = suc h.members }
unfolding dial_ndp
dial_ndp_done a h {h'} q = ground arith

prepare_done :
    (mode : Mode) (a : Answers) (h : Host) {prev : Option Bool} {h' : Host}
    → prepare mode a h ≡ (done prev, h')
    → (leave_err : Option Error)
    → release prev leave_err none none h'
      ≡ (none, record h { sockets = h.sockets - 1; members = h.members - 1 })
unfolding prepare set_autoconf set_ipv6_autoconf restore release
prepare_done monitor a h q leave_err = ground arith
prepare_done advertise a h q leave_err = ground arith

-- In both modes, releasing a connection right after a dial that succeeded, where Close and
-- SetIPv6Autoconf succeed, returns no error and puts the host back into the state before the dial,
-- whatever LeaveGroup answers.
pub release-dial :
    (mode : Mode) (a : Answers) (h : Host) {prev : Option Bool} {h' : Host}
    → dial mode a h ≡ (done prev, h')
    → (leave_err : Option Error) → release prev leave_err none none h' ≡ (none, h)
unfolding dial
release-dial mode a h {prev} {h'} q leave_err = elim (Outcome-cases (dial_ndp a h).0) [
  | inl (u, e) ↦
      let opened : (dial_ndp a h).1
          ≡ record h { sockets = suc h.sockets; members = suc h.members } =
        dial_ndp_done a h (ground arith) in
      let p : prepare mode a (dial_ndp a h).1 ≡ (done prev, h') = ground arith in
      ground (arith, prepare_done mode a (dial_ndp a h).1 p leave_err)
  | inr (f, e) ↦ absurd (ground arith)
]

-- A dial of a ready interface that fails after Listen has succeeded leaves the autoconfiguration as
-- it was, but it leaves the socket open.
pub dial_leaks :
    (mode : Mode) (a : Answers) (h : Host) {e : DialError} {h' : Host}
    → lookup_interface a.lookup ≡ done tt
    → check_interface a.up a.addrs ≡ done tt
    → a.listen ≡ none
    → dial mode a h ≡ (failed e, h')
    → (h'.autoconf ≡ h.autoconf) × (h'.sockets ≡ suc h.sockets)
unfolding dial prepare set_autoconf set_ipv6_autoconf dial_ndp
dial_leaks mode a h {e} {h'} found ready listens q = ground arith
