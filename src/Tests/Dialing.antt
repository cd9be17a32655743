-- ===== src/Tests/Dialing.antt =====
-- How the dialer retries, what it releases, and what a dial leaves on the host.
use corerad.Common.{
  ℕ, zero, suc, ◌*◌, ◌≤◌, ◌<◌, ◌≡◌, refl, Bool, true, false, [], ◌∷◌, Option, some, none, arith,
}
use corerad.System.{Error}
use corerad.System.Dialer.{
  DialError, Outcome, done, failed, syscall, link_not_ready, link_change, other, is_recoverable,
  init, millisecond,
}
use corerad.System.Dialer.Retry.{init_bounds, init_succeeds}
use corerad.System.Dialer.Rounds.{dial, runs, dial_ends}
use corerad.System.Ready.{lookup_interface, check_interface, NetAddr}
use corerad.System.Socket
use corerad.System.Socket.{Host, Answers, advertise, release}
use corerad.System.Socket.Restore.{release-dial, dial_leaks}

-- The interface comes up before the third dial.
abbrev comes_up : ℕ → Outcome ℕ
comes_up zero = failed link_not_ready
comes_up (suc zero) = failed (syscall false "address not available")
comes_up (suc (suc n)) = done 7

abbrev alive : ℕ → Bool
alive n = false

early_failures : (j : ℕ) → j < 2 → (f : DialError) × (comes_up j ≡ failed f)
early_failures zero h = (link_not_ready, refl)
early_failures (suc zero) h = (syscall false "address not available", refl)
early_failures (suc (suc j)) h = absurd (omega arith)

first_recoverable : (f : DialError) → comes_up 0 ≡ failed f → is_recoverable f ≡ true
unfolding is_recoverable
first_recoverable f h = let e : link_not_ready ≡ f = cc in rw (← e) refl

init_bounds_example :
    ((init comes_up alive none).calls ≤ 51)
    × ((init comes_up alive none).waited ≤ 130500 * millisecond)
init_bounds_example = init_bounds comes_up alive none

init_succeeds_example :
    ((init comes_up alive none).result ≡ done 7) × ((init comes_up alive none).calls ≡ 3)
init_succeeds_example =
    init_succeeds comes_up alive (λ j. refl) 2 7 refl (omega arith) early_failures first_recoverable

-- The link changes in the first round, and the second ends.
abbrev dials : ℕ → ℕ → Outcome ℕ
dials r j = done r

abbrev steady : ℕ → ℕ → Bool
steady r j = false

abbrev serve_round : ℕ → ℕ → Option DialError
serve_round zero c = some link_change
serve_round (suc r) c = none

abbrev clean : ℕ → ℕ → Option (Option Error)
clean r c = some none

link_changes :
    (j : ℕ) → j < 1 → (f : DialError) × (serve_round j j ≡ some f) × (is_recoverable f ≡ true)
unfolding is_recoverable
link_changes zero h = (link_change, refl, refl)
link_changes (suc j) h = absurd (omega arith)

dial_ends_example :
    dial dials steady serve_round clean 5
    ≡ record { trace = runs (λ r. r) serve_round 0 1; ending = some none }
dial_ends_example =
    dial_ends dials steady serve_round clean (λ r. r) (λ r j. refl) (λ r j. refl) (λ r. refl) 1 refl
      link_changes 5 (omega arith)

-- fe80::1.
abbrev link_local : NetAddr
link_local = some (254 ∷ 128 ∷ 0 ∷ 0 ∷ 0 ∷ 0 ∷ 0 ∷ 0 ∷ 0 ∷ 0 ∷ 0 ∷ 0 ∷ 0 ∷ 0 ∷ 0 ∷ 1 ∷ [])

-- ::ffff:169.254.0.1, which passes the same tests.
mapped_run :
    check_interface true (
      done (some (0 ∷ 0 ∷ 0 ∷ 0 ∷ 0 ∷ 0 ∷ 0 ∷ 0 ∷ 0 ∷ 0 ∷ 255 ∷ 255 ∷ 169 ∷ 254 ∷ 0 ∷ 1 ∷ []) ∷ []))
    ≡ done tt
unfolding check_interface corerad.System.Ready.found_link_local corerad.System.Ready.is_ready_addr
    corerad.Netip.Addr.from_slice corerad.Netip.Addr.is6 corerad.Netip.Addr.is_link_local_unicast
    corerad.Netip.Addr.big_endian corerad.Netip.Addr.shl
mapped_run = refl

abbrev host : Host
host = record { autoconf = true; sockets = 2; members = 1 }

abbrev answers : Answers
answers = record {
  lookup = none;
  up = true;
  addrs = done (link_local ∷ []);
  listen = none;
  set_filter = none;
  set_control = none;
  join_group = none;
  get_autoconf = none;
  set_autoconf = none;
}

-- The last step of dialNDP fails.
abbrev no_group : Answers
no_group = record answers { join_group = some "no such device" }

dialed :
    Socket.dial advertise answers host
    ≡ (done (some true), record { autoconf = false; sockets = 3; members = 2 })
unfolding Socket.dial lookup_interface check_interface corerad.System.Ready.found_link_local
    corerad.System.Ready.is_ready_addr corerad.Netip.Addr.from_slice corerad.Netip.Addr.is6
    corerad.Netip.Addr.is_link_local_unicast corerad.Netip.Addr.big_endian Socket.dial_ndp
    Socket.prepare Socket.set_autoconf Socket.set_ipv6_autoconf
dialed = refl

release-dial_example :
    release (some true) none none none (record { autoconf = false; sockets = 3; members = 2 })
    ≡ (none, host)
release-dial_example = release-dial advertise answers host dialed none

leaked : Socket.dial advertise no_group host ≡ (
  failed (other "failed to join IPv6 link-local all routers multicast group"),
  record { autoconf = true; sockets = 3; members = 1 },
)
unfolding Socket.dial lookup_interface check_interface corerad.System.Ready.found_link_local
    corerad.System.Ready.is_ready_addr corerad.Netip.Addr.from_slice corerad.Netip.Addr.is6
    corerad.Netip.Addr.is_link_local_unicast corerad.Netip.Addr.big_endian Socket.dial_ndp
leaked = refl

found_run : lookup_interface none ≡ done tt
unfolding lookup_interface
found_run = refl

ready_run : check_interface true (done (link_local ∷ [])) ≡ done tt
unfolding check_interface corerad.System.Ready.found_link_local corerad.System.Ready.is_ready_addr
    corerad.Netip.Addr.from_slice corerad.Netip.Addr.is6 corerad.Netip.Addr.is_link_local_unicast
    corerad.Netip.Addr.big_endian
ready_run = refl

dial_leaks_example : (true ≡ true) × (3 ≡ suc 2)
dial_leaks_example = dial_leaks advertise no_group host found_run ready_run refl leaked
