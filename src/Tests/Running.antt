-- ===== src/Tests/Running.antt =====
-- A run of the advertiser's goroutines: one multicast request and one solicitation.
use corerad.Common.{ℕ, ◌≡◌, refl, true, false, List, [], ◌∷◌, Option, some, none, ok, All, arith}
use corerad.Common.Int.{ℤ, pos, ◌+ℤ◌}
use corerad.Netip.Addr.{Addr, all_nodes, v6}
use corerad.Advertiser.Messages
use corerad.Advertiser.Messages.{send}
use corerad.Advertiser.Goroutines.{
  State, Move, Written, multicast, listen, schedule, work, tick, start, Reach, run, run-Reach,
}
use corerad.Advertiser.Goroutines.Conserved.{IsServed, count, total, Reach-total}
use corerad.Advertiser.Goroutines.Answered.{IsAnswer, Reach-IsAnswering}
use corerad.Advertiser.Goroutines.Drained.{Reach-drains}
use corerad.Advertiser.Session.{Session, Ending, canceled, session, session-IsAnswer}
use corerad.Tests.Sending.{environment, advertiser, loud, loud_ra}

abbrev three_seconds : ℤ
three_seconds = pos 3000000000

-- fe80::1.
abbrev client : Addr
client = v6 0xfe800000000000000000000000000001

abbrev moves : List Move
moves =
    multicast 0
    ∷ schedule 0
    ∷ listen environment (Messages.router_solicitation []) client
    ∷ schedule 250000000
    ∷ tick 250000000
    ∷ work 1 environment
    ∷ []

-- The client has its answer, and the multicast advertisement is due after three seconds.
abbrev answered : State
answered = record {
  now = pos 250000000;
  queue = [];
  pending = (pos 3000000000, all_nodes) ∷ [];
  last_multicast = pos 0;
  rounds = 1;
  wake = pos 4000000000;
  written = (loud_ra, client) ∷ [];
  failed = none;
  handler_error = none;
  stopped = false;
  requested = client ∷ all_nodes ∷ [];
  answerable = client ∷ all_nodes ∷ [];
}

reaches_it : run advertiser three_seconds moves (start (pos 0)) ≡ some answered
unfolding run corerad.Advertiser.Goroutines.step corerad.Advertiser.Goroutines.step_multicast
    corerad.Advertiser.Goroutines.enqueue corerad.Advertiser.Timing.multicast_delay
    corerad.Advertiser.Timing.int63n corerad.Common.Int.◌-ℤ◌
    corerad.Advertiser.Goroutines.step_schedule corerad.Advertiser.Timing.schedule_request
    corerad.Netip.Addr.is_multicast corerad.Advertiser.Goroutines.step_listen Messages.handle
    corerad.Netip.Addr.is_valid corerad.Netip.Addr.is_unspecified
    corerad.Advertiser.Goroutines.step_work corerad.Advertiser.Goroutines.take_out ◌+ℤ◌
    corerad.Advertiser.Timing.round send Messages.build_ra
    corerad.Config.Advertise.router_advertisement corerad.Config.Advertise.apply_all
    corerad.Plugin.Apply.apply corerad.Config.Advertise.base_ra corerad.Plugin.Apply.to_u32 loud_ra
reaches_it = refl

reached : Reach advertiser three_seconds (start (pos 0)) answered
reached = run-Reach advertiser three_seconds moves reaches_it

Reach-total_example : total client answered ≡ count (λ x. x) client (client ∷ all_nodes ∷ [])
Reach-total_example = Reach-total advertiser three_seconds (pos 0) reached refl client refl

Reach-IsAnswering_example :
    All (IsAnswer advertiser three_seconds answered) ((loud_ra, client) ∷ [])
Reach-IsAnswering_example = Reach-IsAnswering advertiser three_seconds (pos 0) reached

sends : (ip : Addr) → (ws : List Written) × (send environment ip loud ≡ ok ws)
unfolding send Messages.build_ra corerad.Config.Advertise.router_advertisement
    corerad.Config.Advertise.apply_all corerad.Plugin.Apply.apply corerad.Config.Advertise.base_ra
    corerad.Plugin.Apply.to_u32 loud_ra
sends ip = ((loud_ra, ip) ∷ [], refl)

Reach-drains_example :
    (t : State) × Reach advertiser three_seconds answered t
    × (t.now ≡ pos 250000000 +ℤ three_seconds)
    × (t.requested ≡ client ∷ all_nodes ∷ [])
    × (t.queue ≡ [])
    × (t.pending ≡ [])
    × ((ip : Addr)
        → IsServed advertiser three_seconds ip
        → count (λ w. w.1) ip t.written ≡ count (λ x. x) ip t.requested)
Reach-drains_example =
    Reach-drains advertiser three_seconds environment sends (pos 0) 3000000000 (omega arith) refl
      reached refl refl

-- The first advertisement, the answer, and the final one.
abbrev used : Session
used = record {
  result = none;
  written =
      (record loud_ra { router_lifetime = pos 0 }, all_nodes)
      ∷ (loud_ra, client)
      ∷ (loud_ra, all_nodes)
      ∷ [];
}

session_ends : session advertiser none environment environment answered.written canceled ≡ ok used
unfolding session corerad.Advertiser.Session.finish Messages.shutdown send Messages.build_ra
    corerad.Config.Advertise.router_advertisement corerad.Config.Advertise.apply_all
    corerad.Plugin.Apply.apply corerad.Config.Advertise.base_ra corerad.Plugin.Apply.to_u32 loud_ra
session_ends = refl

session-IsAnswer_example :
    All (IsAnswer advertiser three_seconds answered) used.written
    × (used.result ≡ none → canceled ≡ canceled)
session-IsAnswer_example =
    session-IsAnswer advertiser three_seconds (pos 0) none environment environment canceled reached
      session_ends
