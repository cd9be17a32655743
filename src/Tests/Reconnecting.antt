-- ===== src/Tests/Reconnecting.antt =====
-- Runs of an advertiser and a monitor whose link changes once.
use corerad.Common.{
  ℕ, zero, suc, ◌<◌, ◌≤◌, ◌≡◌, refl, Bool, true, false, List, [], ◌∷◌, ◌++◌, Option, some, none, ok,
  err, All, arith,
}
use corerad.Common.Int.{pos}
use corerad.Netip.Addr.{all_nodes}
use corerad.Errgroup.{Group, left_first, right_first}
use corerad.System.{Error}
use corerad.System.Dialer.{
  DialError, Outcome, done, canceled, link_change, other, reinitialize, is_recoverable,
}
use corerad.System.Dialer.Rounds.{runs}
use corerad.Advertiser.Messages
use corerad.Advertiser.Messages.{Environment, send, shutdown}
use corerad.Advertiser.Goroutines.{Written}
use corerad.Advertiser.Session
use corerad.Advertiser.Session.{Session, ended}
use corerad.Advertiser.Running
use corerad.Advertiser.Running.{run_survives, run_stops}
use corerad.Monitor.Running as Monitoring
use corerad.Tests.Sending.{environment, advertiser, loud_ra}

-- The first error of the list.
abbrev first_error : {E : Type 0} → List (Option E) → Option E
first_error [] = none
first_error (none ∷ es) = first_error es
first_error (some e ∷ es) = some e

pub first_nil : {E : Type 0} (es : List (Option E)) → All (λ e. e ≡ none) es → first_error es ≡ none
first_nil [] h = refl
first_nil (none ∷ es) (_, h) = first_nil es h
first_nil (some e ∷ es) (q, h) = cc

pub first_of_append :
    {E : Type 0} (before after : List (Option E)) (e : E)
    → All (λ x. x ≡ none) before
    → first_error (before ++ (some e ∷ after)) ≡ some e
first_of_append [] after e h = refl
first_of_append (none ∷ es) after e (_, h) = first_of_append es after e h
first_of_append (some f ∷ es) after e (q, h) = cc

abbrev pub group : {E : Type 0} → Group E
group = record { wait = first_error; wait_nil = first_nil; wait_first = first_of_append }

abbrev dials : ℕ → ℕ → Outcome ℕ
dials r j = done r

abbrev steady : ℕ → ℕ → Bool
steady r j = false

abbrev clean : ℕ → ℕ → Option (Option Error)
clean r c = some none

-- The second connection of the monitor is cancelled.
abbrev monitored : ℕ → Monitoring.Round
monitored zero = record { listener = none; watcher = some link_change; order = right_first }
monitored (suc r) = record { listener = none; watcher = none; order = left_first }

listens : (r : ℕ) → r ≤ 1 → (monitored r).listener ≡ none
listens zero h = refl
listens (suc r) h = refl

changes : (r : ℕ) → r < 1 → (monitored r).watcher ≡ some link_change
changes zero h = refl
changes (suc r) h = absurd (omega arith)

monitor_survives_example :
    (results : ℕ → Option DialError) × ((r : ℕ)
      → Monitoring.use_connection group (some canceled) (monitored r) ≡ ok (results r))
    × (Monitoring.run dials steady clean results 5
        ≡ record { trace = runs (λ r. r) (λ r c. results r) 0 1; ending = some none })
monitor_survives_example =
    Monitoring.monitor_survives group (some canceled) refl monitored dials steady clean (λ r. r)
      (λ r j. refl) (λ r j. refl) (λ r. refl) 1 5 listens changes refl (omega arith)

-- The link of the advertiser changes in the first round.
abbrev met : ℕ → Running.Round
met zero = record {
  prepared = none;
  first = environment;
  final = environment;
  during = [];
  ending = ended link_change;
}
met (suc r) = record {
  prepared = none;
  first = environment;
  final = environment;
  during = [];
  ending = Session.canceled;
}

-- Writes fail from the second round on.
abbrev broken : Environment
broken = record environment { write = λ _ _. err "network is unreachable" }

abbrev met_broken : ℕ → Running.Round
met_broken zero = met zero
met_broken (suc r) = record (met (suc r)) { first = broken }

abbrev first : List Written
first = (loud_ra, all_nodes) ∷ []

abbrev sessions : ℕ → Session
sessions zero = record { result = some link_change; written = first }
sessions (suc r) = record {
  result = none;
  written = (record loud_ra { router_lifetime = pos 0 }, all_nodes) ∷ first;
}

abbrev sessions_broken : ℕ → Session
sessions_broken zero = sessions zero
sessions_broken (suc r) = record {
  result = some (other "failed to send initial multicast router advertisement");
  written = [];
}

used : (r : ℕ) → Running.use_connection advertiser (met r) ≡ ok (sessions r)
unfolding Running.use_connection Session.session Session.finish shutdown send Messages.build_ra
    corerad.Config.Advertise.router_advertisement corerad.Config.Advertise.apply_all
    corerad.Plugin.Apply.apply loud_ra corerad.Config.Advertise.base_ra corerad.Plugin.Apply.to_u32
used zero = refl
used (suc r) = refl

used_broken : (r : ℕ) → Running.use_connection advertiser (met_broken r) ≡ ok (sessions_broken r)
unfolding Running.use_connection Session.session Session.finish shutdown send Messages.build_ra
    corerad.Config.Advertise.router_advertisement corerad.Config.Advertise.apply_all
    corerad.Plugin.Apply.apply loud_ra corerad.Config.Advertise.base_ra corerad.Plugin.Apply.to_u32
used_broken zero = refl
used_broken (suc r) = refl

prepares : (r : ℕ) → r ≤ 1 → (met r).prepared ≡ none
prepares zero h = refl
prepares (suc r) h = refl

prepares_broken : (r : ℕ) → r ≤ 1 → (met_broken r).prepared ≡ none
prepares_broken zero h = refl
prepares_broken (suc r) h = refl

sends_first : send environment all_nodes advertiser.cfg ≡ ok first
unfolding send Messages.build_ra corerad.Config.Advertise.router_advertisement
    corerad.Config.Advertise.apply_all corerad.Plugin.Apply.apply loud_ra
    corerad.Config.Advertise.base_ra corerad.Plugin.Apply.to_u32
sends_first = refl

sends : (r : ℕ) → r < 1 → send (met r).first all_nodes advertiser.cfg ≡ ok first
sends zero h = sends_first
sends (suc r) h = absurd (omega arith)

sends_broken : (r : ℕ) → r < 1 → send (met_broken r).first all_nodes advertiser.cfg ≡ ok first
sends_broken zero h = sends_first
sends_broken (suc r) h = absurd (omega arith)

ends : (r : ℕ) → r < 1 → ((met r).ending ≡ ended link_change) × (is_recoverable link_change ≡ true)
unfolding is_recoverable
ends zero h = (refl, refl)
ends (suc r) h = absurd (omega arith)

ends_broken :
    (r : ℕ)
    → r < 1
    → ((met_broken r).ending ≡ ended link_change) × (is_recoverable link_change ≡ true)
unfolding is_recoverable
ends_broken zero h = (refl, refl)
ends_broken (suc r) h = absurd (omega arith)

last_shuts :
    shutdown environment advertiser
    ≡ ok ((record loud_ra { router_lifetime = pos 0 }, all_nodes) ∷ [])
unfolding send Messages.build_ra corerad.Config.Advertise.router_advertisement
    corerad.Config.Advertise.apply_all corerad.Plugin.Apply.apply loud_ra
    corerad.Config.Advertise.base_ra corerad.Plugin.Apply.to_u32 shutdown
last_shuts = refl

last_fails :
    send broken all_nodes advertiser.cfg
    ≡ err (Messages.write_failed all_nodes "network is unreachable")
unfolding send Messages.build_ra corerad.Config.Advertise.router_advertisement
    corerad.Config.Advertise.apply_all corerad.Plugin.Apply.apply loud_ra
    corerad.Config.Advertise.base_ra corerad.Plugin.Apply.to_u32
last_fails = refl

run_survives_example :
    (Running.run dials steady clean sessions 5
      ≡ record { trace = runs (λ r. r) (λ r c. (sessions r).result) 0 1; ending = some none })
    × ((r : ℕ) → r < 1 → (sessions r).written ≡ (met r).during ++ first)
    × ((sessions 1).written
        ≡ ((record loud_ra { router_lifetime = pos 0 }, all_nodes) ∷ []) ++ ([] ++ first))
run_survives_example =
    run_survives advertiser met sessions used dials steady clean (λ r. r) (λ r j. refl)
      (λ r j. refl) (λ r. refl) 1 (λ r. first) prepares sends (λ r. link_change) ends sends_first
      refl last_shuts 5 (omega arith)

run_stops_example :
    (Running.run dials steady clean sessions_broken 5 ≡ record {
      trace = runs (λ r. r) (λ r c. (sessions_broken r).result) 0 1;
      ending =
          some
            (some (reinitialize (other "failed to send initial multicast router advertisement")));
    })
    × ((sessions_broken 1).written ≡ [])
run_stops_example =
    run_stops advertiser met_broken sessions_broken used_broken dials steady clean (λ r. r)
      (λ r j. refl) (λ r j. refl) (λ r. refl) 1 (λ r. first) prepares_broken sends_broken
      (λ r. link_change) ends_broken last_fails 5 (omega arith)
