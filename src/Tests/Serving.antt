-- ===== src/Tests/Serving.antt =====
-- The tasks of a configuration, and what signals, link changes and listener errors do to them.
use corerad.Common.{
  ℕ, zero, suc, ◌≤◌, ◌<◌, ◌≡◌, ◌↔◌, refl, Bool, true, false, List, [], ◌∷◌, ◌++◌, map, filter, some,
  none, ok, err,
}
use corerad.Netstate.{Ending, new_watcher, link_message, oper_down}
use corerad.Netstate
use corerad.Server.{
  Served, Control, net_error, server_closed, attempts, serve, timed_out, build_tasks, watcher_task,
}
use corerad.Server.Built.{is_active, task_of, http_tasks, subscribed, build_tasks_lem}
use corerad.Server.Serving.{IsNetError, serve_timed_out}
use corerad.Tests.Data.{config}

build_tasks_example :
    (build_tasks config (some new_watcher) ≡ (
      map (task_of true) (filter is_active config.interfaces)
          ++ http_tasks config
          ++ (watcher_task ∷ []),
      some (subscribed (filter is_active config.interfaces) new_watcher),
    ))
    × (build_tasks config none
        ≡ (map (task_of false) (filter is_active config.interfaces) ++ http_tasks config, none))
build_tasks_example = build_tasks_lem config new_watcher

abbrev goes_down : List (List Netstate.Message)
goes_down = (link_message (some ("eth0", oper_down)) ∷ []) ∷ []

-- The address is free after two attempts, and the server is closed.
abbrev busy : ℕ → Served
busy zero = net_error "address already in use"
busy (suc zero) = net_error "address already in use"
busy (suc (suc i)) = server_closed

abbrev live : ℕ → Bool
live i = false

serve_run : serve live live busy ≡ (ok tt, 3)
unfolding serve corerad.Server.serve_from
serve_run = refl

serve_timed_out_example :
    ((serve live live busy).1 ≤ attempts)
    × (((serve live live busy).0 ≡ err timed_out)
        ↔ ((k : ℕ) → k < attempts → IsNetError live live busy k))
serve_timed_out_example = serve_timed_out live live busy

abbrev running : Control
running = record { term = false; canceled = false }
