-- ===== src/Tests/Tasks.antt =====
-- The tasks of a server: what is notified, what Serve returns, and the debug server.
use corerad.Common.{
  ℕ, zero, suc, ◌<◌, ◌≤◌, ◌≡◌, ◌⊎◌, refl, Bool, true, false, List, [], ◌∷◌, ◌++◌, Option, some,
  none, ok, All, arith,
}
use corerad.System.{Error}
use corerad.Server.{Task, watcher_task, http_task, signal_task, net_error, attempts}
use corerad.Server.Running.{
  RunError, task_failed, serve_failed, all_tasks, serve, started, all_running, Progress, start,
  Step, is_ready, all_ready, Reach, here, next, IsNotified, Reach-IsNotified, serve_lem,
}
use corerad.Server.Http.{Attempt, not_listening, listening, closes, run, run_closes, run_loses}
use corerad.Tests.Reconnecting.{group}

abbrev tasks : List Task
tasks = http_task ":9430" ∷ watcher_task ∷ []

-- The watcher of the links is ready first, and the debug server last.
abbrev told : Progress
told = record {
  pending = [];
  notified =
      all_running ∷ started (http_task ":9430") ∷ started signal_task ∷ started watcher_task ∷ [];
  waits = false;
}

told_reached : Reach (start tasks) told
unfolding start all_tasks
told_reached =
    next
      (next
        (next
          (next (here _) (is_ready (http_task ":9430" ∷ []) (signal_task ∷ []) watcher_task _ true))
          (is_ready (http_task ":9430" ∷ []) [] signal_task _ true))
        (is_ready [] [] (http_task ":9430") _ true))
      (all_ready _)

Reach-IsNotified_example : IsNotified (all_tasks tasks) told
Reach-IsNotified_example = Reach-IsNotified tasks told_reached

-- The watcher fails first, and then the debug server, whose error is not reported.
abbrev returned : List (Task × Option Error)
returned =
    (signal_task, none)
    ∷ (watcher_task, some "permission denied")
    ∷ (http_task ":9430", some "address in use")
    ∷ []

reports_first :
    serve group returned ≡ some (serve_failed (task_failed watcher_task "permission denied"))
unfolding serve corerad.Server.Running.run_task
reports_first = refl

serve_lem_example :
    (All (λ r. r.1 ≡ none) returned × (serve group returned ≡ none))
    ⊎ ((before : List (Task × Option Error)) × (t : Task) × (e : Error) × (after : List
          (Task × Option Error))
        × (returned ≡ before ++ ((t, some e) ∷ after))
        × All (λ r. r.1 ≡ none) before
        × (serve group returned ≡ some (serve_failed (task_failed t e))))
serve_lem_example = serve_lem group returned

-- The address is in use at first; the server that listens then fails.
abbrev tries : ℕ → Attempt
tries zero = not_listening true "address in use"
tries (suc i) = listening (net_error "accept failed")

abbrev never : ℕ → Bool
never i = false

early : (i : ℕ) → i < 1 → (x : Error) × (tries i ≡ not_listening true x)
early zero h = ("address in use", refl)
early (suc i) h = absurd (omega arith)

run_closes_example : closes tries never never ((run tries never never).1) ≤ 1
run_closes_example = run_closes tries never never

run_loses_example : run tries never never ≡ (ok tt, 2)
run_loses_example =
    run_loses tries never never 1 "accept failed" refl (λ i h. refl) (λ i h. refl) early
      (omega arith)
