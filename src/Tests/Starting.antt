-- ===== src/Tests/Starting.antt =====
-- The command and the routes of the debug server.
use mathlib.Core.List.{Perm, Mem}
use mathlib.Core.List.Perm
use corerad.Common.{
  ◌≡◌, ◌≢◌, ◌↔◌, refl, ◌∙◌, ap, subst, sym, true, false, String, List, [], ◌∷◌, map, Option, some,
  none, ok,
}
use corerad.Common.Int.{pos}
use corerad.Api.Routes.{
  serve_http, serve_http_lem, interfaces, metrics, pprof_index, redirect, not_found,
}
use corerad.Build.{banner}
use corerad.System.{Error}
use corerad.Config.Types.{RawFile, Config, Debug}
use corerad.Config.File.{parse}
use corerad.Netstate.{new_watcher}
use corerad.Server.{Task, build_tasks}
use corerad.Server.Running.{all_tasks}
use corerad.Command.{Answers, main, run_file, run_server, main_success, success}
use corerad.Tests.Data.{library, file, config, debug}
use corerad.Tests.Parsing.{parse_run}
use corerad.Tests.Reconnecting.{group}

no_errors : List Task → List (Task × Option Error)
no_errors ts = map (λ t. (t, none)) ts

tasks_kept : (ts : List Task) → map (λ r. r.0) (no_errors ts) ≡ ts
unfolding no_errors
tasks_kept [] = refl
tasks_kept (t ∷ ts) = ap (λ us. t ∷ us) (tasks_kept ts)

abbrev answers : Answers
answers = record {
  write_file = none;
  getwd = none;
  notifier = none;
  open_file = none;
  decoded = some file;
  returned = no_errors;
}

parses : run_file library group answers (pos 7) ≡ run_server library group answers config
unfolding run_file
parses = rw (parse_run, run_file) refl

serves : run_server library group answers config ≡ success
unfolding run_server corerad.Server.Running.serve no_errors all_tasks build_tasks
    corerad.Server.build_interfaces corerad.Server.Running.run_task
serves = refl

runs : main library group false answers (pos 7) ≡ success
unfolding main
runs = parses ∙ serves

main_success_example :
    (raw : RawFile) × (cfg : Config) × (answers.open_file ≡ none)
    × (answers.decoded ≡ some raw)
    × (parse library raw (pos 7) ≡ ok cfg)
    × ((t : Task)
        → Mem t (all_tasks (build_tasks cfg (some new_watcher)).0)
        → Mem (t, none) (answers.returned (all_tasks (build_tasks cfg (some new_watcher)).0)))
main_success_example =
    main_success library group answers (pos 7)
      (λ ts. subst (λ us. Perm us ts) (sym (tasks_kept ts)) (Perm.refl ts)) runs

abbrev profiled : Debug
profiled = record debug { prometheus = false; pprof = true }

index_run : serve_http profiled "/debug/pprof/heap" ≡ pprof_index
unfolding serve_http corerad.Api.Routes.find_exact corerad.Api.Routes.new_handler
    corerad.Api.Routes.find_subtree
index_run = refl

redirect_run : serve_http profiled "/debug/pprof" ≡ redirect
unfolding serve_http corerad.Api.Routes.find_exact corerad.Api.Routes.new_handler
    corerad.Api.Routes.find_subtree
redirect_run = refl

abbrev metrics_path : String
metrics_path = "/metrics"

serve_http_lem_example :
    ((serve_http profiled metrics_path ≡ interfaces) ↔ (metrics_path ≡ "/_/api/interfaces"))
    × ((serve_http profiled metrics_path ≡ metrics)
        ↔ ((false ≡ true) × (metrics_path ≡ metrics_path)))
    × (false ≡ false
        → true ≡ false
        → metrics_path ≢ "/"
        → metrics_path ≢ "/_/api/interfaces"
        → serve_http profiled metrics_path ≡ not_found)
serve_http_lem_example = serve_http_lem profiled metrics_path

unset_banner :
    banner (λ s. some (pos 0)) (λ t. "2022-01-01") (record { timestamp = ""; version = "v1.2.0" })
    ≡ ok "CoreRAD v1.2.0 (n/a)"
unfolding banner corerad.Build.time corerad.Build.version
unset_banner = refl
