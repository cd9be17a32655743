-- ===== src/Command.antt =====
-- The command (cmd/corerad/main.go): how it starts, and when it exits without an error.
use mathlib.Core.Logic.{∥∥₁_map}
use mathlib.Core.List.{Perm, Mem}
use mathlib.Core.List.Perm
use mathlib.Core.List.Memᴰ
use corerad.Common.{
  ◌≡◌, Bool, true, false, not, String, List, map, Option, some, none, ok, err, panic, if◌then◌else◌,
  All, All-mem, subst, Memᴰ, Option-cases, Result-cases, Bool-cases, inl, inr,
}
use corerad.Common.Int.{ℤ}
use corerad.Errgroup.{Group}
use corerad.System.{Error}
use corerad.Config.Types.{RawFile, Config, Library}
use corerad.Config.File.{parse}
use corerad.Netstate.{new_watcher}
use corerad.Server.{Task, build_tasks}
use corerad.Server.Running.{RunError, all_tasks, serve, serve_lem}

-- What the system answers: the error of writing the minimal configuration, of Getwd, of the systemd
-- notifier with whether it is os.ErrNotExist, and of opening the file; the decoded file, or `none`
-- where it is no TOML; and the tasks of the server with their errors, in the order in which
-- they return.
pub record Answers : Type 0 where
  pub write_file : Option Error
  pub getwd : Option Error
  pub notifier : Option (Error × Bool)
  pub open_file : Option Error
  pub decoded : Option RawFile
  pub returned : List Task → List (Task × Option Error)

-- How the process ends: with exit status 0, with 1 after a message, or in a panic.
pub data Exit : Type 0 where
  success : Exit
  fatal : String → Exit
  panicked : Exit

-- The part of main for the flag -init.
unfoldable pub write_minimal : Answers → Exit
write_minimal a = elim a.write_file [
  | some e ↦ fatal "failed to write minimal configuration"
  | none ↦ elim a.getwd [ some e ↦ fatal "failed to get working directory" | none ↦ success ]
]

-- A task of the list that returned, where all returned no error.
returned_nil :
    (t : Task) (rs : List (Task × Option Error)) {ts : List Task}
    → Perm (map (λ r. r.0) rs) ts
    → All (λ r. r.1 ≡ none) rs
    → Mem t ts
    → Mem (t, none) rs
returned_nil t rs shared all m = ∥∥₁_map ((Perm.mem_iff shared).1 m) (λ d.
    let (r, k, q) = Memᴰ.of_map (λ x. x.0) rs d in
    let nil = All-mem (λ x. x.1 ≡ none) rs all r k in subst (λ x. Memᴰ x rs) (λ i. (q i, nil i)) k)

module _ (lib : Library) (g : Group RunError) where
  -- The server of a configuration, with what Serve returns.
  unfoldable pub run_server : Answers → Config → Exit
  run_server a cfg =
      elim (serve g (a.returned (all_tasks (build_tasks cfg (some new_watcher)).0))) [
        | some e ↦ fatal "failed to run"
        | none ↦ success
      ]

  -- From the opened file on, at the time `now`.
  unfoldable pub run_file : Answers → ℤ → Exit
  run_file a now = elim a.decoded [
    | none ↦ fatal "failed to parse"
    | some file ↦ elim (parse lib file now) [
      | err e ↦ fatal "failed to parse"
      | panic ↦ panicked
      | ok cfg ↦ run_server a cfg
    ]
  ]

  abbrev is_missing : Option (Error × Bool) → Bool
  is_missing none = true
  is_missing (some (e, not_exist)) = not_exist

  -- main, with the flag -init.
  unfoldable pub main : Bool → Answers → ℤ → Exit
  main init a now =
      if init
      then write_minimal a
      else if not (is_missing a.notifier)
      then fatal "failed to open systemd notifier"
      else elim a.open_file [
        | some e ↦ fatal "failed to open configuration file"
        | none ↦ run_file a now
      ]

  run_server_success :
      (a : Answers) (cfg : Config)
      → run_server a cfg ≡ success
      → All (λ r. r.1 ≡ none) (a.returned (all_tasks (build_tasks cfg (some new_watcher)).0))
  unfolding run_server
  run_server_success a cfg h =
      elim (serve_lem g (a.returned (all_tasks (build_tasks cfg (some new_watcher)).0))) [
        | inl (all, q) ↦ all
        | inr (before, t, e, after, eq, all, q) ↦ cc (rw (q, run_server) at h)
      ]

  run_file_success :
      (a : Answers) (now : ℤ)
      → run_file a now ≡ success
      → (file : RawFile) × (cfg : Config) × (a.decoded ≡ some file)
        × (parse lib file now ≡ ok cfg)
        × (run_server a cfg ≡ success)
  unfolding run_file
  run_file_success a now h = elim (Option-cases a.decoded) [
    | inl q ↦ cc (rw (q, run_file) at h)
    | inr (file, q) ↦ elim (Result-cases (parse lib file now)) [
      | inl (cfg, p) ↦ (file, cfg, q, p, rw (q, p, run_file) at h)
      | inr (inl (e, p)) ↦ cc (rw (q, p, run_file) at h)
      | inr (inr p) ↦ cc (rw (q, p, run_file) at h)
    ]
  ]

  -- Where the tasks that return are those that the server was given, the command without -init exits
  -- with success only where the file could be opened and decoded, its content is accepted as a
  -- configuration, and every task of that configuration, the signal watcher included, returned no
  -- error.
  pub main_success :
      (a : Answers) (now : ℤ)
      → ((ts : List Task) → Perm (map (λ r. r.0) (a.returned ts)) ts)
      → main false a now ≡ success
      → (file : RawFile) × (cfg : Config) × (a.open_file ≡ none)
        × (a.decoded ≡ some file)
        × (parse lib file now ≡ ok cfg)
        × ((t : Task)
            → Mem t (all_tasks (build_tasks cfg (some new_watcher)).0)
            → Mem (t, none) (a.returned (all_tasks (build_tasks cfg (some new_watcher)).0)))
  unfolding main
  main_success a now shares h = elim (Bool-cases (is_missing a.notifier)) [
    | inr m ↦ cc (rw (m, main) at h)
    | inl m ↦ elim (Option-cases a.open_file) [
      | inr (e, o) ↦ cc (rw (m, o, main) at h)
      | inl o ↦
          let (file, cfg, d, p, r) = run_file_success a now (rw (m, o, main) at h) in
          let all = run_server_success a cfg r in
          (
            file,
            cfg,
            o,
            d,
            p,
            λ t.
                returned_nil t (a.returned (all_tasks (build_tasks cfg (some new_watcher)).0))
                  (shares _) all,
          )
    ]
  ]
