-- ===== src/Server/Running.antt =====
-- Server.Serve (internal/corerad/server.go): the tasks in a group, and what the service manager is told
-- of them.
use mathlib.Core.List.{Perm, perm_middle, map-append}
use mathlib.Core.List.Perm
use corerad.Common.{
  ◌≡◌, ◌⊎◌, inl, inr, refl, ap, Bool, true, false, List, [], ◌∷◌, ◌++◌, map, Option, some, none,
  All,
}
use corerad.Errgroup.{Group}
use corerad.System.{Error}
use corerad.Server.{Task, signal_task}

-- "failed to run task %s: %v", and "failed to serve: %v" around it.
pub data RunError : Type 0 where
  task_failed : Task → Error → RunError

pub data ServerError : Type 0 where
  serve_failed : RunError → ServerError

-- The tasks that Serve runs.
unfoldable pub all_tasks : List Task → List Task
all_tasks tasks = tasks ++ (signal_task ∷ [])

-- The function of the goroutine of a task, from the error of its Run.
unfoldable pub run_task : Task × Option Error → Option RunError
run_task (t, none) = none
run_task (t, some e) = some (task_failed t e)

-- What Serve returns, from the errors of all tasks in the order in which they return.
unfoldable pub serve : Group RunError → List (Task × Option Error) → Option ServerError
serve g returned = elim (g.wait (map run_task returned)) [
  | none ↦ none
  | some e ↦ some (serve_failed e)
]

-- The calls of Notify by Serve: "started %s", and "server started, all tasks running" with READY=1.
pub data Notification : Type 0 where
  started : Task → Notification
  all_running : Notification

-- The tasks that the wait group waits for, what was notified so far, the last first, and whether the
-- goroutine that waits for the group is still there.
pub record Progress : Type 0 where
  pub pending : List Task
  pub notified : List Notification
  pub waits : Bool

unfoldable pub start : List Task → Progress
start tasks = record { pending = all_tasks tasks; notified = []; waits = true }

-- The goroutine of a task that is ready, or the one that waits for all of them.
pub data Step : Progress → Progress → Type 0 where
  is_ready :
      (before after : List Task) (t : Task) (ns : List Notification) (w : Bool)
      → Step
          (record { pending = before ++ (t ∷ after); notified = ns; waits = w })
          (record { pending = before ++ after; notified = started t ∷ ns; waits = w })
  all_ready :
      (ns : List Notification)
      → Step
          (record { pending = []; notified = ns; waits = true })
          (record { pending = []; notified = all_running ∷ ns; waits = false })

pub data Reach : Progress → Progress → Type 0 where
  here : (s : Progress) → Reach s s
  next : {s t u : Progress} → Reach s t → Step t u → Reach s u

-- The tasks `noted` are those that were noted as started, the last first.
pub record IsNotified (tasks : List Task) (s : Progress) : Type 0 where
  pub noted : List Task
  pub shared_out : Perm (noted ++ s.pending) tasks
  pub order :
      ((s.waits ≡ true) × (s.notified ≡ map started noted))
      ⊎ ((s.waits ≡ false) × (s.pending ≡ []) × (s.notified ≡ all_running ∷ map started noted))

append-cons_empty : {A : Type 0} (xs ys : List A) (x : A) → xs ++ (x ∷ ys) ≡ [] → ⊥
append-cons_empty [] ys x h = cc
append-cons_empty (z ∷ xs) ys x h = cc

moved_out :
    {A : Type 0} (noted before after : List A) (t : A)
    → Perm ((t ∷ noted) ++ (before ++ after)) (noted ++ (before ++ (t ∷ after)))
moved_out noted before after t = Perm.symm (
    Perm.trans (Perm.append_left noted (perm_middle before after))
      (perm_middle noted (before ++ after)))

Step-IsNotified :
    (tasks : List Task) {s t : Progress} → Step s t → IsNotified tasks s → IsNotified tasks t
Step-IsNotified tasks (is_ready before after t ns w) h = record {
  noted = t ∷ h.noted;
  shared_out = Perm.trans (moved_out h.noted before after t) h.shared_out;
  order = elim h.order [
    | inl (a, b) ↦ inl (a, ap (λ xs. started t ∷ xs) b)
    | inr (a, b, c) ↦ absurd (append-cons_empty before after t b)
  ];
}
Step-IsNotified tasks (all_ready ns) h = record {
  noted = h.noted;
  shared_out = h.shared_out;
  order = elim h.order [
    | inl (a, b) ↦ inr (refl, refl, ap (λ xs. all_running ∷ xs) b)
    | inr (a, b, c) ↦ cc
  ];
}

Reach-kept :
    (tasks : List Task) {s t : Progress} → Reach s t → IsNotified tasks s → IsNotified tasks t
Reach-kept tasks (here _) h = h
Reach-kept tasks (next r step) h = Step-IsNotified tasks step (Reach-kept tasks r h)

-- In every state that Serve reaches, the tasks noted as started and those it still waits for are
-- together the tasks that it was given and the signal watcher, each as often. While it waits it has
-- sent nothing else; and the service manager is told that all tasks run at most once, after each of
-- them was noted as started.
pub Reach-IsNotified :
    (tasks : List Task) {s : Progress} → Reach (start tasks) s → IsNotified (all_tasks tasks) s
unfolding start
Reach-IsNotified tasks r =
    Reach-kept (all_tasks tasks) r
      (record { noted = []; shared_out = Perm.refl _; order = inl (refl, refl) })

-- The first task of the list that fails, if one does.
first_failure :
    (rs : List (Task × Option Error))
    → All (λ r. r.1 ≡ none) rs
      ⊎ ((before : List (Task × Option Error)) × (t : Task) × (e : Error) × (after : List
            (Task × Option Error))
          × (rs ≡ before ++ ((t, some e) ∷ after))
          × All (λ r. r.1 ≡ none) before)
first_failure [] = inl tt
first_failure ((t, some e) ∷ rs) = inr ([], t, e, rs, refl, tt)
first_failure ((t, none) ∷ rs) = elim (first_failure rs) [
  | inl all ↦ inl (refl, all)
  | inr (before, u, e, after, q, all) ↦
      inr ((t, none) ∷ before, u, e, after, ap (λ xs. (t, none) ∷ xs) q, (refl, all))
]

run_task-nil :
    (rs : List (Task × Option Error))
    → All (λ r. r.1 ≡ none) rs
    → All (λ e. e ≡ none) (map run_task rs)
unfolding run_task
run_task-nil [] h = tt
run_task-nil ((t, e) ∷ rs) (q, h) = (rw q refl, run_task-nil rs h)

module _ (g : Group RunError) where
  serve_first :
      (before after : List (Task × Option Error)) (t : Task) (e : Error)
      → All (λ r. r.1 ≡ none) before
      → serve g (before ++ ((t, some e) ∷ after)) ≡ some (serve_failed (task_failed t e))
  unfolding serve run_task
  serve_first before after t e h =
      let waited : g.wait (map run_task (before ++ ((t, some e) ∷ after)))
          ≡ some (task_failed t e) =
        rw (map-append run_task before ((t, some e) ∷ after)) (
          g.wait_first (map run_task before) (map run_task after) (task_failed t e)
            (run_task-nil before h)) in
      rw (waited, serve) refl

  -- Serve returns nil where no task returned an error, and else the error of the first that did, with
  -- its task, whatever the later ones return.
  pub serve_lem :
      (rs : List (Task × Option Error))
      → (All (λ r. r.1 ≡ none) rs × (serve g rs ≡ none))
        ⊎ ((before : List (Task × Option Error)) × (t : Task) × (e : Error) × (after : List
              (Task × Option Error))
            × (rs ≡ before ++ ((t, some e) ∷ after))
            × All (λ r. r.1 ≡ none) before
            × (serve g rs ≡ some (serve_failed (task_failed t e))))
  unfolding serve
  serve_lem rs = elim (first_failure rs) [
    | inl all ↦ inl (all, rw (g.wait_nil (map run_task rs) (run_task-nil rs all), serve) refl)
    | inr (before, t, e, after, q, all) ↦
        inr (before, t, e, after, q, all, rw q (serve_first before after t e all))
  ]
