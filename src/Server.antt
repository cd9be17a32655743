-- ===== src/Server.antt =====
-- The Server (internal/corerad/server.go, signals_unix.go): the tasks that it builds, and what they do
-- on a signal, on a link change and on an error of the HTTP listener.
pub mod Built
pub mod Links
pub mod Signals
pub mod Serving
pub mod Running
pub mod Http
use corerad.Common.{
  ℕ, zero, suc, ◌+◌, ◌≡◌, Bool, true, false, not, ◌&&◌, ◌||◌, String, List, [], ◌∷◌, ◌++◌, Option,
  some, none, Result, ok, err, panic, ◌==◌, nat_eq, string_eq, if◌then◌else◌,
}
use corerad.System.{Error}
use corerad.System.Dialer.{DialError, link_change}
use corerad.Config.Types.{Interface, Config, Debug}
use corerad.Netstate
use corerad.Netstate.{Watcher, Channel}
use corerad.Netstate.Names.{link_down}

-- A task, with whether the first two have a channel of link changes.
pub data Task : Type 0 where
  advertiser : Interface → Bool → Task
  monitor : String → Bool → Bool → Task
  http_task : String → Task
  watcher_task signal_task : Task

-- The loop over the interfaces, with the tasks so far and the watcher, if there is one.
unfoldable pub build_interfaces :
    List Interface → List Task → Option Watcher → List Task × Option Watcher
build_interfaces [] tasks w = (tasks, w)
build_interfaces (ifi ∷ ifis) tasks w =
    if not ifi.advertise && not ifi.monitor
    then build_interfaces ifis tasks w
    else (let has_channel : Bool = elim w [ none ↦ false | some _ ↦ true ] in
        let subscribed : Option Watcher = elim w [
          | none ↦ none
          | some watcher ↦ some (Netstate.subscribe ifi.name link_down watcher)
        ] in
        let task =
          if ifi.advertise
          then advertiser ifi has_channel
          else monitor ifi.name ifi.verbose has_channel in
        build_interfaces ifis (tasks ++ (task ∷ [])) subscribed)

-- BuildTasks.
unfoldable pub build_tasks : Config → Option Watcher → List Task × Option Watcher
build_tasks cfg w =
    let (tasks, subscribed) = build_interfaces cfg.interfaces [] w in
    let with_http =
      if cfg.debug.address == "" then tasks else tasks ++ (http_task cfg.debug.address ∷ []) in
    (elim subscribed [ none ↦ with_http | some _ ↦ with_http ++ (watcher_task ∷ []) ], subscribed)

-- linkStateWatcher, when its select can go on: whether it is the context that is done; `none` while it
-- waits, and else the error that it returns, if any.
unfoldable pub link_state_watcher : Option Channel → Bool → Option (Option DialError)
link_state_watcher none is_done = some none
link_state_watcher (some ch) true = some none
link_state_watcher (some ch) false = elim ch.buffer [
  | change ∷ rest ↦ some (some link_change)
  | [] ↦ if ch.closed then some none else none
]

-- What the function of an attempt to serve returns.
pub data Served : Type 0 where
  server_closed no_error : Served
  net_error : Error → Served
  other_error : Error → Served

pub data ServeError : Type 0 where
  serve_failed : Error → ServeError
  timed_out : ServeError

abbrev pub attempts : ℕ
attempts = 40

-- For attempt `i`: whether the context is cancelled before it and in the wait, and what it returns.
module _ (is_canceled : ℕ → Bool) (is_canceled_waiting : ℕ → Bool) (fn : ℕ → Served) where
  -- Nothing is waited for before the first attempt.
  abbrev pub is_halted : ℕ → Bool
  is_halted i = is_canceled i || (not (i == 0) && is_canceled_waiting i)

  -- The loop of serve from attempt `i` on: the result, and the number of calls of the function.
  unfoldable pub serve_from : ℕ → ℕ → Result ServeError (Unit {0}) × ℕ
  serve_from i zero = (err timed_out, i)
  serve_from i (suc left) =
      let again = serve_from (suc i) left in
      if is_halted i then (ok tt, i) else elim (fn i) [
        | server_closed ↦ (ok tt, suc i)
        | net_error e ↦ again
        | no_error ↦ (panic, suc i)
        | other_error e ↦ (err (serve_failed e), suc i)
      ]

  unfoldable pub serve : Result ServeError (Unit {0}) × ℕ
  serve = serve_from 0 attempts

-- watcherTask.Run, on the error of Watch, if any, and whether it is os.ErrNotExist.
unfoldable pub run_watcher : Option (Error × Bool) → Option Error
run_watcher none = none
run_watcher (some (e, is_not_exist)) =
    if is_not_exist then none else some "failed to watch for interface state changes"

pub data Signal : Type 0 where
  interrupt sigterm sighup : Signal
  other_signal : ℕ → Signal

-- Signals and isTerminal, on systems other than Windows.
abbrev pub signals : List Signal
signals = interrupt ∷ sigterm ∷ sighup ∷ []

unfoldable pub is_terminal : Signal → Bool
is_terminal sighup = false
is_terminal _ = true

-- The terminator's flag, and whether the context of the tasks is cancelled.
pub record Control : Type 0 where
  pub term : Bool
  pub canceled : Bool

-- signalTask.Run: `none` where the context is done first.
unfoldable pub run_signal : Option Signal → Control → Control
run_signal none c = c
run_signal (some sig) c = record c { term = is_terminal sig; canceled = true }

unfoldable pub terminate : Control → Bool
terminate c = c.term
