-- ===== src/Server/Built.antt =====
-- Which tasks BuildTasks makes.
use corerad.Common.{
  ◌≡◌, refl, sym, ap, Bool, true, false, not, ◌&&◌, ◌||◌, String, List, [], ◌∷◌, ◌++◌, map, filter,
  some, none, ◌==◌, string_eq, if◌then◌else◌, arith, Bool-cases, inl, inr,
}
use mathlib.Core.List.{append-nil, append_assoc}
use corerad.Config.Types.{Interface, Config}
use corerad.Netstate
use corerad.Netstate.{Watcher}
use corerad.Netstate.Names.{link_down}
use corerad.Server.{
  Task, advertiser, monitor, http_task, watcher_task, build_interfaces, build_tasks,
}

abbrev pub is_active : Interface → Bool
is_active ifi = ifi.advertise || ifi.monitor

abbrev pub task_of : Bool → Interface → Task
task_of has_channel ifi =
    if ifi.advertise then advertiser ifi has_channel else monitor ifi.name ifi.verbose has_channel

-- A subscription to link down for each interface of a list.
abbrev pub subscribed : List Interface → Watcher → Watcher
subscribed [] w = w
subscribed (ifi ∷ ifis) w = subscribed ifis (Netstate.subscribe ifi.name link_down w)

active_lem : (a m : Bool) → (not a && not m) ≡ not (a || m)
active_lem a m = ground arith

build_watched :
    (ifis : List Interface) (tasks : List Task) (w : Watcher)
    → build_interfaces ifis tasks (some w) ≡ (
      tasks ++ map (task_of true) (filter is_active ifis),
      some (subscribed (filter is_active ifis) w),
    )
unfolding build_interfaces filter
build_watched [] tasks w = ap (λ ts. (ts, some w)) (sym (append-nil tasks))
build_watched (ifi ∷ ifis) tasks w = elim (Bool-cases (is_active ifi)) [
  | inl e ↦
      let next =
        build_watched ifis (tasks ++ (task_of true ifi ∷ []))
          (Netstate.subscribe ifi.name link_down w) in
      rw (active_lem ifi.advertise ifi.monitor, e, next)
        (ap
          (λ ts. (
            ts,
            some (subscribed (filter is_active ifis) (Netstate.subscribe ifi.name link_down w)),
          ))
          (append_assoc tasks (task_of true ifi ∷ []) _))
  | inr e ↦ rw (active_lem ifi.advertise ifi.monitor, e) (build_watched ifis tasks w)
]

build_unwatched :
    (ifis : List Interface) (tasks : List Task)
    → build_interfaces ifis tasks none
      ≡ (tasks ++ map (task_of false) (filter is_active ifis), none)
unfolding build_interfaces filter
build_unwatched [] tasks = ap (λ ts. (ts, none)) (sym (append-nil tasks))
build_unwatched (ifi ∷ ifis) tasks = elim (Bool-cases (is_active ifi)) [
  | inl e ↦
      let next = build_unwatched ifis (tasks ++ (task_of false ifi ∷ [])) in
      rw (active_lem ifi.advertise ifi.monitor, e, next)
        (ap (λ ts. (ts, none)) (append_assoc tasks (task_of false ifi ∷ []) _))
  | inr e ↦ rw (active_lem ifi.advertise ifi.monitor, e) (build_unwatched ifis tasks)
]

-- The HTTP server, where an address is configured.
abbrev pub http_tasks : Config → List Task
http_tasks cfg = if cfg.debug.address == "" then [] else http_task cfg.debug.address ∷ []

with_http :
    (address : String) (ts : List Task)
    → (if address == "" then ts else ts ++ (http_task address ∷ []))
      ≡ ts ++ (if address == "" then [] else http_task address ∷ [])
with_http address ts = elim (Bool-cases (address == "")) [
  | inl e ↦ rw e (sym (append-nil ts))
  | inr e ↦ rw e refl
]

-- BuildTasks makes one task for each interface that advertises or monitors, in order, which advertises
-- if the interface does, then the HTTP server if it has an address, and then, with a watcher, the link
-- state watcher; each of the interfaces has then subscribed to its link going down, and without a
-- watcher no task has a channel of link changes.
pub build_tasks_lem :
    (cfg : Config) (w : Watcher)
    → (build_tasks cfg (some w) ≡ (
      map (task_of true) (filter is_active cfg.interfaces) ++ http_tasks cfg ++ (watcher_task ∷ []),
      some (subscribed (filter is_active cfg.interfaces) w),
    ))
      × (build_tasks cfg none
          ≡ (map (task_of false) (filter is_active cfg.interfaces) ++ http_tasks cfg, none))
unfolding build_tasks
build_tasks_lem cfg w =
    let watched = build_watched cfg.interfaces [] w in
    let unwatched = build_unwatched cfg.interfaces [] in
    (
      rw
          (
            watched,
            ap (λ p. p.0) watched,
            with_http cfg.debug.address (map (task_of true) (filter is_active cfg.interfaces)),
          )
          refl,
      rw
          (
            unwatched,
            ap (λ p. p.0) unwatched,
            with_http cfg.debug.address (map (task_of false) (filter is_active cfg.interfaces)),
          )
          refl,
    )
