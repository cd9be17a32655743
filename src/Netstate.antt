-- ===== src/Netstate.antt =====
-- internal/netstate: the link state watcher (watcher.go, watcher_linux.go). A Go map is a list of its
-- entries in the order in which a loop visits them, with one entry for a key.
pub mod Names
pub mod Delivery
pub mod Gathering
pub mod Watch
pub mod Channels
use Prim.Native.Nat.{bit_and}
use corerad.Common.{
  ℕ, Bool, true, false, not, String, List, [], ◌∷◌, ◌++◌, map, Option, some, none, Result, ok, err,
  panic, ◌==◌, nat_eq, string_eq, if◌then◌else◌, ltb, length,
}
use corerad.System.{Error}
use corerad.Netstate.Names.{
  Change, link_up, link_down, link_testing, link_unknown, link_dormant, link_not_present,
  link_lower_layer_down,
}

-- A buffered channel, which holds up to eight changes.
pub record Channel : Type 0 where
  pub buffer : List Change
  pub closed : Bool

abbrev pub capacity : ℕ
capacity = 8

abbrev pub Interest : Type 0
Interest = List (Change × List Channel)

abbrev pub ChangeMap : Type 0
ChangeMap = List (String × Interest)

abbrev pub ChangeSet : Type 0
ChangeSet = List (String × List Change)

pub record Watcher : Type 0 where
  pub watching : Bool
  pub m : ChangeMap

abbrev pub new_watcher : Watcher
new_watcher = record { watching = false; m = [] }

new_channel : Channel
new_channel = record { buffer = []; closed = false }

-- w.m[iface][changes] = append(w.m[iface][changes], changeC), where a missing key is an empty value.
unfoldable pub add_channel : Change → Channel → Interest → Interest
add_channel k ch [] = (k, ch ∷ []) ∷ []
add_channel k ch ((k', v) ∷ rest) =
    if k == k' then (k', v ++ (ch ∷ [])) ∷ rest else (k', v) ∷ add_channel k ch rest

unfoldable pub register : String → Change → Channel → ChangeMap → ChangeMap
register iface k ch [] = (iface, add_channel k ch []) ∷ []
register iface k ch ((i, interest) ∷ rest) =
    if iface == i
    then (i, add_channel k ch interest) ∷ rest
    else (i, interest) ∷ register iface k ch rest

-- Subscribe.
unfoldable pub subscribe : String → Change → Watcher → Watcher
unfolding new_channel
subscribe iface k w = record w { m = register iface k new_channel w.m }

-- The select that sends a change or, where the buffer is full, drops it.
unfoldable pub send : Change → Channel → Channel
send change ch =
    if ltb (length ch.buffer) capacity
    then record ch { buffer = ch.buffer ++ (change ∷ []) }
    else ch

-- The loop over the interest in one interface, for one change.
unfoldable pub notify_change : Change → Interest → Interest
notify_change change [] = []
notify_change change ((k, v) ∷ rest) =
    (k, if bit_and k change == 0 then v else map (send change) v) ∷ notify_change change rest

unfoldable pub notify_changes : List Change → Interest → Interest
notify_changes [] interest = interest
notify_changes (change ∷ changes) interest = notify_changes changes (notify_change change interest)

-- The interest in one interface, if there is any, is the one entry with its name.
unfoldable pub notify_iface : String → List Change → ChangeMap → ChangeMap
notify_iface iface changes [] = []
notify_iface iface changes ((i, interest) ∷ rest) =
    (i, if i == iface then notify_changes changes interest else interest)
    ∷ notify_iface iface changes rest

unfoldable pub notify : ChangeSet → ChangeMap → ChangeMap
notify [] m = m
notify ((iface, changes) ∷ changed) m = notify changed (notify_iface iface changes m)

-- rtnetlink.OperationalState, and the messages of a read: a link message has attributes, with a name
-- and a state, or not.
pub data OperationalState : Type 0 where
  oper_unknown oper_not_present oper_down oper_lower_layer_down oper_testing oper_dormant oper_up :
      OperationalState
  oper_unrecognized : ℕ → OperationalState

pub data Message : Type 0 where
  link_message : Option (String × OperationalState) → Message
  other_message : Message

unfoldable pub oper_state_change : OperationalState → Option Change
oper_state_change oper_unknown = some link_unknown
oper_state_change oper_not_present = some link_not_present
oper_state_change oper_down = some link_down
oper_state_change oper_lower_layer_down = some link_lower_layer_down
oper_state_change oper_testing = some link_testing
oper_state_change oper_dormant = some link_dormant
oper_state_change oper_up = some link_up
oper_state_change (oper_unrecognized n) = none

-- changes[iface] = append(changes[iface], c).
unfoldable pub append_change : String → Change → ChangeSet → ChangeSet
append_change iface c [] = (iface, c ∷ []) ∷ []
append_change iface c ((i, cs) ∷ rest) =
    if i == iface then (i, cs ++ (c ∷ [])) ∷ rest else (i, cs) ∷ append_change iface c rest

unfoldable pub process_one : Message → ChangeSet → ChangeSet
process_one (link_message (some (iface, state))) changes = elim (oper_state_change state) [
  | none ↦ changes
  | some c ↦ append_change iface c changes
]
process_one _ changes = changes

unfoldable pub process_from : List Message → ChangeSet → ChangeSet
process_from [] changes = changes
process_from (m ∷ ms) changes = process_from ms (process_one m changes)

unfoldable pub process : List Message → ChangeSet
unfolding process_from
process msgs = process_from msgs []

-- How the loop of osWatch ends: it cannot dial, or a read fails, after the context is cancelled, with the
-- error of SetReadDeadline if there is one, or not.
pub data Ending : Type 0 where
  no_dial : Error → Ending
  interrupted : Option Error → Ending
  failed_read : Error → Ending

-- osWatch on Linux: the batches of messages that are read, and how the loop ends.
unfoldable pub run_watch : List (List Message) → ChangeMap → ChangeMap
run_watch [] m = m
run_watch (msgs ∷ batches) m = run_watch batches (notify (process msgs) m)

unfoldable pub os_watch :
    Ending → List (List Message) → ChangeMap → Result Error (Unit {0}) × ChangeMap
os_watch (no_dial e) batches m = (err "netstate: watcher failed to dial route netlink", m)
os_watch (interrupted none) batches m = (ok tt, run_watch batches m)
os_watch (interrupted (some e)) batches m =
    (err "netstate: failed to interrupt watcher", run_watch batches m)
os_watch (failed_read e) batches m =
    (err "netstate: watcher failed to listen for route netlink messages", run_watch batches m)

unfoldable pub close : Channel → Channel
close ch = record ch { closed = true }

-- The loops of the deferred function.
unfoldable pub close_interest : Interest → Interest
unfolding close
close_interest [] = []
close_interest ((k, v) ∷ rest) = (k, map close v) ∷ close_interest rest

unfoldable pub close_all : ChangeMap → ChangeMap
close_all [] = []
close_all ((i, interest) ∷ rest) = (i, close_interest interest) ∷ close_all rest

-- Watch; a second call panics.
unfoldable pub watch : Ending → List (List Message) → Watcher → Result Error (Unit {0}) × Watcher
watch ending batches w =
    if w.watching
    then (panic, w)
    else (let (result, m) = os_watch ending batches w.m in
        (result, record { watching = true; m = close_all m }))
