-- ===== src/Server/Links.antt =====
-- What becomes of a link that goes down: from the messages of the system to the tasks of BuildTasks.
use corerad.Common.{
  ◌≡◌, Bool, false, ◌||◌, String, List, [], ◌∷◌, filter, any, some, none, ◌==◌, nat_eq, string_eq,
  if◌then◌else◌,
}
use corerad.System.Dialer.{link_change}
use corerad.Config.Types.{Config}
use corerad.Netstate.{Watcher, Channel, Message, link_message, oper_down, new_watcher}
use corerad.Netstate.Names.{Change, link_down}
use corerad.Server.{link_state_watcher}
use corerad.Server.Built.{is_active, subscribed}

-- A channel as Subscribe makes it for a link that goes down.
IsNew : String → Change → Channel → Type 0
IsNew i k ch = (k ≡ link_down) × (ch.buffer ≡ [])

-- The message says that the interface is down.
abbrev pub is_down : String → Message → Bool
is_down i (link_message (some (iface, oper_down))) = i == iface
is_down i _ = false

abbrev pub went_down : String → List (List Message) → Bool
went_down i [] = false
went_down i (msgs ∷ batches) = any (is_down i) msgs || went_down i batches

-- What the link state watcher of a task returns for a channel, and the interface of the channel.
abbrev pub IsTold : List (List Message) → String → Change → Channel → Type 0
IsTold batches i k ch =
    link_state_watcher (some ch) false
    ≡ some (if went_down i batches then some link_change else none)

-- The watcher that BuildTasks returns.
abbrev pub built_watcher : Config → Watcher
built_watcher cfg = subscribed (filter is_active cfg.interfaces) new_watcher
