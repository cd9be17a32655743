-- ===== src/Listener/Listen.antt =====
-- The loop of Listen and what it waits for when it ends (internal/corerad/listener.go).
use corerad.Common.{
  ◌≡◌, refl, Bool, true, false, ◌||◌, List, [], ◌∷◌, Option, some, none, if◌then◌else◌, any, All,
  arith,
}
use corerad.Netip.Addr
use corerad.Netip.Addr.{Addr}
use corerad.System.{Error}
use corerad.Advertiser.Messages.{Message}
use corerad.Listener.{Outcome, received, cancelled, failed, exhausted}

-- The deferred calls, and the goroutine that waits for the context and then sets the read deadline.
pub data Deferred : Type 0 where
  cancel wait : Deferred

-- Whether the deferred calls return, which run from the last to the first, where the context that was
-- passed in is cancelled in time or not, and the one of Listen itself is cancelled already or not.
unfoldable pub unwinds : Bool → Bool → List Deferred → Bool
unwinds outer inner [] = true
unwinds outer inner (cancel ∷ rest) = unwinds outer true rest
unwinds outer inner (wait ∷ rest) =
    let after = unwinds outer inner rest in if outer || inner then after else false

-- In the order in which they run: `defer cancel()` comes before the deferred eg.Wait.
abbrev pub deferred : List Deferred
deferred = wait ∷ cancel ∷ []

-- One turn: what receiveRetry returns, whether the context is cancelled by then, the error of
-- SetReadDeadline, if any, and the error of the caller's function, if it is called.
pub record Turn : Type 0 where
  pub outcome : Outcome
  pub is_done : Bool
  pub interrupt : Option Error
  pub on_message : Message → Addr → Option Error

pub data Listened : Type 0 where
  -- Still in the loop, or in a deferred call for ever.
  reading waiting : Listened
  returned : Option Error → Listened

-- A return, which runs the deferred calls first.
unfoldable pub leave : Bool → Option Error → Listened
leave outer e = if unwinds outer false deferred then returned e else waiting

-- An error of receiveRetry.
unfoldable pub end_read : Bool → Turn → Listened
end_read outer t =
    if t.is_done then leave true t.interrupt else leave outer (some "failed to read NDP messages")

-- The loop, where the context is cancelled after the turns or not.
unfoldable pub listen : Bool → List Turn → Listened
listen outer [] = reading
listen outer (t ∷ ts) =
    let later = listen outer ts in
    elim t.outcome [
      | received m host ↦ elim (t.on_message m (Addr.without_zone host)) [
        | some e ↦ leave outer (some e)
        | none ↦ later
      ]
      | cancelled ↦ end_read outer t
      | failed e ↦ end_read outer t
      | exhausted ↦ end_read outer t
    ]

-- The turn ends the loop.
abbrev pub is_last : Turn → Bool
is_last t = elim t.outcome [
  | received m host ↦ elim (t.on_message m (Addr.without_zone host)) [
    | some e ↦ true
    | none ↦ false
  ]
  | cancelled ↦ true
  | failed e ↦ true
  | exhausted ↦ true
]

turn_waits :
    (t : Turn) (ts : List Turn)
    → t.is_done ≡ false
    → listen false (t ∷ ts) ≡ (if is_last t then waiting else listen false ts)
unfolding listen end_read leave unwinds
turn_waits t ts h = ground arith

-- While the context that is passed to Listen is not cancelled, Listen does not return: once a read
-- fails or the caller's function returns an error it waits for ever, and else it reads on.
pub listen_waits :
    (ts : List Turn)
    → All (λ t. t.is_done ≡ false) ts
    → listen false ts ≡ (if any is_last ts then waiting else reading)
unfolding listen any
listen_waits [] h = refl
listen_waits (t ∷ ts) h = ground (arith, turn_waits t ts h.0, listen_waits ts h.1)
