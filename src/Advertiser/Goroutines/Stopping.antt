-- ===== src/Advertiser/Goroutines/Stopping.antt =====
-- How the goroutines of advertise end once their context is cancelled (internal/corerad/advertise.go).
use corerad.Common.{
  ℕ, zero, suc, ◌+◌, ◌≤◌, ◌<◌, ◌≡◌, ◌↔◌, ◌⊎◌, inl, inr, refl, sym, subst, Bool, true, false,
  Bool-cases, arith,
}
use corerad.Advertiser.Goroutines.{capacity}

-- A goroutine that sends to ipC: it waits for its timer or for a message, it sends, or it has returned.
pub data Sender : Type 0 where
  idle sending ended : Sender

-- In unicast-only mode multicast is not started, which is as if it had returned.
pub record Stopping : Type 0 where
  pub multicast : Sender
  pub listener : Sender
  pub is_scheduling : Bool
  -- The number of addresses in ipC.
  pub queued : ℕ

abbrev pub at : Sender → Sender → Bool → ℕ → Stopping
at m l b q = record { multicast = m; listener = l; is_scheduling = b; queued = q }

-- While the context is done: multicast returns before it sends again, the listener may still handle a
-- message, schedule may take an address or return, and no send to ipC gives up.
pub data Step : Stopping → Stopping → Type 0 where
  multicast_ends : {l : Sender} {b : Bool} {q : ℕ} → Step (at idle l b q) (at ended l b q)
  multicast_sends :
      {l : Sender} {b : Bool} {q : ℕ} → q < capacity → Step (at sending l b q) (at idle l b (suc q))
  listener_ends : {m : Sender} {b : Bool} {q : ℕ} → Step (at m idle b q) (at m ended b q)
  listener_hears : {m : Sender} {b : Bool} {q : ℕ} → Step (at m idle b q) (at m sending b q)
  listener_sends :
      {m : Sender} {b : Bool} {q : ℕ} → q < capacity → Step (at m sending b q) (at m idle b (suc q))
  schedule_takes : {m l : Sender} {q : ℕ} → Step (at m l true (suc q)) (at m l true q)
  schedule_ends : {m l : Sender} {q : ℕ} → Step (at m l true q) (at m l false q)

pub data Reach : Stopping → Stopping → Type 0 where
  here : {s : Stopping} → Reach s s
  then : {s t u : Stopping} → Step s t → Reach t u → Reach s u

-- All have returned, so that Wait does.
abbrev pub IsEnded : Stopping → Type 0
IsEnded s = (s.multicast ≡ ended) × (s.listener ≡ ended) × (s.is_scheduling ≡ false)

abbrev pub CanEnd : Stopping → Type 0
CanEnd s = (t : Stopping) × Reach s t × IsEnded t

abbrev pub waits : Sender → ℕ
waits sending = 1
waits m = 0

-- The sends that have begun.
abbrev pub begun : Stopping → ℕ
begun s = waits s.multicast + waits s.listener

earlier_end : {s t : Stopping} → Step s t → CanEnd t → CanEnd s
earlier_end step (u, r, e) = (u, then step r, e)

all_end : (b : Bool) (q : ℕ) → CanEnd (at ended ended b q)
all_end false q = (_, here, (refl, refl, refl))
all_end true q = earlier_end schedule_ends (_, here, (refl, refl, refl))

listener_done : (l : Sender) (b : Bool) (q : ℕ) → waits l + q ≤ capacity → CanEnd (at ended l b q)
listener_done ended b q h = all_end b q
listener_done idle b q h = earlier_end listener_ends (all_end b q)
listener_done sending b q h =
    earlier_end (listener_sends (omega arith)) (earlier_end listener_ends (all_end b (suc q)))

multicast_done :
    (m l : Sender) (b : Bool) (q : ℕ) → waits m + waits l + q ≤ capacity → CanEnd (at m l b q)
multicast_done ended l b q h = listener_done l b q (omega arith)
multicast_done idle l b q h = earlier_end multicast_ends (listener_done l b q (omega arith))
multicast_done sending l b q h =
    earlier_end (multicast_sends (omega arith))
      (earlier_end multicast_ends (listener_done l b (suc q) (omega arith)))

waits_le : (m : Sender) → waits m ≤ 1
waits_le idle = omega arith
waits_le sending = omega arith
waits_le ended = omega arith

schedule_done : (m l : Sender) (q : ℕ) → CanEnd (at m l true q)
schedule_done m l zero = multicast_done m l true 0 (omega (arith, waits_le m, waits_le l))
schedule_done m l (suc q) = earlier_end schedule_takes (schedule_done m l q)

-- Nobody takes from ipC any more, and it has no room for all sends that have begun.
abbrev IsJammed : Stopping → Type 0
IsJammed s = (s.is_scheduling ≡ false) × (s.queued ≤ capacity) × (capacity < begun s + s.queued)

Step-IsJammed : {s t : Stopping} → Step s t → IsJammed s → IsJammed t
Step-IsJammed multicast_ends (b, q, h) = (b, q, omega (arith, h))
Step-IsJammed (multicast_sends lt) (b, q, h) = (b, omega arith, omega (arith, h))
Step-IsJammed listener_ends (b, q, h) = (b, q, omega (arith, h))
Step-IsJammed listener_hears (b, q, h) = (b, q, omega (arith, h))
Step-IsJammed (listener_sends lt) (b, q, h) = (b, omega arith, omega (arith, h))
Step-IsJammed schedule_takes (b, q, h) = cc
Step-IsJammed schedule_ends (b, q, h) = cc

Reach-IsJammed : {s t : Stopping} → Reach s t → IsJammed s → IsJammed t
Reach-IsJammed here j = j
Reach-IsJammed (then step r) j = Reach-IsJammed r (Step-IsJammed step j)

IsJammed-stuck : (s : Stopping) → IsJammed s → IsEnded s → ⊥
IsJammed-stuck s (b, q, h) (m, l, _) = ground (arith, h, q)

le_or_lt : (a b : ℕ) → (a ≤ b) ⊎ (b < a)
le_or_lt a b = ground arith

-- Once the context is cancelled, the goroutines that use ipC can all return, which advertise waits for,
-- just where schedule has not returned yet or the channel has room for all sends that have begun: in
-- the other states they never do, whatever they go on with.
pub can_end_lem :
    (s : Stopping)
    → s.queued ≤ capacity
    → CanEnd s ↔ ((s.is_scheduling ≡ true) ⊎ (begun s + s.queued ≤ capacity))
can_end_lem s q = (
  λ (t, r, e). elim (Bool-cases s.is_scheduling) [
    | inl b ↦ inl b
    | inr b ↦ elim (le_or_lt (begun s + s.queued) capacity) [
      | inl le ↦ inr le
      | inr lt ↦ absurd (IsJammed-stuck t (Reach-IsJammed r (b, q, lt)) e)
    ]
  ],
  λ h. elim h [
    | inl b ↦
        subst (λ x. CanEnd (at s.multicast s.listener x s.queued)) (sym b)
          (schedule_done s.multicast s.listener s.queued)
    | inr le ↦ multicast_done s.multicast s.listener s.is_scheduling s.queued le
  ],
)

-- A full channel and a send that has begun, while schedule is still there: the goroutines can end, and
-- they can also come into a state from which they never do.
pub can_jam :
    (l : Sender)
    → CanEnd (at sending l true capacity)
      × ((t : Stopping) × Reach (at sending l true capacity) t × (CanEnd t → ⊥))
can_jam l = (
  schedule_done sending l capacity,
  (
    at sending l false capacity,
    then schedule_ends here,
    λ (t, r, e).
        IsJammed-stuck t (Reach-IsJammed r (refl, omega arith, omega (arith, waits_le l))) e,
  ),
)
