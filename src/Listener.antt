-- ===== src/Listener.antt =====
-- The listener's retries (receiveRetry in internal/corerad/listener.go).
pub mod Listen
use corerad.Common.{
  ℕ, zero, suc, ◌∙◌, ◌+◌, ◌<◌, ◌≤◌, ◌≡◌, ◌↔◌, ◌⊎◌, inl, inr, refl, subst, sym, Bool, true, false,
  not, ◌&&◌, ◌==◌, nat_eq, if◌then◌else◌, arith, Bool-cases,
}
use corerad.Netip.Addr.{Addr}
use corerad.System.{Error}
use corerad.Advertiser.Messages.{Message}

-- What ReadFrom returns: a message with the hop limit of its packet and its sender, or an error, and
-- whether it is a timeout.
pub data Read : Type 0 where
  message : ℕ → Message → Addr → Read
  failure : Bool → Error → Read

-- One turn of the loop: whether the context is cancelled when the turn starts, when an error was
-- returned, and while the turn waits, and what is read.
pub record Attempt : Type 0 where
  pub cancelled_first : Bool
  pub read : Read
  pub cancelled_after : Bool
  pub cancelled_waiting : Bool

pub data Outcome : Type 0 where
  received : Message → Addr → Outcome
  cancelled : Outcome
  failed : Error → Outcome
  -- errRetriesExhausted.
  exhausted : Outcome

abbrev pub retries : ℕ
retries = 5

-- A turn after which the loop goes on: a timeout, or a message with another hop limit.
pub goes_on : ℕ → Attempt → Bool
goes_on hop_limit a = not a.cancelled_first && elim a.read [
  | failure timeout e ↦ not a.cancelled_after && (timeout && not a.cancelled_waiting)
  | message hop m host ↦ not (hop == hop_limit)
]

le_cases : (i k : ℕ) → i ≤ k → (i ≡ k) ⊎ (suc i ≤ k)
le_cases i k h = ground arith

true-false : Path Bool true false → ⊥
true-false h = cc

module _ (hop_limit : ℕ) (attempts : ℕ → Attempt) where
  -- The turns from number `i` on; the second argument counts the turns that are left.
  unfoldable pub receive_from : ℕ → ℕ → Outcome
  receive_from i zero = exhausted
  receive_from i (suc n) =
      let again = receive_from (suc i) n in
      let a = attempts i in
      if a.cancelled_first then cancelled else elim a.read [
        | failure timeout e ↦
            if a.cancelled_after
            then cancelled
            else if timeout
            then if a.cancelled_waiting then cancelled else again
            else failed e
        | message hop m host ↦ if not (hop == hop_limit) then again else received m host
      ]

  unfoldable pub receive_retry : Outcome
  unfolding receive_from
  receive_retry = receive_from 0 retries

  turn_again :
      (i n : ℕ)
      → goes_on hop_limit (attempts i) ≡ true
      → receive_from i (suc n) ≡ receive_from (suc i) n
  unfolding receive_from goes_on
  turn_again i n h = ground arith

  turn_ends :
      (i n : ℕ)
      → goes_on hop_limit (attempts i) ≡ false
      → (receive_from i (suc n) ≡ receive_from i 1) × ((receive_from i 1 ≡ exhausted) → ⊥)
  unfolding receive_from goes_on
  turn_ends i n h = ground arith

  nothing_left : (i : ℕ) → receive_from i 0 ≡ exhausted
  unfolding receive_from
  nothing_left i = refl

  -- The first turn that ends the loop, if there is one, decides the outcome.
  outcome_from :
      (i n : ℕ)
      → (((k : ℕ) → i ≤ k → k < i + n → goes_on hop_limit (attempts k) ≡ true)
          × (receive_from i n ≡ exhausted))
        ⊎ ((k : ℕ) × (i ≤ k)
            × (k < i + n)
            × (goes_on hop_limit (attempts k) ≡ false)
            × ((j : ℕ) → i ≤ j → j < k → goes_on hop_limit (attempts j) ≡ true)
            × (receive_from i n ≡ receive_from k 1)
            × ((receive_from k 1 ≡ exhausted) → ⊥))
  outcome_from i zero = inl (λ k a b. absurd (omega arith), nothing_left i)
  outcome_from i (suc n) = elim (Bool-cases (goes_on hop_limit (attempts i))) [
    | inl e ↦ elim (outcome_from (suc i) n) [
      | inl (all, ex) ↦ inl (
        λ k a b. elim (le_cases i k a) [
          | inl p ↦ subst (λ x. goes_on hop_limit (attempts x) ≡ true) p e
          | inr q ↦ all k q (omega arith)
        ],
        turn_again i n e ∙ ex,
      )
      | inr (k, a, b, g, before, o, ne) ↦ inr (
        k,
        omega arith,
        omega arith,
        g,
        λ j c d. elim (le_cases i j c) [
          | inl p ↦ subst (λ x. goes_on hop_limit (attempts x) ≡ true) p e
          | inr q ↦ before j q d
        ],
        turn_again i n e ∙ o,
        ne,
      )
    ]
    | inr e ↦ inr (
      i,
      omega arith,
      omega arith,
      e,
      λ j a b. absurd (omega arith),
      (turn_ends i n e).0,
      (turn_ends i n e).1,
    )
  ]

  -- The listener gives up just where each of its five turns goes on.
  pub receive_retry_exhausted :
      (receive_retry ≡ exhausted) ↔ ((k : ℕ) → k < retries → goes_on hop_limit (attempts k) ≡ true)
  unfolding receive_retry
  receive_retry_exhausted = elim (outcome_from 0 retries) [
    | inl (all, ex) ↦ (λ h k b. all k (omega arith) b, λ h. ex)
    | inr (k, a, b, g, before, o, ne) ↦
        (λ h. absurd (ne (sym o ∙ h)), λ h. absurd (true-false (sym (h k b) ∙ g)))
  ]

  turn_receives :
      (k : ℕ) (m : Message) (host : Addr)
      → receive_from k 1 ≡ received m host
      → ((attempts k).read ≡ message hop_limit m host) × ((attempts k).cancelled_first ≡ false)
  unfolding receive_from
  turn_receives k m host h = ground arith

  -- A message is received only from one of the five turns: the turns before it go on, the context
  -- was not cancelled, and the packet has the hop limit that every NDP message must have.
  pub receive_retry_received :
      {m : Message} {host : Addr}
      → receive_retry ≡ received m host
      → (k : ℕ) × (k < retries)
        × ((j : ℕ) → j < k → goes_on hop_limit (attempts j) ≡ true)
        × ((attempts k).read ≡ message hop_limit m host)
        × ((attempts k).cancelled_first ≡ false)
  unfolding receive_retry
  receive_retry_received {m} {host} h = elim (outcome_from 0 retries) [
    | inl (all, ex) ↦ cc
    | inr (k, a, b, g, before, o, ne) ↦
        let (r, c) = turn_receives k m host (sym o ∙ h) in
        (k, b, λ j d. before j (omega arith) d, r, c)
  ]
