-- ===== src/Monitor/Running.antt =====
-- Monitor.Run and monitor (internal/corerad/monitor.go): the goroutines of one connection and the
-- rounds of Dialer.Dial.
use corerad.Common.{
  ℕ, ◌<◌, ◌≤◌, ◌≡◌, refl, sym, ◌∙◌, Bool, false, Option, some, none, Result, ok, panic, arith,
  ok_inj, Option-cases, inl, inr, if◌then◌else◌,
}
use corerad.Errgroup.{Group, Order, returns, wait-returns, wait-returns_nil}
use corerad.System.{Error}
use corerad.System.Dialer.{DialError, Outcome, done, canceled, link_change, is_recoverable}
use corerad.System.Dialer.Rounds.{Rounds, is_cancellation, dial, runs, dial_ends}

-- What one connection meets: what Listen and the watcher of the link return, and in which order.
pub record Round : Type 0 where
  pub listener : Option DialError
  pub watcher : Option DialError
  pub order : Order

-- The error of the group's context after Wait is an argument.
module _ (g : Group DialError) (context_err : Option DialError) where
  unfoldable pub monitor : Round → Option DialError
  monitor r = elim (g.wait (returns r.order r.listener r.watcher)) [
    | some e ↦ some e
    | none ↦ context_err
  ]

  -- The function that Run passes to Dial.
  unfoldable pub use_connection : Round → Result Error (Option DialError)
  use_connection r = elim (monitor r) [
    | none ↦ panic
    | some e ↦ ok (if is_cancellation e then none else some e)
  ]

-- Run, at most as many rounds as the last argument, where the function returns in round `r` what the
-- fourth argument says.
unfoldable pub run :
    {C : Type 0}
    → (ℕ → ℕ → Outcome C)
    → (ℕ → ℕ → Bool)
    → (ℕ → C → Option (Option Error))
    → (ℕ → Option DialError)
    → ℕ
    → Rounds C
run dial_func is_canceled release results n =
    dial dial_func is_canceled (λ r c. results r) release n

-- errgroup cancels its context by the time that Wait returns.
module _ (g : Group DialError) (context_err : Option DialError)
    (cancels : context_err ≡ some canceled) where
  use_connection_changed :
      (r : Round)
      → r.listener ≡ none
      → r.watcher ≡ some link_change
      → use_connection g context_err r ≡ ok (some link_change)
  unfolding use_connection monitor is_cancellation
  use_connection_changed r l w =
      rw (l, w, wait-returns g r.order link_change, use_connection, monitor) refl

  use_connection_stopped :
      (r : Round) → r.listener ≡ none → r.watcher ≡ none → use_connection g context_err r ≡ ok none
  unfolding use_connection monitor is_cancellation
  use_connection_stopped r l w =
      rw (l, w, wait-returns_nil g r.order, cancels, use_connection, monitor) refl

  use_connection_returns :
      (r : Round) → (e : Option DialError) × (use_connection g context_err r ≡ ok e)
  unfolding use_connection monitor is_cancellation
  use_connection_returns r = elim (Option-cases (g.wait (returns r.order r.listener r.watcher))) [
    | inl q ↦ (none, rw (q, cancels, use_connection, monitor, is_cancellation) refl)
    | inr (e, q) ↦
        (if is_cancellation e then none else some e, rw (q, use_connection, monitor) refl)
  ]

  module _ {C : Type 0} (rounds : ℕ → Round) (dial_func : ℕ → ℕ → Outcome C)
      (is_canceled : ℕ → ℕ → Bool) (release : ℕ → C → Option (Option Error)) where
    -- Every dial and release succeeds, and no dial is cancelled. The watcher reports a link change in
    -- the rounds before number `last`, and in that one no error, as Listen does in all rounds up to it,
    -- in whichever order the two return. Then the function that Run passes to Dial returns in every
    -- round without a panic, and with what it returns Run returns nil after exactly these rounds.
    pub monitor_survives :
        (conn : ℕ → C)
        → ((r j : ℕ) → dial_func r j ≡ done (conn r))
        → ((r j : ℕ) → is_canceled r j ≡ false)
        → ((r : ℕ) → release r (conn r) ≡ some none)
        → (last n : ℕ) → ((r : ℕ) → r ≤ last → (rounds r).listener ≡ none)
        → ((r : ℕ) → r < last → (rounds r).watcher ≡ some link_change)
        → (rounds last).watcher ≡ none
        → last < n
        → (results : ℕ → Option DialError) × ((r : ℕ)
            → use_connection g context_err (rounds r) ≡ ok (results r))
          × (run dial_func is_canceled release results n
              ≡ record { trace = runs conn (λ r c. results r) 0 last; ending = some none })
    unfolding run is_recoverable
    monitor_survives conn dials never clean last n listens changes stops lt =
        let results : ℕ → Option DialError = λ r. (use_connection_returns (rounds r)).0 in
        let used : (r : ℕ) → use_connection g context_err (rounds r) ≡ ok (results r) =
          λ r. (use_connection_returns (rounds r)).1 in
        (
          results,
          used,
          dial_ends dial_func is_canceled (λ r c. results r) release conn dials never clean last
              (ok_inj (
                sym (used last)
                ∙ use_connection_stopped (rounds last) (listens last (omega arith)) stops))
              (λ j h. (
                link_change,
                ok_inj (
                    sym (used j)
                    ∙ use_connection_changed (rounds j) (listens j (omega arith)) (changes j h)),
                refl,
              ))
              n lt,
        )
