-- ===== src/Advertiser/Running.antt =====
-- Advertiser.Run (internal/corerad/advertise.go): the use of a connection in every round of
-- Dialer.Dial.
use corerad.Common.{
  ℕ, suc, ◌≤◌, ◌<◌, ◌≡◌, refl, Bool, false, true, List, [], ◌++◌, Option, some, none, Result, ok,
  err, arith, ok_inj, ap, sym,
}
use corerad.Netip.Addr.{all_nodes}
use corerad.System.{Error}
use corerad.System.Dialer.{DialError, Outcome, done, other, reinitialize, is_recoverable}
use corerad.System.Dialer.Rounds.{Rounds, is_cancellation, dial, runs, dial_ends, dial_fails}
use corerad.Advertiser.Messages.{Advertiser, Environment, AdvertiserError, send, shutdown}
use corerad.Advertiser.Goroutines.{Written}
use corerad.Advertiser.Session.{Session, Ending, session, finish, canceled, ended}

-- What the function that Run passes to Dial meets in one round.
pub record Round : Type 0 where
  pub prepared : Option Error
  pub first : Environment
  pub final : Environment
  pub during : List Written
  pub ending : Ending

unfoldable pub use_connection : Advertiser → Round → Result Error Session
use_connection a r = session a r.prepared r.first r.final r.during r.ending

-- Run, at most as many rounds as the last argument, where the function does in round `r` what its
-- session says.
module _ {C : Type 0} (dial_func : ℕ → ℕ → Outcome C) (is_canceled : ℕ → ℕ → Bool)
    (release : ℕ → C → Option (Option Error)) (sessions : ℕ → Session) where
  unfoldable pub run : ℕ → Rounds C
  run n = dial dial_func is_canceled (λ r c. (sessions r).result) release n

module _ (a : Advertiser) (plan : ℕ → Round) (sessions : ℕ → Session)
    (used : (r : ℕ) → use_connection a (plan r) ≡ ok (sessions r)) where
  -- A round that is prepared, sends its first advertisement and ends with an error.
  session-ended :
      (r : ℕ) {ws : List Written} {e : DialError}
      → (plan r).prepared ≡ none
      → send (plan r).first all_nodes a.cfg ≡ ok ws
      → (plan r).ending ≡ ended e
      → sessions r ≡ record { result = some e; written = (plan r).during ++ ws }
  unfolding use_connection session
  session-ended r p w q = sym (ok_inj (rw (p, w, q, use_connection, session) at (used r)))

  session-canceled :
      (r : ℕ) {ws final : List Written}
      → (plan r).prepared ≡ none
      → send (plan r).first all_nodes a.cfg ≡ ok ws
      → (plan r).ending ≡ canceled
      → shutdown (plan r).final a ≡ ok final
      → sessions r ≡ record { result = none; written = final ++ ((plan r).during ++ ws) }
  unfolding use_connection session finish
  session-canceled r p w q s =
      sym (ok_inj (rw (p, w, q, s, use_connection, session, finish) at (used r)))

  session_unsent :
      (r : ℕ) {e : AdvertiserError}
      → (plan r).prepared ≡ none
      → send (plan r).first all_nodes a.cfg ≡ err e
      → sessions r ≡ record {
        result = some (other "failed to send initial multicast router advertisement");
        written = [];
      }
  unfolding use_connection session
  session_unsent r p w = sym (ok_inj (rw (p, w, use_connection, session) at (used r)))

  module _ {C : Type 0} (dial_func : ℕ → ℕ → Outcome C) (is_canceled : ℕ → ℕ → Bool)
      (release : ℕ → C → Option (Option Error)) (conn : ℕ → C)
      (dials : (r j : ℕ) → dial_func r j ≡ done (conn r))
      (never : (r j : ℕ) → is_canceled r j ≡ false)
      (clean : (r : ℕ) → release r (conn r) ≡ some none) (last : ℕ) (ws : ℕ → List Written)
      (prepares : (r : ℕ) → r ≤ last → (plan r).prepared ≡ none)
      (sends : (r : ℕ) → r < last → send (plan r).first all_nodes a.cfg ≡ ok (ws r))
      (errors : ℕ → DialError)
      (changes : (r : ℕ)
        → r < last
        → ((plan r).ending ≡ ended (errors r)) × (is_recoverable (errors r) ≡ true)) where
    earlier :
        (r : ℕ)
        → r < last
        → (g : DialError) × ((sessions r).result ≡ some g) × (is_recoverable g ≡ true)
    earlier r lt = (
      errors r,
      ap (λ s. s.result) (session-ended r (prepares r (omega arith)) (sends r lt) (changes r lt).0),
      (changes r lt).1,
    )

    -- Every dial and release succeeds, and in every round the plugins prepare. In the rounds before
    -- number `last` the first advertisement is sent and advertise ends with a recoverable error, such as a
    -- link change; in that round it is sent, the context is cancelled and shutdown sends or skips
    -- the final advertisement. Then Run returns nil after exactly these rounds. Each round starts
    -- with a first advertisement, and only the last one ends with what shutdown sends.
    pub run_survives :
        {first final : List Written}
        → send (plan last).first all_nodes a.cfg ≡ ok first
        → (plan last).ending ≡ canceled
        → shutdown (plan last).final a ≡ ok final
        → (n : ℕ) → last < n
        → (run dial_func is_canceled release sessions n
            ≡ record { trace = runs conn (λ r c. (sessions r).result) 0 last; ending = some none })
          × ((r : ℕ) → r < last → (sessions r).written ≡ (plan r).during ++ ws r)
          × ((sessions last).written ≡ final ++ ((plan last).during ++ first))
    unfolding run
    run_survives w q s n lt =
        let ends = session-canceled last (prepares last (omega arith)) w q s in
        (
          dial_ends dial_func is_canceled (λ r c. (sessions r).result) release conn dials never
              clean last (ap (λ x. x.result) ends) earlier n lt,
          λ r h.
              ap (λ x. x.written)
                (session-ended r (prepares r (omega arith)) (sends r h) (changes r h).0),
          ap (λ x. x.written) ends,
        )

    -- Under the same conditions on the earlier rounds, Run stops in the round whose first advertisement
    -- cannot be sent, whatever the error is: it writes nothing in that round, dials no more and returns
    -- an error.
    pub run_stops :
        {e : AdvertiserError}
        → send (plan last).first all_nodes a.cfg ≡ err e
        → (n : ℕ) → suc last < n
        → (run dial_func is_canceled release sessions n ≡ record {
          trace = runs conn (λ r c. (sessions r).result) 0 last;
          ending =
              some (
                some
                  (reinitialize (other "failed to send initial multicast router advertisement")));
        })
          × ((sessions last).written ≡ [])
    unfolding run is_recoverable is_cancellation
    run_stops w n lt =
        let ends = session_unsent last (prepares last (omega arith)) w in
        (
          dial_fails dial_func is_canceled (λ r c. (sessions r).result) release conn dials never
              clean last (other "failed to send initial multicast router advertisement")
              (ap (λ x. x.result) ends) refl earlier n lt,
          ap (λ x. x.written) ends,
        )
