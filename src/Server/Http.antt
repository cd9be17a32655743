-- ===== src/Server/Http.antt =====
-- httpTask.Run (internal/corerad/server.go): the task of the debug HTTP server.
use corerad.Common.{
  ℕ, zero, suc, ◌+◌, ◌≤◌, ◌<◌, ◌≡◌, ◌∙◌, ap, sym, subst, refl, Bool, true, false, ◌||◌, Result, ok,
  err, panic, arith, Bool-cases, inl, inr, if◌then◌else◌,
}
use corerad.System.{Error}
use corerad.Server.{
  Served, ServeError, server_closed, no_error, net_error, other_error, serve_failed, is_halted,
  serve_from, serve, attempts,
}

-- One call of the function that Run passes to serve: net.Listen fails, with an error that is a
-- *net.OpError or not, or it succeeds and the server returns from Serve.
pub data Attempt : Type 0 where
  not_listening : Bool → Error → Attempt
  listening : Served → Attempt

unfoldable pub is_listening : Attempt → Bool
is_listening (not_listening is_net e) = false
is_listening (listening s) = true

unfoldable pub served : Attempt → Served
served (not_listening is_net e) = if is_net then net_error e else other_error e
served (listening s) = s

-- The result of attempt `i`, and whether the context is cancelled before it and in the wait.
module _ (attempt : ℕ → Attempt) (is_canceled : ℕ → Bool) (is_canceled_waiting : ℕ → Bool) where
  -- The function waits for the goroutine that closes the server, which waits for the context: when an
  -- attempt that listened returns, the context is done.
  unfoldable pub has_listened : ℕ → Bool
  has_listened zero = false
  has_listened (suc i) = is_listening (attempt i) || has_listened i

  unfoldable pub is_done : ℕ → Bool
  is_done i = has_listened i || is_canceled i

  unfoldable pub run : Result ServeError (Unit {0}) × ℕ
  run = serve is_done is_canceled_waiting (λ i. served (attempt i))

  -- How often the channel of readiness is closed by the first attempts.
  unfoldable pub closes : ℕ → ℕ
  closes zero = 0
  closes (suc i) = closes i + (if is_listening (attempt i) then 1 else 0)

  abbrev from : ℕ → ℕ → Result ServeError (Unit {0}) × ℕ
  from = serve_from is_done is_canceled_waiting (λ i. served (attempt i))

  -- After an attempt that listened there is no other.
  from_listened : (i left : ℕ) → has_listened i ≡ true → 0 < left → from i left ≡ (ok tt, i)
  unfolding serve_from is_done
  from_listened i zero h lt = absurd (omega arith)
  from_listened i (suc left) h lt = rw (h, serve_from) refl

  from_listened_calls : (i left : ℕ) → has_listened i ≡ true → (from i left).1 ≡ i
  unfolding serve_from is_done
  from_listened_calls i zero h = refl
  from_listened_calls i (suc left) h = rw (h, serve_from) refl

  closes_not : (i : ℕ) → is_listening (attempt i) ≡ false → closes (suc i) ≡ closes i
  unfolding closes
  closes_not i h = rw (h, closes) (omega arith)

  closes_le : (i : ℕ) → closes (suc i) ≤ suc (closes i)
  unfolding closes
  closes_le i = ground arith

  -- The ways in which a turn goes on.
  turn_cases :
      (i : ℕ) (rest : Result ServeError (Unit {0}) × ℕ) (s : Served)
      → closes (suc i) ≤ 1
      → closes rest.1 ≤ 1
      → closes
          (elim s as (λ _. Result ServeError (Unit {0}) × ℕ) [
            | server_closed ↦ (ok tt, suc i)
            | net_error e ↦ rest
            | no_error ↦ (panic, suc i)
            | other_error e ↦ (err (serve_failed e), suc i)
          ]).1
        ≤ 1
  turn_cases i rest server_closed c later = c
  turn_cases i rest (net_error e) c later = later
  turn_cases i rest no_error c later = c
  turn_cases i rest (other_error e) c later = c

  from_closes : (i left : ℕ) → has_listened i ≡ false → closes i ≡ 0 → closes ((from i left).1) ≤ 1
  unfolding serve_from has_listened
  from_closes i zero h c = omega (arith, c)
  from_closes i (suc left) h c =
      elim (Bool-cases (is_halted is_done is_canceled_waiting (λ j. served (attempt j)) i)) [
        | inl e ↦ rw (e, serve_from) (omega (arith, c))
        | inr e ↦
            let later : closes ((from (suc i) left).1) ≤ 1 =
              elim (Bool-cases (is_listening (attempt i))) [
                | inl l ↦
                    let q : has_listened (suc i) ≡ true = rw (l, has_listened) refl in
                    rw (from_listened_calls (suc i) left q) (omega (arith, closes_le i, c))
                | inr l ↦
                    from_closes (suc i) left (rw (l, h, has_listened) refl)
                      (omega (arith, closes_not i l, c))
              ] in
            rw (e, serve_from)
              (turn_cases i (from (suc i) left) (served (attempt i)) (omega (arith, closes_le i, c))
                later)
      ]

  -- However its attempts go, the task closes its channel of readiness at most once, so that it does not
  -- panic on a channel that is closed.
  pub run_closes : closes run.1 ≤ 1
  unfolding run serve has_listened closes
  run_closes = from_closes 0 attempts refl refl

  module _ (k : ℕ) (e : Error) (listens : attempt k ≡ listening (net_error e))
      (alive : (i : ℕ) → i ≤ k → is_canceled i ≡ false)
      (waits : (i : ℕ) → i ≤ k → is_canceled_waiting i ≡ false)
      (fails : (i : ℕ) → i < k → (x : Error) × (attempt i ≡ not_listening true x)) where
    not_yet : (i : ℕ) → i ≤ k → has_listened i ≡ false
    unfolding has_listened is_listening
    not_yet zero le = refl
    not_yet (suc i) le =
        let (x, q) = fails i (omega arith) in rw (q, is_listening, not_yet i (omega arith)) refl

    not_halted :
        (i : ℕ) → i ≤ k → is_halted is_done is_canceled_waiting (λ j. served (attempt j)) i ≡ false
    unfolding is_done
    not_halted i le = ground (arith, alive i le, waits i le, not_yet i le)

    run_from : (i n left : ℕ) → k ≡ i + n → suc n < left → from i left ≡ (ok tt, suc k)
    unfolding serve_from served has_listened is_listening
    run_from i n zero at lt = absurd (omega arith)
    run_from i zero (suc left) at lt =
        let here : i ≡ k = omega (arith, at) in
        let l : attempt i ≡ listening (net_error e) =
          subst (λ j. attempt j ≡ listening (net_error e)) (sym here) listens in
        let q : has_listened (suc i) ≡ true = rw (l, has_listened) refl in
        rw (not_halted i (omega arith), l, serve_from)
          (from_listened (suc i) left q (omega arith) ∙ ap (λ j. (ok tt, suc j)) here)
    run_from i (suc n) (suc left) at lt =
        let (x, q) = fails i (omega arith) in
        rw (not_halted i (omega arith), q, serve_from)
          (run_from (suc i) n left (omega arith) (omega arith))

    -- Where some attempt listens, after attempts that failed to listen with a network error, and the
    -- context is alive until then, a network error of the server after it is lost: Run returns nil.
    pub run_loses : suc k < attempts → run ≡ (ok tt, suc k)
    unfolding run serve
    run_loses lt = run_from 0 k attempts (omega arith) lt
