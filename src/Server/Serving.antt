-- ===== src/Server/Serving.antt =====
-- How often serve tries.
use corerad.Common.{
  ℕ, zero, suc, ◌+◌, ◌≤◌, ◌<◌, ◌≡◌, ◌↔◌, ◌⊎◌, inl, inr, refl, ap, ◌∙◌, subst, Bool, false, Result,
  err, arith, Bool-cases,
}
use corerad.System.{Error}
use corerad.Server.{
  Served, ServeError, server_closed, no_error, net_error, other_error, timed_out, is_halted,
  serve_from, serve, attempts,
}

Served-cases :
    (s : Served) → ((e : Error) × (s ≡ net_error e)) ⊎ ((e : Error) → s ≡ net_error e → ⊥)
Served-cases server_closed = inr (λ e h. cc)
Served-cases no_error = inr (λ e h. cc)
Served-cases (net_error e) = inl (e, refl)
Served-cases (other_error e) = inr (λ f h. cc)

add_suc : (i left : ℕ) → suc i + left ≡ i + suc left
add_suc i left = omega arith

le_cases : (i k : ℕ) → i ≤ k → (i ≡ k) ⊎ (suc i ≤ k)
le_cases i k h = ground arith

module _ (is_canceled : ℕ → Bool) (is_canceled_waiting : ℕ → Bool) (fn : ℕ → Served) where
  -- The context lets the attempt start, and it fails with a network error.
  abbrev pub IsNetError : ℕ → Type 0
  IsNetError i =
      (is_halted is_canceled is_canceled_waiting fn i ≡ false)
      × ((e : Error) × (fn i ≡ net_error e))

  abbrev from : ℕ → ℕ → Result ServeError (Unit {0}) × ℕ
  from = serve_from is_canceled is_canceled_waiting fn

  turn_again : (i left : ℕ) → IsNetError i → from i (suc left) ≡ from (suc i) left
  unfolding serve_from
  turn_again i left (h, (e, q)) = rw (h, q) refl

  turn_ends :
      (i left : ℕ)
      → (IsNetError i → ⊥)
      → ((from i (suc left)).0 ≡ err timed_out → ⊥) × ((from i (suc left)).1 ≤ suc i)
  unfolding serve_from
  turn_ends i left n = elim (Bool-cases (is_halted is_canceled is_canceled_waiting fn i)) [
    | inl h ↦ rw (h, serve_from) (λ w. cc, omega arith)
    | inr h ↦ elim (Served-cases (fn i)) [ inl q ↦ absurd (n (h, q)) | inr q ↦ ground arith ]
  ]

  turn_cases : (i : ℕ) → IsNetError i ⊎ (IsNetError i → ⊥)
  turn_cases i = elim (Bool-cases (is_halted is_canceled is_canceled_waiting fn i)) [
    | inl h ↦ inr (λ w. cc)
    | inr h ↦ elim (Served-cases (fn i)) [ inl q ↦ inl (h, q) | inr q ↦ inr (λ w. q w.1.0 w.1.1) ]
  ]

  nothing_left : (i : ℕ) → from i 0 ≡ (err timed_out, i + 0)
  unfolding serve_from
  nothing_left i = ap (λ n. (err timed_out, n)) (omega arith)

  serve_from_lem :
      (i left : ℕ)
      → (((k : ℕ) → i ≤ k → k < i + left → IsNetError k)
          × (from i left ≡ (err timed_out, i + left)))
        ⊎ (((k : ℕ) × (i ≤ k) × (k < i + left) × (IsNetError k → ⊥))
            × ((from i left).0 ≡ err timed_out → ⊥)
            × ((from i left).1 ≤ i + left))
  serve_from_lem i zero = inl (λ k a b. absurd (omega arith), nothing_left i)
  serve_from_lem i (suc left) = elim (turn_cases i) [
    | inl t ↦ elim (serve_from_lem (suc i) left) [
      | inl (all, e) ↦ inl (
        λ k a b. elim (le_cases i k a) [
          | inl p ↦ subst IsNetError p t
          | inr q ↦ all k q (omega arith)
        ],
        turn_again i left t ∙ e ∙ ap (λ n. (err timed_out, n)) (add_suc i left),
      )
      | inr ((k, a, b, n), w, c) ↦ inr (
        (k, omega arith, omega arith, n),
        rw (turn_again i left t) w,
        rw (turn_again i left t) (omega arith),
      )
    ]
    | inr n ↦ inr (
      (i, omega arith, omega arith, n),
      (turn_ends i left n).0,
      omega (arith, (turn_ends i left n).1),
    )
  ]

  -- The function is called at most 40 times, and serve returns the error of a timeout just where all
  -- 40 attempts start and fail with a network error.
  pub serve_timed_out :
      ((serve is_canceled is_canceled_waiting fn).1 ≤ attempts)
      × (((serve is_canceled is_canceled_waiting fn).0 ≡ err timed_out)
          ↔ ((k : ℕ) → k < attempts → IsNetError k))
  unfolding serve
  serve_timed_out = elim (serve_from_lem 0 attempts) [
    | inl (all, e) ↦ (rw e (omega arith), (λ h k b. all k (omega arith) b, λ h. rw e refl))
    | inr ((k, a, b, n), w, c) ↦ (c, (λ h. absurd (w h), λ h. absurd (n (h k b))))
  ]
