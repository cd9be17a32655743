-- ===== src/System/Dialer/Retry.antt =====
-- How long Dialer.init tries, and when it succeeds.
use corerad.Common.{
  ℕ, zero, suc, ◌+◌, ◌*◌, ◌≤◌, ◌<◌, ◌≡◌, refl, ap, Bool, true, false, Option, some, none, arith,
  ◌⊎◌, inl, inr,
}
use corerad.System.Dialer.{
  DialError, Outcome, done, failed, is_recoverable, next_delay, attempts, millisecond, retry,
  recover, init,
}

-- The waits of the iterations from `i` on, of which the first waits `delay`.
budget : ℕ → ℕ → ℕ → ℕ
budget i zero delay = 0
budget i (suc left) delay = delay + budget (suc i) left (next_delay i)

pub Outcome-cases :
    {C : Type 0} (o : Outcome C) → ((c : C) × (o ≡ done c)) ⊎ ((e : DialError) × (o ≡ failed e))
Outcome-cases (done c) = inl (c, refl)
Outcome-cases (failed e) = inr (e, refl)

whole_budget : budget 0 attempts 0 ≡ 130500 * millisecond
unfolding budget next_delay
whole_budget = refl

le_cases : (i k : ℕ) → i ≤ k → (i ≡ k) ⊎ (suc i ≤ k)
le_cases i k h = ground arith

module _ {C : Type 0} (dial_func : ℕ → Outcome C) (is_canceled : ℕ → Bool) where
  retry_bounds :
      (i left : ℕ) (e : DialError) (delay calls waited : ℕ)
      → ((retry dial_func is_canceled i left e delay calls waited).calls ≤ calls + left)
        × ((retry dial_func is_canceled i left e delay calls waited).waited
            ≤ waited + budget i left delay)
  unfolding retry budget
  retry_bounds i zero e delay calls waited = (omega arith, omega arith)
  retry_bounds i (suc left) e delay calls waited =
      ground (arith, retry_bounds (suc i) left e (next_delay i) (suc calls) (waited + delay))

  recover_bounds :
      (e : DialError) (calls : ℕ)
      → ((recover dial_func is_canceled e calls).calls ≤ calls + attempts)
        × ((recover dial_func is_canceled e calls).waited ≤ budget 0 attempts 0)
  unfolding recover
  recover_bounds e calls = ground (arith, retry_bounds 0 attempts e 0 calls 0)

  -- Whatever the answers are, one initialization dials at most 51 times and waits at most 130.5
  -- seconds in all, counting the waits that ended.
  pub init_bounds :
      (e : Option DialError)
      → ((init dial_func is_canceled e).calls ≤ 51)
        × ((init dial_func is_canceled e).waited ≤ 130500 * millisecond)
  unfolding init
  init_bounds (some e) = omega (arith, recover_bounds e 0, whole_budget)
  init_bounds none = elim (Outcome-cases (dial_func 0)) [
    | inl (c, q) ↦ ground arith
    | inr (e, q) ↦ rw (q, init) (omega (arith, recover_bounds e 1, whole_budget))
  ]

  module _ (never : (j : ℕ) → is_canceled j ≡ false) (m : ℕ) (c : C)
      (ok : dial_func m ≡ done c) where
    retry_succeeds :
        (i left : ℕ) (e : DialError) (delay calls waited : ℕ)
        → calls ≤ m
        → m < calls + left
        → ((j : ℕ) → calls ≤ j → j < m → (f : DialError) × (dial_func j ≡ failed f))
        → ((retry dial_func is_canceled i left e delay calls waited).result ≡ done c)
          × ((retry dial_func is_canceled i left e delay calls waited).calls ≡ suc m)
    unfolding retry
    retry_succeeds i zero e delay calls waited lo hi fl = absurd (omega arith)
    retry_succeeds i (suc left) e delay calls waited lo hi fl = elim (le_cases calls m lo) [
      | inl p ↦ rw (never i, p, ok) (refl, ap suc p)
      | inr p ↦
          let (f, q) = fl calls (omega arith) p in
          rw (never i, q)
            (retry_succeeds (suc i) left e (next_delay i) (suc calls) (waited + delay) p
              (omega arith) (λ j a b. fl j (omega arith) b))
    ]

    recover_retries :
        (e : DialError)
        → is_recoverable e ≡ true
        → ((retry dial_func is_canceled 0 attempts e 0 1 0).result ≡ done c)
          × ((retry dial_func is_canceled 0 attempts e 0 1 0).calls ≡ suc m)
        → ((recover dial_func is_canceled e 1).result ≡ done c)
          × ((recover dial_func is_canceled e 1).calls ≡ suc m)
    unfolding recover
    recover_retries e r h = rw r h

    -- While the context is not cancelled, a first initialization whose dial number `m`, counted
    -- from 0 and up to 50, succeeds after only failures, the first of them recoverable, returns
    -- what that dial returned, and dials no more.
    pub init_succeeds :
        m ≤ attempts
        → ((j : ℕ) → j < m → (f : DialError) × (dial_func j ≡ failed f))
        → ((f : DialError) → dial_func 0 ≡ failed f → is_recoverable f ≡ true)
        → ((init dial_func is_canceled none).result ≡ done c)
          × ((init dial_func is_canceled none).calls ≡ suc m)
    unfolding init
    init_succeeds le fl r = elim (Outcome-cases (dial_func 0)) [
      | inl (d, q) ↦ elim (le_cases 0 m (omega arith)) [
        | inl z ↦ rw (q, init) (cc, ap suc z)
        | inr p ↦ let (f, w) = fl 0 p in cc
      ]
      | inr (e, q) ↦
          let p : 1 ≤ m = ground arith in
          let again = retry_succeeds 0 attempts e 0 1 0 p (omega arith) (λ j a b. fl j b) in
          rw (q, init) (recover_retries e (r e q) again)
    ]
