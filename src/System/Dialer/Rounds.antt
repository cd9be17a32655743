-- ===== src/System/Dialer/Rounds.antt =====
-- The loop of Dialer.Dial: rounds of an initialization, the caller's function and a release.
use corerad.Common.{
  some_inj, ℕ, zero, suc, ◌+◌, ◌<◌, ◌≡◌, refl, subst, Bool, true, false, List, [], ◌∷◌, ◌++◌,
  Option, some, none, arith, if◌then◌else◌,
}
use corerad.System.{Error}
use corerad.System.Dialer.{
  DialError, Outcome, done, failed, canceled, reinitialize, clean_up, is_recoverable, retry,
  recover, init,
}

pub data Event (C : Type 0) : Type 0 where
  connected : C → Event C
  returned : Option DialError → Event C
  released : C → Event C

-- errors.Is(err, context.Canceled).
unfoldable pub is_cancellation : DialError → Bool
is_cancellation canceled = true
is_cancellation (reinitialize e) = is_cancellation e
is_cancellation _ = false

-- What the loop did, and what it returned (the inner `none` is nil) if it has ended.
pub record Rounds (C : Type 0) : Type 0 where
  pub trace : List (Event C)
  pub ending : Option (Option DialError)

-- In round `r`: the answers of DialFunc and of the context, what the caller's function returns for a
-- connection, and what the function `done` of the connection returns, if that is set.
module _ {C : Type 0} (dial_func : ℕ → ℕ → Outcome C) (is_canceled : ℕ → ℕ → Bool)
    (fn : ℕ → C → Option DialError) (release : ℕ → C → Option (Option Error)) where
  -- The call of dctx.done, and its error.
  unfoldable pub closing : ℕ → C → List (Event C) × Option Error
  closing r c = elim (release r c) [ none ↦ ([], none) | some derr ↦ (released c ∷ [], derr) ]

  -- The rounds from `r` on, at most as many as the second argument, after the error of the last.
  unfoldable pub rounds : ℕ → ℕ → Option DialError → Rounds C
  rounds r zero e = record { trace = []; ending = none }
  rounds r (suc n) e = elim (init (dial_func r) (is_canceled r) e).result [
    | failed f ↦ record {
      trace = [];
      ending = some (if is_cancellation f then none else some (reinitialize f));
    }
    | done c ↦
        let ran = connected c ∷ returned (fn r c) ∷ (closing r c).0 in
        elim (closing r c).1 [
          | some d ↦ record { trace = ran; ending = some (some (clean_up d)) }
          | none ↦ elim (fn r c) [
            | none ↦ record { trace = ran; ending = some none }
            | some f ↦
                let later = rounds (suc r) n (some f) in
                record { trace = ran ++ later.trace; ending = later.ending }
          ]
        ]
  ]

  unfoldable pub dial : ℕ → Rounds C
  dial n = rounds 0 n none

-- The trace of `n` rounds from round `r` on that end with an error, and one more that does not.
pub runs : {C : Type 0} → (ℕ → C) → (ℕ → C → Option DialError) → ℕ → ℕ → List (Event C)
runs conn fn r zero = connected (conn r) ∷ returned (fn r (conn r)) ∷ released (conn r) ∷ []
runs conn fn r (suc n) =
    connected (conn r) ∷ returned (fn r (conn r)) ∷ released (conn r) ∷ runs conn fn (suc r) n

module _ {C : Type 0} (dial_func : ℕ → ℕ → Outcome C) (is_canceled : ℕ → ℕ → Bool)
    (fn : ℕ → C → Option DialError) (release : ℕ → C → Option (Option Error)) where
  -- What may happen from a round on, after the error of the round before it: the events, and what the
  -- loop returned if it has ended.
  pub data IsServed
      : ℕ → Option DialError → List (Event C) → Option (Option DialError) → Type 0 where
    cut : {r : ℕ} {e : Option DialError} → IsServed r e [] none
    stopped :
        {r : ℕ} {e : Option DialError} {f : DialError}
        → (init (dial_func r) (is_canceled r) e).result ≡ failed f
        → is_cancellation f ≡ true
        → IsServed r e [] (some none)
    undialed :
        {r : ℕ} {e : Option DialError} {f : DialError}
        → (init (dial_func r) (is_canceled r) e).result ≡ failed f
        → is_cancellation f ≡ false
        → IsServed r e [] (some (some (reinitialize f)))
    unreleased :
        {r : ℕ} {e : Option DialError} {c : C} {d : Error}
        → (init (dial_func r) (is_canceled r) e).result ≡ done c
        → release r c ≡ some (some d)
        → IsServed r e
            (connected c ∷ returned (fn r c) ∷ released c ∷ [])
            (some (some (clean_up d)))
    ended :
        {r : ℕ} {e : Option DialError} {c : C}
        → (init (dial_func r) (is_canceled r) e).result ≡ done c
        → release r c ≡ some none
        → fn r c ≡ none
        → IsServed r e (connected c ∷ returned none ∷ released c ∷ []) (some none)
    ended_kept :
        {r : ℕ} {e : Option DialError} {c : C}
        → (init (dial_func r) (is_canceled r) e).result ≡ done c
        → release r c ≡ none
        → fn r c ≡ none
        → IsServed r e (connected c ∷ returned none ∷ []) (some none)
    again :
        {r : ℕ} {e : Option DialError} {c : C} {f : DialError} {later : List (Event C)}
        {ending : Option (Option DialError)}
        → (init (dial_func r) (is_canceled r) e).result ≡ done c
        → release r c ≡ some none
        → fn r c ≡ some f
        → IsServed (suc r) (some f) later ending
        → IsServed r e (connected c ∷ returned (some f) ∷ released c ∷ later) ending
    again_kept :
        {r : ℕ} {e : Option DialError} {c : C} {f : DialError} {later : List (Event C)}
        {ending : Option (Option DialError)}
        → (init (dial_func r) (is_canceled r) e).result ≡ done c
        → release r c ≡ none
        → fn r c ≡ some f
        → IsServed (suc r) (some f) later ending
        → IsServed r e (connected c ∷ returned (some f) ∷ later) ending

  closing_lem :
      (r : ℕ) (c : C) {x : Option (Option Error)}
      → release r c ≡ x
      → closing dial_func is_canceled fn release r c
        ≡ elim x [ none ↦ ([], none) | some derr ↦ (released c ∷ [], derr) ]
  unfolding closing
  closing_lem r c h = rw (h, closing) refl

  module _ (conn : ℕ → C) (ok : (r j : ℕ) → dial_func r j ≡ done (conn r))
      (never : (r j : ℕ) → is_canceled r j ≡ false)
      (clean : (r : ℕ) → release r (conn r) ≡ some none) where
    shut :
        (r : ℕ)
        → closing dial_func is_canceled fn release r (conn r) ≡ (released (conn r) ∷ [], none)
    shut r = closing_lem r (conn r) (clean r)

    init_ok :
        (r : ℕ) (e : Option DialError)
        → ((f : DialError) → e ≡ some f → is_recoverable f ≡ true)
        → (init (dial_func r) (is_canceled r) e).result ≡ done (conn r)
    unfolding init recover retry
    init_ok r none h = rw (ok r 0, init) refl
    init_ok r (some e) h = rw (h e refl, never r 0, ok r 0) refl

    module _ (last : ℕ) (stop : fn last (conn last) ≡ none)
        (retries : (j : ℕ)
          → j < last
          → (f : DialError) × (fn j (conn j) ≡ some f) × (is_recoverable f ≡ true)) where
      rounds_end :
          (r n left : ℕ) (e : Option DialError)
          → last ≡ r + n
          → n < left
          → ((f : DialError) → e ≡ some f → is_recoverable f ≡ true)
          → rounds dial_func is_canceled fn release r left e
            ≡ record { trace = runs conn fn r n; ending = some none }
      unfolding rounds runs
      rounds_end r n zero e at lt h = absurd (omega arith)
      rounds_end r zero (suc left) e at lt h =
          let here : last ≡ r = omega arith in
          let stop' : fn r (conn r) ≡ none = subst (λ x. fn x (conn x) ≡ none) here stop in
          rw (init_ok r e h, shut r, stop', rounds) (rw (shut r, stop') refl)
      rounds_end r (suc n) (suc left) e at lt h =
          let (f, q, rec) = retries r (omega arith) in
          let later =
            rounds_end (suc r) n left (some f) (omega arith) (omega arith)
              (λ g w. rw (← some_inj w) rec) in
          rw (init_ok r e h, shut r, q, rounds) (rw (later, shut r, q) refl)

      -- Where every dial and release succeeds and the context stays alive, and the caller's function
      -- returns recoverable errors in all rounds before number `last` and nil in that one, the loop
      -- returns nil after exactly those rounds, given a bound on the rounds that exceeds `last`.
      pub dial_ends :
          (n : ℕ)
          → last < n
          → dial dial_func is_canceled fn release n
            ≡ record { trace = runs conn fn 0 last; ending = some none }
      unfolding dial
      dial_ends n lt = rounds_end 0 last n none (omega arith) lt (λ f h. cc)

    -- The caller's function returns an error in round `last` that is not tried again.
    module _ (last : ℕ) (f : DialError) (stop : fn last (conn last) ≡ some f)
        (fatal : is_recoverable f ≡ false)
        (retries : (j : ℕ)
          → j < last
          → (g : DialError) × (fn j (conn j) ≡ some g) × (is_recoverable g ≡ true)) where
      abbrev pub fails_with : Option DialError
      fails_with = if is_cancellation f then none else some (reinitialize f)

      rounds_after :
          (r left : ℕ)
          → rounds dial_func is_canceled fn release r (suc left) (some f)
            ≡ record { trace = []; ending = some fails_with }
      unfolding rounds init recover
      rounds_after r left = rw (fatal, rounds) refl

      rounds_fail :
          (r n left : ℕ) (e : Option DialError)
          → last ≡ r + n
          → suc n < left
          → ((g : DialError) → e ≡ some g → is_recoverable g ≡ true)
          → rounds dial_func is_canceled fn release r left e
            ≡ record { trace = runs conn fn r n; ending = some fails_with }
      unfolding rounds runs
      rounds_fail r n zero e at lt h = absurd (omega arith)
      rounds_fail r n (suc zero) e at lt h = absurd (omega arith)
      rounds_fail r zero (suc (suc left)) e at lt h =
          let here : last ≡ r = omega arith in
          let stop' : fn r (conn r) ≡ some f = subst (λ x. fn x (conn x) ≡ some f) here stop in
          rw (init_ok r e h, shut r, stop', rounds)
            (rw (rounds_after (suc r) left, shut r, stop') refl)
      rounds_fail r (suc n) (suc left) e at lt h =
          let (g, q, rec) = retries r (omega arith) in
          let later =
            rounds_fail (suc r) n left (some g) (omega arith) (omega arith)
              (λ k w. rw (← some_inj w) rec) in
          rw (init_ok r e h, shut r, q, rounds) (rw (later, shut r, q) refl)

      -- Where every dial and release succeeds and the context stays alive, and the caller's function
      -- returns recoverable errors in all rounds before number `last` and another error in that one,
      -- the loop dials no more and returns that error as a failure to reinitialize, or nil if it is
      -- a cancellation, given a bound on the rounds that exceeds `last` by more than one.
      pub dial_fails :
          (n : ℕ)
          → suc last < n
          → dial dial_func is_canceled fn release n
            ≡ record { trace = runs conn fn 0 last; ending = some fails_with }
      unfolding dial
      dial_fails n lt = rounds_fail 0 last n none (omega arith) lt (λ f h. cc)
