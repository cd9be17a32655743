-- ===== src/System/Dialer.antt =====
-- Dialer.Dial and Dialer.init (internal/system/dialer.go), over any DialFunc.
pub mod Retry
pub mod Rounds
use corerad.Common.{
  ℕ, zero, suc, ◌+◌, ◌*◌, Bool, true, false, List, [], ◌∷◌, ◌++◌, Option, some, none, ltb,
  if◌then◌else◌,
}
use corerad.System.{Error}

-- An error by what errors.As and errors.Is find in it: a syscall error, and whether it is
-- os.ErrPermission, or one of the sentinels.
pub data DialError : Type 0 where
  syscall : Bool → Error → DialError
  link_not_ready link_change canceled : DialError
  other : Error → DialError
  -- "timed out trying to initialize after error: %v" wraps nothing.
  timed_out : DialError → DialError
  -- "failed to reinitialize %q listener: %w".
  reinitialize : DialError → DialError
  -- "failed to clean up connection: %v".
  clean_up : Error → DialError

pub data Outcome {ℓ} (A : Type ℓ) : Type ℓ where
  done : A → Outcome A
  failed : DialError → Outcome A

-- The switch of init on an error: whether to try again.
unfoldable pub is_recoverable : DialError → Bool
is_recoverable (syscall permission e) = if permission then false else true
is_recoverable link_not_ready = true
is_recoverable link_change = true
is_recoverable (reinitialize e) = is_recoverable e
is_recoverable _ = false

-- time.Millisecond.
abbrev pub millisecond : ℕ
millisecond = 1000000

abbrev pub attempts : ℕ
attempts = 50

abbrev pub max_delay : ℕ
max_delay = 3000000000

-- 250ms for every iteration up to this one, up to maxDelay.
unfoldable pub next_delay : ℕ → ℕ
next_delay i =
    let delay = suc i * (250 * millisecond) in if ltb max_delay delay then max_delay else delay

-- What a call of init did: its result, the number of calls of DialFunc, and the time waited.
pub record Init (C : Type 0) : Type 0 where
  pub result : Outcome C
  pub calls : ℕ
  pub waited : ℕ

-- The result of call number `n` of DialFunc, and whether the context is cancelled in wait `n`.
module _ {C : Type 0} (dial_func : ℕ → Outcome C) (is_canceled : ℕ → Bool) where
  -- The loop from iteration `i` on, with the iterations that are left and the error to report.
  unfoldable pub retry : ℕ → ℕ → DialError → ℕ → ℕ → ℕ → Init C
  retry i zero e delay calls waited = record {
    result = failed (timed_out e);
    calls = calls;
    waited = waited;
  }
  retry i (suc left) e delay calls waited =
      let again = retry (suc i) left e (next_delay i) (suc calls) (waited + delay) in
      if is_canceled i
      then record { result = failed canceled; calls = calls; waited = waited }
      else elim (dial_func calls) [
        | done c ↦ record { result = done c; calls = suc calls; waited = waited + delay }
        | failed _ ↦ again
      ]

  -- The switch on the error, then the loop.
  unfoldable pub recover : DialError → ℕ → Init C
  recover e calls =
      if is_recoverable e
      then retry 0 attempts e 0 calls 0
      else record { result = failed e; calls = calls; waited = 0 }

  -- With no error this is the first initialization.
  unfoldable pub init : Option DialError → Init C
  init (some e) = recover e 0
  init none = elim (dial_func 0) [
    | done c ↦ record { result = done c; calls = 1; waited = 0 }
    | failed e ↦ recover e 1
  ]
