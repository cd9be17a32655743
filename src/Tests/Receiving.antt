-- ===== src/Tests/Receiving.antt =====
-- The listener skips a timeout and a packet with a wrong hop limit.
use corerad.Common.{
  ℕ, zero, suc, ◌<◌, ◌≡◌, ◌↔◌, refl, true, false, List, [], ◌∷◌, none, any, if◌then◌else◌,
}
use corerad.Netip.Addr.{v6}
use corerad.Advertiser.Messages
use corerad.Listener.Listen.{
  Turn, listen, unwinds, waiting, reading, is_last, listen_waits, cancel, wait,
}
use corerad.Listener.{
  Read, Attempt, failed, message, failure, received, exhausted, retries, receive_retry, goes_on,
  receive_retry_exhausted, receive_retry_received,
}

abbrev attempt : Read → Attempt
attempt r = record {
  cancelled_first = false;
  read = r;
  cancelled_after = false;
  cancelled_waiting = false;
}

abbrev attempts : ℕ → Attempt
attempts zero = attempt (failure true "i/o timeout")
attempts (suc zero) = attempt (message 64 Messages.other (v6 2))
attempts (suc (suc k)) = attempt (message 255 Messages.other (v6 1))

receive_retry_run : receive_retry 255 attempts ≡ received Messages.other (v6 1)
unfolding receive_retry
receive_retry_run = refl

receive_retry_received_example :
    (k : ℕ) × (k < retries)
    × ((j : ℕ) → j < k → goes_on 255 (attempts j) ≡ true)
    × ((attempts k).read ≡ message 255 Messages.other (v6 1))
    × ((attempts k).cancelled_first ≡ false)
receive_retry_received_example = receive_retry_received 255 attempts receive_retry_run

receive_retry_exhausted_example :
    (receive_retry 255 attempts ≡ exhausted)
    ↔ ((k : ℕ) → k < retries → goes_on 255 (attempts k) ≡ true)
receive_retry_exhausted_example = receive_retry_exhausted 255 attempts

-- A message, and then a read that fails.
abbrev turns : List Turn
turns =
    record {
      outcome = received Messages.other (v6 1);
      is_done = false;
      interrupt = none;
      on_message = λ m host. none;
    }
    ∷ record {
      outcome = failed "no such device";
      is_done = false;
      interrupt = none;
      on_message = λ m host. none;
    }
    ∷ []

listen_run : listen false turns ≡ waiting
unfolding listen corerad.Listener.Listen.end_read corerad.Listener.Listen.leave unwinds
listen_run = refl

-- With the two deferred calls in the other order it would return.
swapped_run : unwinds false false (cancel ∷ wait ∷ []) ≡ true
unfolding unwinds
swapped_run = refl

listen_waits_example : listen false turns ≡ (if any is_last turns then waiting else reading)
listen_waits_example = listen_waits turns (refl, (refl, tt))
