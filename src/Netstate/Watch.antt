-- ===== src/Netstate/Watch.antt =====
-- What a whole watch delivers to its subscribers.
use corerad.Common.{
  ℕ, zero, suc, ◌<◌, ◌-◌, ◌≡◌, ◌∙◌, refl, sym, ap, true, false, String, List, [], none, some, ◌∷◌,
  ◌++◌, ltb, length, length-append, take, arith, filter, Bool-cases, inl, inr,
}
use mathlib.Core.List.{append-nil, append_assoc}
use corerad.Netstate.Names.{Change}
use corerad.Netstate.{
  Channel, Interest, ChangeMap, Message, Watcher, Ending, capacity, send, notify, process,
  run_watch, os_watch, close, close_interest, close_all, watch, no_dial, interrupted, failed_read,
}
use corerad.Netstate.Delivery.{
  on_interest, on_channels, send_all, is_wanted, notify_lem, on_channels_id, on_channels_twice,
  on_channels_ext, filter-append, send_all-append,
}
use corerad.Netstate.Gathering.{changes_in, gathered-process}

-- The changes for an interface in all batches.
abbrev pub heard : String → List (List Message) → List Change
heard i [] = []
heard i (msgs ∷ batches) = changes_in i msgs ++ heard i batches

-- The batches that are read before the watch ends.
abbrev pub batches_read : Ending → List (List Message) → List (List Message)
batches_read (no_dial e) batches = []
batches_read _ batches = batches

-- The channel when it has been sent the changes, of which it keeps those that it has room for, and
-- has been closed.
abbrev pub filled : List Change → Channel → Channel
filled xs ch = record { buffer = ch.buffer ++ take (capacity - length ch.buffer) xs; closed = true }

take_nil : (n : ℕ) → Path (List Change) (take n []) []
take_nil zero = refl
take_nil (suc n) = refl

left_over : (l : ℕ) → l < capacity → (n : ℕ) × (capacity - l ≡ suc n)
left_over l h = (capacity - suc l, omega arith)

send_all_lem :
    (xs : List Change) (ch : Channel)
    → send_all xs ch ≡ record ch { buffer = ch.buffer ++ take (capacity - length ch.buffer) xs }
unfolding send
send_all_lem [] ch = rw (take_nil (capacity - length ch.buffer), append-nil ch.buffer) refl
send_all_lem (x ∷ xs) ch = elim (Bool-cases (ltb (length ch.buffer) capacity)) [
  | inl e ↦
      let (n, room) = left_over (length ch.buffer) (ground arith) in
      let shorter : capacity - length (ch.buffer ++ (x ∷ [])) ≡ n =
        omega (arith, length-append ch.buffer (x ∷ [])) in
      rw (e, send, send_all_lem xs (record ch { buffer = ch.buffer ++ (x ∷ []) }), shorter, room)
        (ap (λ b. record ch { buffer = b }) (append_assoc ch.buffer (x ∷ []) _))
  | inr e ↦
      let full : capacity - length ch.buffer ≡ 0 = ground arith in
      rw (e, send, send_all_lem xs ch, full) refl
]

run_watch_lem :
    (batches : List (List Message)) (m : ChangeMap)
    → run_watch batches m ≡ on_channels (λ i k. send_all (filter (is_wanted k) (heard i batches))) m
unfolding run_watch filter
run_watch_lem [] m = sym (on_channels_id m)
run_watch_lem (msgs ∷ batches) m =
    run_watch_lem batches (notify (process msgs) m)
    ∙ ap (on_channels (λ i k. send_all (filter (is_wanted k) (heard i batches))))
        (notify_lem (process msgs) m)
    ∙ on_channels_twice _ _ m
    ∙ on_channels_ext _ _
        (λ i k ch.
          rw
            (
              gathered-process i msgs,
              filter-append (is_wanted k) (changes_in i msgs) (heard i batches),
            )
            (sym (send_all-append (filter (is_wanted k) (changes_in i msgs)) _ ch)))
        m

close_interest_lem :
    (interest : Interest) → close_interest interest ≡ on_interest (λ k. close) interest
unfolding close_interest
close_interest_lem [] = refl
close_interest_lem ((k, v) ∷ rest) = rw (close_interest_lem rest) refl

close_all_lem : (m : ChangeMap) → close_all m ≡ on_channels (λ i k. close) m
unfolding close_all
close_all_lem [] = refl
close_all_lem ((i, interest) ∷ rest) = rw (close_all_lem rest, close_interest_lem interest) refl

closed_run_lem :
    (batches : List (List Message)) (m : ChangeMap)
    → close_all (run_watch batches m)
      ≡ on_channels (λ i k. filled (filter (is_wanted k) (heard i batches))) m
unfolding close
closed_run_lem batches m =
    close_all_lem (run_watch batches m)
    ∙ ap (on_channels (λ i k. close)) (run_watch_lem batches m)
    ∙ on_channels_twice _ _ m
    ∙ on_channels_ext _ _
        (λ i k ch. ap close (send_all_lem (filter (is_wanted k) (heard i batches)) ch)) m

os_watch_lem :
    (ending : Ending) (batches : List (List Message)) (m : ChangeMap)
    → (os_watch ending batches m).1 ≡ run_watch (batches_read ending batches) m
unfolding os_watch run_watch
os_watch_lem (no_dial e) batches m = refl
os_watch_lem (interrupted none) batches m = refl
os_watch_lem (interrupted (some e)) batches m = refl
os_watch_lem (failed_read e) batches m = refl

-- However the first call of Watch ends, it leaves every channel closed, with the changes that it held,
-- followed, up to its capacity, by the changes of its interface that have a bit of its bitmask, in the
-- order in which the messages that were read report them.
pub watch_delivers :
    (ending : Ending) (batches : List (List Message)) (w : Watcher)
    → w.watching ≡ false
    → (watch ending batches w).1 ≡ record {
      watching = true;
      m =
          on_channels
            (λ i k. filled (filter (is_wanted k) (heard i (batches_read ending batches))))
            w.m;
    }
unfolding watch
watch_delivers ending batches w h =
    rw (h, os_watch_lem ending batches w.m, closed_run_lem (batches_read ending batches) w.m) refl
