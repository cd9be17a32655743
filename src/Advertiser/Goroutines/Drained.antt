-- ===== src/Advertiser/Goroutines/Drained.antt =====
-- The goroutines can answer all requests in a bounded time.
use corerad.Common.{
  ℕ, ◌≡◌, ◌∙◌, refl, ap, sym, false, List, [], ◌∷◌, ◌++◌, some, none, ok, arith, All, All-map,
  subst,
}
use corerad.Common.Int.{ℤ, pos, ◌+ℤ◌, ◌≤ℤ◌, ltb_ℤ}
use corerad.Netip.Addr.{Addr}
use corerad.Advertiser.Messages.{Advertiser, Environment, send}
use corerad.Advertiser.Timing.{max_ra_delay}
use corerad.Advertiser.Goroutines.{
  State, Written, tick, schedule, work, start, take_out, step, step_schedule, step_work, Reach,
}
use corerad.Advertiser.Goroutines.Conserved.{IsServed, count, total, Reach-total}
use corerad.Advertiser.Goroutines.Due.{some_request, Reach-IsDue}

not_early : (now due : ℤ) → due ≤ℤ now → ltb_ℤ now due ≡ false
not_early now due h = ground arith

delayed : (due now delay : ℤ) (d : ℕ) → delay ≡ pos d → due ≤ℤ now +ℤ delay → due ≤ℤ now +ℤ pos d
delayed due now delay d e h = subst (λ x. due ≤ℤ now +ℤ x) e h

settled :
    (s : State) (ip : Addr)
    → s.pending ≡ []
    → s.queue ≡ []
    → total ip s ≡ count (λ w. w.1) ip s.written
settled s ip p q = rw (p, q) (omega arith)

module _ (a : Advertiser) (min_delay : ℤ) where
  Reach-trans :
      {r s t : State} → Reach a min_delay r s → Reach a min_delay s t → Reach a min_delay r t
  Reach-trans p Reach.here = p
  Reach-trans p (Reach.move m q e) = Reach.move m (Reach-trans p q) e

  -- What draining leaves alone.
  abbrev IsSame : State → State → Type 0
  IsSame s t =
      (t.stopped ≡ s.stopped)
      × (t.failed ≡ s.failed)
      × (t.requested ≡ s.requested)
      × (t.now ≡ s.now)

  IsSame-trans : (r s t : State) → IsSame r s → IsSame s t → IsSame r t
  IsSame-trans r s t p q = (q.0 ∙ p.0, q.1 ∙ p.1, q.2 ∙ p.2, q.3 ∙ p.3)

  drain_queue :
      (xs : List Addr) (s : State)
      → s.queue ≡ xs
      → s.stopped ≡ false
      → (t : State) × Reach a min_delay s t × (t.queue ≡ []) × IsSame s t
  unfolding step step_schedule
  drain_queue [] s e r = (s, Reach.here, e, (refl, refl, refl, refl))
  drain_queue (x ∷ rest) s e r =
      let (l, due, q) = some_request min_delay s.last_multicast s.now 0 x in
      let s' : State = record s {
        queue = rest;
        pending = s.pending ++ ((due, x) ∷ []);
        last_multicast = l;
      } in
      let one : step a min_delay (schedule 0) s ≡ some s' = rw (r, e, q) refl in
      let (t, p, f, same) = drain_queue rest s' refl r in
      (t, Reach-trans (Reach.move (schedule 0) Reach.here one) p, f, same)

  module _ (env : Environment)
      (sends : (ip : Addr) → (ws : List Written) × (send env ip a.cfg ≡ ok ws)) where
    drain_pending :
        (xs : List (ℤ × Addr)) (s : State)
        → s.pending ≡ xs
        → All (λ p. ltb_ℤ s.now p.0 ≡ false) xs
        → s.stopped ≡ false
        → (t : State) × Reach a min_delay s t × (t.pending ≡ []) × (t.queue ≡ s.queue) × IsSame s t
    unfolding step step_work take_out
    drain_pending [] s e h r = (s, Reach.here, e, refl, (refl, refl, refl, refl))
    drain_pending ((due, x) ∷ rest) s e h r =
        let (ws, q) = sends x in
        let s' : State = record s { pending = rest; written = ws ++ s.written } in
        let one : step a min_delay (work 0 env) s ≡ some s' =
          rw (r, e, h.0, q, step_work)
            (ap (λ b. some (record s { pending = rest; written = ws ++ s.written; stopped = b }))
              r) in
        let (t, p, f, g, same) = drain_pending rest s' refl h.1 r in
        (t, Reach-trans (Reach.move (work 0 env) Reach.here one) p, f, g, same)

    -- Where the minimum delay is not below the half second of a unicast answer, and the environment lets
    -- every send succeed, each state that the goroutines reach without stopping or a failed send leads by
    -- further moves to one, the minimum delay later, with no new requests, in which nothing is queued or
    -- scheduled and each address that the interface can write to has been written to as often as it
    -- was requested.
    pub Reach-drains :
        (now : ℤ) (d : ℕ) {s : State}
        → pos max_ra_delay ≤ℤ min_delay
        → min_delay ≡ pos d
        → Reach a min_delay (start now) s
        → s.stopped ≡ false
        → s.failed ≡ none
        → (t : State) × Reach a min_delay s t
          × (t.now ≡ s.now +ℤ min_delay)
          × (t.requested ≡ s.requested)
          × (t.queue ≡ [])
          × (t.pending ≡ [])
          × ((ip : Addr)
              → IsServed a min_delay ip
              → count (λ w. w.1) ip t.written ≡ count (λ x. x) ip t.requested)
    unfolding step
    Reach-drains now d {s} long md r running failed =
        let (q, to_q, empty, same_q) = drain_queue s.queue s refl running in
        let q_running : q.stopped ≡ false = same_q.0 ∙ running in
        let later : State = record q { now = q.now +ℤ pos d } in
        let ticked : step a min_delay (tick d) q ≡ some later = rw (q_running, step) refl in
        let due = Reach-IsDue a min_delay long now (Reach-trans r to_q) in
        let ready : All (λ p. ltb_ℤ later.now p.0 ≡ false) q.pending =
          All-map (λ p k. not_early later.now p.0 (delayed p.0 q.now min_delay d md k)) q.pending
            due in
        let (t, to_t, none_left, kept, same_t) =
          drain_pending q.pending later refl ready q_running in
        let whole = Reach-trans to_q (Reach-trans (Reach.move (tick d) Reach.here ticked) to_t) in
        (
          t,
          whole,
          same_t.3 ∙ ap (λ x. x +ℤ pos d) same_q.3 ∙ ap (λ x. s.now +ℤ x) (sym md),
          same_t.2 ∙ same_q.2,
          kept ∙ empty,
          none_left,
          λ ip m.
              sym (settled t ip none_left (kept ∙ empty))
              ∙ Reach-total a min_delay now (Reach-trans r whole) (same_t.1 ∙ same_q.1 ∙ failed) ip
                  m,
        )
