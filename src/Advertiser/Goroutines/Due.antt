-- ===== src/Advertiser/Goroutines/Due.antt =====
-- When the requests for advertisements are answered.
use corerad.Common.{
  ℕ, ◌<◌, ◌≡◌, ◌∙◌, refl, ap, sym, true, false, ◌||◌, [], ◌∷◌, some, some_inj, ok, ok_inj, length,
  ltb, arith, Bool-cases, Option-cases, Result-cases, List-cases, inl, inr, All, All-append,
  All-map,
}
use corerad.Common.Int.{ℤ, pos, ◌+ℤ◌, ◌-ℤ◌, ◌≤ℤ◌, ltb_ℤ, int_laws}
use corerad.Netip.Addr
use corerad.Netip.Addr.{Addr, all_nodes}
use corerad.Advertiser.Messages.{Message, Advertiser, Environment, handle, send}
use corerad.Advertiser.Timing.{
  multicast_delay, schedule_request, max_ra_delay, int63n, wait, wait_cases, multicast_request,
}
use corerad.Advertiser.Goroutines.{
  State, Move, tick, multicast, listen, schedule, work, stop, start, take_out, enqueue, fail, step,
  step_multicast, step_listen, step_listen-hears, step_schedule, step_work, solicit, Reach,
  Reach-kept, capacity,
}
use corerad.Advertiser.Goroutines.Conserved.{running}
use corerad.Advertiser.Goroutines.Answered.{All-take_out}

pub unicast_request :
    (min_delay last now : ℤ) (draw : ℕ) (ip : Addr)
    → Addr.is_multicast ip ≡ false
    → schedule_request min_delay draw last now ip ≡ ok (last, now +ℤ pos draw)
unfolding schedule_request int63n
unicast_request min_delay last now draw ip m = rw m refl

pub some_request :
    (min_delay last now : ℤ) (draw : ℕ) (ip : Addr)
    → (l : ℤ) × (due : ℤ) × (schedule_request min_delay draw last now ip ≡ ok (l, due))
unfolding schedule_request
some_request min_delay last now draw ip = elim (Bool-cases (Addr.is_multicast ip)) [
  | inl m ↦ (now, now +ℤ wait (now -ℤ last) min_delay, rw m refl)
  | inr m ↦ (last, now +ℤ pos draw, unicast_request min_delay last now draw ip m)
]

module _ (a : Advertiser) (min_delay : ℤ) (long : pos max_ra_delay ≤ℤ min_delay) where
  request_due :
      (draw : ℕ) (last now : ℤ) (ip : Addr) {l due : ℤ}
      → ltb draw max_ra_delay ≡ true
      → schedule_request min_delay draw last now ip ≡ ok (l, due)
      → due ≤ℤ now +ℤ min_delay
  request_due draw last now ip {l} {due} d h = elim (Bool-cases (Addr.is_multicast ip)) [
    | inr m ↦
        let e : now +ℤ pos draw ≡ due =
          ap (λ p. p.1) (ok_inj (sym (unicast_request min_delay last now draw ip m) ∙ h)) in
        let small : draw < max_ra_delay = ground arith in rw (← e) (omega int_laws)
    | inl m ↦
        let (_, e) = multicast_request min_delay last now draw ip m h in
        elim (wait_cases (now -ℤ last) min_delay) [
          | inl (c, w) ↦ rw (e, w) (omega int_laws)
          | inr (c, w) ↦ rw (e, w) (omega int_laws)
        ]
  ]

  -- Each task is due within the minimum delay.
  abbrev pub IsDue : State → Type 0
  IsDue s = All (λ e. e.0 ≤ℤ s.now +ℤ min_delay) s.pending

  tick-IsDue : (n : ℕ) (s : State) → IsDue s → IsDue (record s { now = s.now +ℤ pos n })
  tick-IsDue n s h = All-map (λ e k. omega int_laws) s.pending h

  enqueue-IsDue : (x : Addr) (s : State) {t : State} → enqueue x s ≡ some t → IsDue s → IsDue t
  unfolding enqueue
  enqueue-IsDue x s {t} h c = elim (Bool-cases (ltb (length s.queue) capacity)) [
    | inl e ↦ rw (← some_inj (rw e at h)) c
    | inr e ↦ cc (rw e at h)
  ]

  multicast-IsDue :
      (draw : ℕ) (s : State) {t : State}
      → step_multicast a min_delay draw s ≡ some t
      → IsDue s
      → IsDue t
  unfolding step_multicast
  multicast-IsDue draw s {t} h c = elim (Bool-cases (a.cfg.unicast_only || ltb_ℤ s.now s.wake)) [
    | inl e ↦ cc (rw e at h)
    | inr e ↦ elim (Option-cases (enqueue all_nodes s)) [
      | inl q ↦ cc (rw (e, q) at h)
      | inr (u, q) ↦
          elim (Result-cases
            (multicast_delay draw s.rounds a.cfg.min_interval a.cfg.max_interval)) [
              | inl (d, w) ↦ rw (← some_inj (rw (e, q, w) at h)) (enqueue-IsDue all_nodes s q c)
              | inr (inl (x, w)) ↦ cc (rw (e, q, w) at h)
              | inr (inr w) ↦ cc (rw (e, q, w) at h)
            ]
    ]
  ]

  listen-IsDue :
      (env : Environment) (m : Message) (host : Addr) (s : State) {t : State}
      → step_listen a min_delay env m host s ≡ some t
      → IsDue s
      → IsDue t
  unfolding step_listen
  listen-IsDue env m host s {t} h c =
      let k = step_listen-hears a min_delay env m host s h in
      elim (Result-cases (handle env a m host)) [
        | inl ((ip, events), q) ↦ elim (Bool-cases (Addr.is_valid ip)) [
          | inl e ↦
              enqueue-IsDue ip (record s { answerable = solicit m host s.answerable })
                (rw (k, q, e, step_listen) at h) c
          | inr e ↦ rw (← some_inj (rw (k, q, e, step_listen) at h)) c
        ]
        | inr (inl (x, q)) ↦ rw (← some_inj (rw (k, q, step_listen) at h)) c
        | inr (inr q) ↦ cc (rw (k, q, step_listen) at h)
      ]

  schedule-IsDue :
      (draw : ℕ) (s : State) {t : State}
      → step_schedule a min_delay draw s ≡ some t
      → IsDue s
      → IsDue t
  unfolding step_schedule
  schedule-IsDue draw s {t} h c = elim (List-cases s.queue) [
    | inl e ↦ cc (rw e at h)
    | inr (x, rest, e) ↦ elim (Bool-cases (ltb draw max_ra_delay)) [
      | inr d ↦ cc (rw (e, d) at h)
      | inl d ↦ elim (Result-cases (schedule_request min_delay draw s.last_multicast s.now x)) [
        | inl ((last, due), q) ↦ rw (← some_inj (rw (e, d, q) at h)) (
            All-append (λ p. p.0 ≤ℤ s.now +ℤ min_delay) s.pending ((due, x) ∷ []) c
              (request_due draw s.last_multicast s.now x d q, tt))
        | inr (inl (y, q)) ↦ cc (rw (e, d, q) at h)
        | inr (inr q) ↦ cc (rw (e, d, q) at h)
      ]
    ]
  ]

  work-IsDue :
      (n : ℕ) (env : Environment) (s : State) {t : State}
      → step_work a min_delay n env s ≡ some t
      → IsDue s
      → IsDue t
  unfolding step_work fail
  work-IsDue n env s {t} h c = elim (Option-cases (take_out n s.pending)) [
    | inl e ↦ cc (rw (e, step_work) at h)
    | inr (((due, x), others), e) ↦
        let (y, c') = All-take_out (λ p. p.0 ≤ℤ s.now +ℤ min_delay) n s.pending e c in
        elim (Bool-cases (ltb_ℤ s.now due)) [
          | inl d ↦ cc (rw (e, d, step_work) at h)
          | inr d ↦ elim (Result-cases (send env x a.cfg)) [
            | inl (ws, q) ↦ rw (← some_inj (rw (e, d, q, step_work) at h)) c'
            | inr (inl (z, q)) ↦ rw (← some_inj (rw (e, d, q, step_work) at h)) c'
            | inr (inr q) ↦ cc (rw (e, d, q, step_work) at h)
          ]
        ]
  ]

  step-IsDue : (m : Move) (s t : State) → step a min_delay m s ≡ some t → IsDue s → IsDue t
  unfolding step
  step-IsDue (tick n) s t h c = rw (← some_inj (running a min_delay s.stopped h)) (tick-IsDue n s c)
  step-IsDue (multicast draw) s t h c = multicast-IsDue draw s (running a min_delay s.stopped h) c
  step-IsDue (listen env m host) s t h c =
      listen-IsDue env m host s (running a min_delay s.stopped h) c
  step-IsDue (schedule draw) s t h c = schedule-IsDue draw s (running a min_delay s.stopped h) c
  step-IsDue (work n env) s t h c = work-IsDue n env s (running a min_delay s.stopped h) c
  step-IsDue stop s t h c = rw (← some_inj (running a min_delay s.stopped h)) c

  -- Where the minimum delay is not below the half second of a unicast answer, in every state that the
  -- goroutines reach each scheduled advertisement is due within the minimum delay from now.
  pub Reach-IsDue : (now : ℤ) {s : State} → Reach a min_delay (start now) s → IsDue s
  Reach-IsDue now r = Reach-kept a min_delay IsDue step-IsDue r tt
