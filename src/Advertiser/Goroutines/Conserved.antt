-- ===== src/Advertiser/Goroutines/Conserved.antt =====
-- Every request for an advertisement is answered once, or is still waiting.
use corerad.Common.{
  some_inj, List-cases, ℕ, zero, suc, ◌+◌, ◌≡◌, refl, ap, Bool, false, ◌&&◌, ◌||◌, List, [], ◌∷◌,
  ◌++◌, Option, some, none, ok, length, ltb, if◌then◌else◌, ◌==◌, arith, Bool-cases, Option-cases,
  Result-cases, inl, inr,
}
use corerad.Common.Int.{ℤ, ltb_ℤ}
use corerad.Netip.Addr
use corerad.Netip.Addr.{Addr, all_nodes, addr_eq, addr_beq_iff}
use corerad.Advertiser.Messages.{Message, Advertiser, Environment, handle, send, send_lem}
use corerad.Advertiser.Timing.{multicast_delay, schedule_request, max_ra_delay}
use corerad.Advertiser.Goroutines.{
  State, Move, Written, tick, multicast, listen, schedule, work, stop, start, take_out, enqueue,
  fail, step, step_multicast, step_listen, step_listen-hears, step_schedule, step_work, solicit,
  Reach, Reach-kept, capacity,
}

-- How often an address occurs.
abbrev pub count {ℓ} : {A : Type ℓ} → (A → Addr) → Addr → List A → ℕ
count f ip [] = 0
count f ip (x ∷ xs) = (if ip == f x then 1 else 0) + count f ip xs

module _ {ℓ} {A : Type ℓ} (f : A → Addr) (ip : Addr) where
  count-append : (xs ys : List A) → count f ip (xs ++ ys) ≡ count f ip xs + count f ip ys
  count-append [] ys = omega arith
  count-append (x ∷ xs) ys = omega (arith, count-append xs ys)

  count-take_out :
      (n : ℕ) (xs : List A) {y : A} {ys : List A}
      → take_out n xs ≡ some (y, ys)
      → count f ip xs ≡ (if ip == f y then 1 else 0) + count f ip ys
  unfolding take_out
  count-take_out n [] h = cc
  count-take_out zero (x ∷ xs) {y} {ys} h =
      let e : Path (A × List A) (x, xs) (y, ys) = some_inj h in
      rw (← ap (λ p. p.0) e, ← ap (λ p. p.1) e) refl
  count-take_out (suc n) (x ∷ xs) {y} {ys} h = elim (Option-cases (take_out n xs)) [
    | inl e ↦ cc (rw e at h)
    | inr ((z, zs), e) ↦
        let r : Path (A × List A) (z, x ∷ zs) (y, ys) = some_inj (rw e at h) in
        rw (← ap (λ p. p.0) r, ← ap (λ p. p.1) r) (omega (arith, count-take_out n xs e))
  ]

-- The advertisements for an address that are written, scheduled or requested.
abbrev pub total : Addr → State → ℕ
total ip s =
    count (λ w. w.1) ip s.written + count (λ e. e.1) ip s.pending + count (λ x. x) ip s.queue

module _ (a : Advertiser) (min_delay : ℤ) where
  -- The address is not one that the interface never writes to.
  abbrev pub IsServed : Addr → Type 0
  IsServed ip = (a.cfg.unicast_only && Addr.is_multicast ip) ≡ false

  abbrev pub IsConserved : State → Type 0
  IsConserved s =
      s.failed ≡ none → (ip : Addr) → IsServed ip → total ip s ≡ count (λ x. x) ip s.requested

  enqueue-IsConserved :
      (x : Addr) (s : State) {t : State} → enqueue x s ≡ some t → IsConserved s → IsConserved t
  unfolding enqueue
  enqueue-IsConserved x s {t} h c = elim (Bool-cases (ltb (length s.queue) capacity)) [
    | inl e ↦
        let r = some_inj (rw e at h) in
        rw (← r) (λ n ip m. omega (arith, c n ip m, count-append (λ x. x) ip s.queue (x ∷ [])))
    | inr e ↦ cc (rw e at h)
  ]

  multicast-IsConserved :
      (draw : ℕ) (s : State) {t : State}
      → step_multicast a min_delay draw s ≡ some t
      → IsConserved s
      → IsConserved t
  unfolding step_multicast
  multicast-IsConserved draw s {t} h c =
      elim (Bool-cases (a.cfg.unicast_only || ltb_ℤ s.now s.wake)) [
        | inl e ↦ cc (rw e at h)
        | inr e ↦ elim (Option-cases (enqueue all_nodes s)) [
          | inl q ↦ cc (rw (e, q) at h)
          | inr (u, q) ↦
              elim (Result-cases
                (multicast_delay draw s.rounds a.cfg.min_interval a.cfg.max_interval)) [
                  | inl (d, w) ↦
                      rw (← some_inj (rw (e, q, w) at h)) (enqueue-IsConserved all_nodes s q c)
                  | inr (inl (x, w)) ↦ cc (rw (e, q, w) at h)
                  | inr (inr w) ↦ cc (rw (e, q, w) at h)
                ]
        ]
      ]

  listen-IsConserved :
      (env : Environment) (m : Message) (host : Addr) (s : State) {t : State}
      → step_listen a min_delay env m host s ≡ some t
      → IsConserved s
      → IsConserved t
  unfolding step_listen
  listen-IsConserved env m host s {t} h c =
      let k = step_listen-hears a min_delay env m host s h in
      elim (Result-cases (handle env a m host)) [
        | inl ((ip, events), q) ↦ elim (Bool-cases (Addr.is_valid ip)) [
          | inl e ↦
              enqueue-IsConserved ip (record s { answerable = solicit m host s.answerable })
                (rw (k, q, e, step_listen) at h) c
          | inr e ↦ rw (← some_inj (rw (k, q, e, step_listen) at h)) c
        ]
        | inr (inl (x, q)) ↦ rw (← some_inj (rw (k, q, step_listen) at h)) c
        | inr (inr q) ↦ cc (rw (k, q, step_listen) at h)
      ]

  schedule-IsConserved :
      (draw : ℕ) (s : State) {t : State}
      → step_schedule a min_delay draw s ≡ some t
      → IsConserved s
      → IsConserved t
  unfolding step_schedule
  schedule-IsConserved draw s {t} h c = elim (List-cases s.queue) [
    | inl e ↦ cc (rw e at h)
    | inr (x, rest, e) ↦ elim (Bool-cases (ltb draw max_ra_delay)) [
      | inr d ↦ cc (rw (e, d) at h)
      | inl d ↦ elim (Result-cases (schedule_request min_delay draw s.last_multicast s.now x)) [
        | inl ((last, due), q) ↦ rw (← some_inj (rw (e, d, q) at h)) (λ n ip m.
            let before : count (λ y. y) ip s.queue
                ≡ (if ip == x then 1 else 0) + count (λ y. y) ip rest =
              ap (count (λ y. y) ip) e in
            omega (arith, c n ip m, before, count-append (λ p. p.1) ip s.pending ((due, x) ∷ [])))
        | inr (inl (y, q)) ↦ cc (rw (e, d, q) at h)
        | inr (inr q) ↦ cc (rw (e, d, q) at h)
      ]
    ]
  ]

  count_sent :
      (env : Environment) (x : Addr) {ws : List Written} (ip : Addr)
      → send env x a.cfg ≡ ok ws
      → IsServed ip
      → count (λ w. w.1) ip ws ≡ (if ip == x then 1 else 0)
  count_sent env x {ws} ip h m = elim (send_lem env x a.cfg h) [
    | inl (blocked, e) ↦ elim (Bool-cases (ip == x)) [
      | inl q ↦ absurd (ground (arith, (addr_beq_iff ip x).0 q))
      | inr q ↦ rw (e, q) refl
    ]
    | inr (open_, ra, b, w, e) ↦ rw e (omega arith)
  ]

  work-IsConserved :
      (n : ℕ) (env : Environment) (s : State) {t : State}
      → step_work a min_delay n env s ≡ some t
      → IsConserved s
      → IsConserved t
  unfolding step_work fail
  work-IsConserved n env s {t} h c = elim (Option-cases (take_out n s.pending)) [
    | inl e ↦ cc (rw (e, step_work) at h)
    | inr (((due, x), others), e) ↦ elim (Bool-cases (ltb_ℤ s.now due)) [
      | inl d ↦ cc (rw (e, d, step_work) at h)
      | inr d ↦ elim (Result-cases (send env x a.cfg)) [
        | inl (ws, q) ↦ rw (← some_inj (rw (e, d, q, step_work) at h)) (λ f ip m. omega (
          arith,
          c f ip m,
          count-take_out (λ p. p.1) ip n s.pending e,
          count_sent env x ip q m,
          count-append (λ w. w.1) ip ws s.written,
        ))
        | inr (inl (y, q)) ↦ rw (← some_inj (rw (e, d, q, step_work) at h)) (λ f. cc)
        | inr (inr q) ↦ cc (rw (e, d, q, step_work) at h)
      ]
    ]
  ]

  pub running :
      (b : Bool) {t : State} {o : Option State} → (if b then none else o) ≡ some t → o ≡ some t
  running b h = ground arith

  step-IsConserved :
      (m : Move) (s t : State) → step a min_delay m s ≡ some t → IsConserved s → IsConserved t
  unfolding step
  step-IsConserved (tick n) s t h c = rw (← some_inj (running s.stopped h)) c
  step-IsConserved (multicast draw) s t h c = multicast-IsConserved draw s (running s.stopped h) c
  step-IsConserved (listen env m host) s t h c =
      listen-IsConserved env m host s (running s.stopped h) c
  step-IsConserved (schedule draw) s t h c = schedule-IsConserved draw s (running s.stopped h) c
  step-IsConserved (work n env) s t h c = work-IsConserved n env s (running s.stopped h) c
  step-IsConserved stop s t h c = rw (← some_inj (running s.stopped h)) c

  -- In every state that the goroutines reach and in which no send has failed, each address that the
  -- interface can write to has been written to, is scheduled or is queued as often in all as it was
  -- requested: no request is lost, and none is answered twice.
  pub Reach-total :
      (now : ℤ) {s : State}
      → Reach a min_delay (start now) s
      → s.failed ≡ none
      → (ip : Addr) → IsServed ip
      → total ip s ≡ count (λ x. x) ip s.requested
  Reach-total now r = Reach-kept a min_delay IsConserved step-IsConserved r (λ f ip m. refl)
