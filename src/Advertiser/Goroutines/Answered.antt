-- ===== src/Advertiser/Goroutines/Answered.antt =====
-- Who is written to.
use corerad.Common.{
  ℕ, zero, suc, ◌≡◌, refl, ap, true, ◌||◌, List, [], ◌∷◌, Memᴰ, some, some_inj, ok_inj, ok, length,
  ltb, Bool-cases, Option-cases, Result-cases, List-cases, inl, inr, All, All-append, All-map,
  >>=-eq-ok, subst,
}
use corerad.Common.Int.{ℤ, ltb_ℤ}
use corerad.Netip.Addr
use corerad.Netip.Addr.{Addr, all_nodes, none_addr}
use corerad.Advertiser.Messages.{
  Message, router_solicitation, router_advertisement, other, Advertiser, Environment, Event,
  build_ra, handle, send, send_lem,
}
use corerad.Advertiser.Timing.{multicast_delay, schedule_request, max_ra_delay}
use corerad.Advertiser.Goroutines.{
  State, Move, Written, tick, multicast, listen, schedule, work, stop, start, take_out, enqueue,
  fail, step, step_multicast, step_listen, step_listen-hears, step_schedule, step_work, solicit,
  Reach, Reach-kept, capacity,
}
use corerad.Advertiser.Goroutines.Conserved.{IsServed, running}

pub All-take_out {ℓ κ} :
    {A : Type ℓ} (P : A → Type κ) (n : ℕ) (xs : List A) {y : A} {ys : List A}
    → take_out n xs ≡ some (y, ys)
    → All P xs
    → P y × All P ys
unfolding take_out
All-take_out P n [] h a = cc
All-take_out {A = A} P zero (x ∷ xs) {y} {ys} h a =
    let e : Path (A × List A) (x, xs) (y, ys) = some_inj h in
    rw (← ap (λ p. p.0) e, ← ap (λ p. p.1) e) a
All-take_out {A = A} P (suc n) (x ∷ xs) {y} {ys} h a = elim (Option-cases (take_out n xs)) [
  | inl e ↦ cc (rw e at h)
  | inr ((z, zs), e) ↦
      let r : Path (A × List A) (z, x ∷ zs) (y, ys) = some_inj (rw e at h) in
      let (p, q) = All-take_out P n xs e a.1 in
      rw (← ap (λ p. p.0) r, ← ap (λ p. p.1) r) (p, (a.0, q))
]

module _ (a : Advertiser) (min_delay : ℤ) where
  -- Nobody else is written to, and no address that the interface does not write to.
  abbrev pub IsAnswer : State → Written → Type 0
  IsAnswer s w = IsServed a min_delay w.1 × Memᴰ w.1 s.answerable

  abbrev pub IsAnswering : State → Type 0
  IsAnswering s =
      Memᴰ all_nodes s.answerable
      × All (λ ip. Memᴰ ip s.answerable) s.queue
      × All (λ e. Memᴰ e.1 s.answerable) s.pending
      × All (IsAnswer s) s.written

  enqueue-IsAnswering :
      (x : Addr) (s : State) {t : State}
      → enqueue x s ≡ some t
      → Memᴰ x s.answerable
      → IsAnswering s
      → IsAnswering t
  unfolding enqueue
  enqueue-IsAnswering x s {t} h m (n, q, p, w) = elim (Bool-cases (ltb (length s.queue) capacity)) [
    | inl e ↦
        rw (← some_inj (rw e at h))
          (n, All-append (λ ip. Memᴰ ip s.answerable) s.queue (x ∷ []) q (m, tt), p, w)
    | inr e ↦ cc (rw e at h)
  ]

  multicast-IsAnswering :
      (draw : ℕ) (s : State) {t : State}
      → step_multicast a min_delay draw s ≡ some t
      → IsAnswering s
      → IsAnswering t
  unfolding step_multicast
  multicast-IsAnswering draw s {t} h c =
      elim (Bool-cases (a.cfg.unicast_only || ltb_ℤ s.now s.wake)) [
        | inl e ↦ cc (rw e at h)
        | inr e ↦ elim (Option-cases (enqueue all_nodes s)) [
          | inl q ↦ cc (rw (e, q) at h)
          | inr (u, q) ↦
              elim (Result-cases
                (multicast_delay draw s.rounds a.cfg.min_interval a.cfg.max_interval)) [
                  | inl (d, w) ↦
                      rw (← some_inj (rw (e, q, w) at h)) (enqueue-IsAnswering all_nodes s q c.0 c)
                  | inr (inl (x, w)) ↦ cc (rw (e, q, w) at h)
                  | inr (inr w) ↦ cc (rw (e, q, w) at h)
                ]
        ]
      ]

  solicit-mem :
      (m : Message) (host x : Addr) (xs : List Addr) → Memᴰ x xs → Memᴰ x (solicit m host xs)
  solicit-mem (router_solicitation os) host x xs h = elim (Bool-cases (Addr.is_unspecified host)) [
    | inl e ↦ rw e h
    | inr e ↦ rw e (Memᴰ.tail h)
  ]
  solicit-mem (router_advertisement ra) host x xs h = h
  solicit-mem other host x xs h = h

  heard-IsAnswering :
      (m : Message) (host : Addr) (s : State)
      → IsAnswering s
      → IsAnswering (record s { answerable = solicit m host s.answerable })
  heard-IsAnswering m host s (n, q, p, w) = (
    solicit-mem m host all_nodes s.answerable n,
    All-map (λ ip k. solicit-mem m host ip s.answerable k) s.queue q,
    All-map (λ e k. solicit-mem m host e.1 s.answerable k) s.pending p,
    All-map (λ v k. (k.0, solicit-mem m host v.1 s.answerable k.1)) s.written w,
  )

  handle-mem :
      (env : Environment) (m : Message) (host : Addr) (xs : List Addr) {ip : Addr}
      {events : List Event}
      → handle env a m host ≡ ok (ip, events)
      → Addr.is_valid ip ≡ true
      → Memᴰ all_nodes xs
      → Memᴰ ip (solicit m host xs)
  unfolding handle Addr.is_valid
  handle-mem env (router_solicitation os) host xs {ip} h v n =
      elim (Bool-cases (Addr.is_unspecified host)) [
        | inl e ↦ let r : all_nodes ≡ ip = ap (λ p. p.0) (ok_inj (rw e at h)) in rw (e, ← r) n
        | inr e ↦
            let r : host ≡ ip = ap (λ p. p.0) (ok_inj (rw e at h)) in rw (e, ← r) (Memᴰ.head refl)
      ]
  handle-mem env (router_advertisement ra) host xs {ip} h v n =
      let (want, b, q) = >>=-eq-ok (build_ra env a.cfg) _ h in
      let r : none_addr ≡ ip = ap (λ p. p.0) (ok_inj q) in cc (rw (← r) at v)
  handle-mem env other host xs {ip} h v n =
      let r : none_addr ≡ ip = ap (λ p. p.0) (ok_inj h) in cc (rw (← r) at v)

  listen-IsAnswering :
      (env : Environment) (m : Message) (host : Addr) (s : State) {t : State}
      → step_listen a min_delay env m host s ≡ some t
      → IsAnswering s
      → IsAnswering t
  unfolding step_listen
  listen-IsAnswering env m host s {t} h c =
      let k = step_listen-hears a min_delay env m host s h in
      elim (Result-cases (handle env a m host)) [
        | inl ((ip, events), q) ↦ elim (Bool-cases (Addr.is_valid ip)) [
          | inl e ↦
              enqueue-IsAnswering ip (record s { answerable = solicit m host s.answerable })
                (rw (k, q, e, step_listen) at h) (handle-mem env m host s.answerable q e c.0)
                (heard-IsAnswering m host s c)
          | inr e ↦ rw (← some_inj (rw (k, q, e, step_listen) at h)) (heard-IsAnswering m host s c)
        ]
        | inr (inl (x, q)) ↦
            rw (← some_inj (rw (k, q, step_listen) at h)) (heard-IsAnswering m host s c)
        | inr (inr q) ↦ cc (rw (k, q, step_listen) at h)
      ]

  schedule-IsAnswering :
      (draw : ℕ) (s : State) {t : State}
      → step_schedule a min_delay draw s ≡ some t
      → IsAnswering s
      → IsAnswering t
  unfolding step_schedule
  schedule-IsAnswering draw s {t} h (n, k, p, w) = elim (List-cases s.queue) [
    | inl e ↦ cc (rw e at h)
    | inr (x, rest, e) ↦ elim (Bool-cases (ltb draw max_ra_delay)) [
      | inr d ↦ cc (rw (e, d) at h)
      | inl d ↦ elim (Result-cases (schedule_request min_delay draw s.last_multicast s.now x)) [
        | inl ((last, due), q) ↦
            let (m, k') = subst (All (λ ip. Memᴰ ip s.answerable)) e k in
            rw (← some_inj (rw (e, d, q) at h)) (
              n,
              k',
              All-append (λ e. Memᴰ e.1 s.answerable) s.pending ((due, x) ∷ []) p (m, tt),
              w,
            )
        | inr (inl (y, q)) ↦ cc (rw (e, d, q) at h)
        | inr (inr q) ↦ cc (rw (e, d, q) at h)
      ]
    ]
  ]

  pub sent-IsAnswer :
      (env : Environment) (s : State) (x : Addr) {ws : List Written}
      → send env x a.cfg ≡ ok ws
      → Memᴰ x s.answerable
      → All (IsAnswer s) ws
  sent-IsAnswer env s x {ws} h m = elim (send_lem env x a.cfg h) [
    | inl (blocked, e) ↦ rw e tt
    | inr (open_, ra, b, w, e) ↦ rw e ((open_, m), tt)
  ]

  work-IsAnswering :
      (n : ℕ) (env : Environment) (s : State) {t : State}
      → step_work a min_delay n env s ≡ some t
      → IsAnswering s
      → IsAnswering t
  unfolding step_work fail
  work-IsAnswering n env s {t} h (m, k, p, w) = elim (Option-cases (take_out n s.pending)) [
    | inl e ↦ cc (rw (e, step_work) at h)
    | inr (((due, x), others), e) ↦
        let (y, p') = All-take_out (λ e. Memᴰ e.1 s.answerable) n s.pending e p in
        elim (Bool-cases (ltb_ℤ s.now due)) [
          | inl d ↦ cc (rw (e, d, step_work) at h)
          | inr d ↦ elim (Result-cases (send env x a.cfg)) [
            | inl (ws, q) ↦
                rw (← some_inj (rw (e, d, q, step_work) at h))
                  (m, k, p', All-append (IsAnswer s) ws s.written (sent-IsAnswer env s x q y) w)
            | inr (inl (z, q)) ↦ rw (← some_inj (rw (e, d, q, step_work) at h)) (m, k, p', w)
            | inr (inr q) ↦ cc (rw (e, d, q, step_work) at h)
          ]
        ]
  ]

  step-IsAnswering :
      (m : Move) (s t : State) → step a min_delay m s ≡ some t → IsAnswering s → IsAnswering t
  unfolding step
  step-IsAnswering (tick n) s t h c = rw (← some_inj (running a min_delay s.stopped h)) c
  step-IsAnswering (multicast draw) s t h c =
      multicast-IsAnswering draw s (running a min_delay s.stopped h) c
  step-IsAnswering (listen env m host) s t h c =
      listen-IsAnswering env m host s (running a min_delay s.stopped h) c
  step-IsAnswering (schedule draw) s t h c =
      schedule-IsAnswering draw s (running a min_delay s.stopped h) c
  step-IsAnswering (work n env) s t h c =
      work-IsAnswering n env s (running a min_delay s.stopped h) c
  step-IsAnswering stop s t h c = rw (← some_inj (running a min_delay s.stopped h)) c

  -- In every state that the goroutines reach, each advertisement that they have written went to all
  -- nodes or to the specified host of a router solicitation that was handled, and, in unicast-only mode,
  -- to no multicast address.
  pub Reach-IsAnswering :
      (now : ℤ) {s : State} → Reach a min_delay (start now) s → All (IsAnswer s) s.written
  Reach-IsAnswering now r =
      (Reach-kept a min_delay IsAnswering step-IsAnswering r (Memᴰ.head refl, tt, tt, tt)).3

  pub Reach-answerable :
      (now : ℤ) {s : State} → Reach a min_delay (start now) s → Memᴰ all_nodes s.answerable
  Reach-answerable now r =
      (Reach-kept a min_delay IsAnswering step-IsAnswering r (Memᴰ.head refl, tt, tt, tt)).0
