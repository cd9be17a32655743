-- ===== src/Advertiser/Goroutines.antt =====
-- The goroutines that advertise starts (internal/corerad/advertise.go): multicast, the listener, schedule
-- and its workers, which share the channel ipC, as moves on one state.
pub mod Conserved
pub mod Answered
pub mod Due
pub mod Drained
pub mod Stopping
use corerad.Common.{
  ℕ, zero, suc, ◌≡◌, subst, some_inj, Option-cases, inl, inr, Bool, true, false, not, ◌&&◌, ◌||◌,
  List, [], ◌∷◌, ◌++◌, Option, some, none, Result, ok, err, panic, length, ltb, if◌then◌else◌,
}
use corerad.Common.Int.{ℤ, pos, ◌+ℤ◌, ltb_ℤ}
use corerad.Netip.Addr
use corerad.Netip.Addr.{Addr, all_nodes}
use corerad.Ndp.{RouterAdvertisement}
use corerad.Advertiser.Timing.{multicast_delay, schedule_request, max_ra_delay}
use corerad.Advertiser.Messages.{
  Message, router_solicitation, router_advertisement, other, Advertiser, AdvertiserError,
  Environment, handle, send,
}

-- The capacity of ipC.
abbrev pub capacity : ℕ
capacity = 16

abbrev pub Written : Type 0
Written = RouterAdvertisement × Addr

pub record State : Type 0 where
  pub now : ℤ
  -- The addresses in ipC.
  pub queue : List Addr
  -- The tasks of the group of workers: when each is due, and its address.
  pub pending : List (ℤ × Addr)
  pub last_multicast : ℤ
  -- The number of addresses that multicast has sent, and when it sends the next.
  pub rounds : ℕ
  pub wake : ℤ
  pub written : List Written
  -- An error that ends the goroutines, or their cancellation.
  pub failed : Option AdvertiserError
  -- The error of the listener's function. Listen handles no more messages then, and returns it once
  -- the goroutines have ended.
  pub handler_error : Option AdvertiserError
  pub stopped : Bool
  -- What no code reads: the addresses that entered ipC, and those that may be answered, which are all
  -- nodes and the specified hosts of the router solicitations so far.
  pub requested : List Addr
  pub answerable : List Addr

-- When advertise is called.
abbrev pub start : ℤ → State
start now = record {
  now = now;
  queue = [];
  pending = [];
  last_multicast = now;
  rounds = 0;
  wake = now;
  written = [];
  failed = none;
  handler_error = none;
  stopped = false;
  requested = [];
  answerable = all_nodes ∷ [];
}

-- The moves: time passes; multicast sends to ipC; the listener handles a message; schedule takes an
-- address; worker number `n` sends; the context is cancelled or the link changes.
-- The numbers are random draws, and the environments what the system answers at that moment.
pub data Move : Type 0 where
  tick : ℕ → Move
  multicast : ℕ → Move
  listen : Environment → Message → Addr → Move
  schedule : ℕ → Move
  work : ℕ → Environment → Move
  stop : Move

-- Element number `n` of a list, and the others.
unfoldable pub take_out {ℓ} : {A : Type ℓ} → ℕ → List A → Option (A × List A)
take_out n [] = none
take_out zero (x ∷ xs) = some (x, xs)
take_out (suc n) (x ∷ xs) = elim (take_out n xs) [ none ↦ none | some (y, ys) ↦ some (y, x ∷ ys) ]

-- A send to ipC, which waits while the channel is full.
unfoldable pub enqueue : Addr → State → Option State
enqueue ip s =
    if ltb (length s.queue) capacity
    then some (record s { queue = s.queue ++ (ip ∷ []); requested = ip ∷ s.requested })
    else none

unfoldable pub fail : AdvertiserError → State → State
fail e s = record s { failed = some e; stopped = true }

-- The host that a message lets the program answer.
abbrev pub solicit : Message → Addr → List Addr → List Addr
solicit (router_solicitation os) host answerable =
    if Addr.is_unspecified host then answerable else host ∷ answerable
solicit m host answerable = answerable

module _ (a : Advertiser) (min_delay : ℤ) where
  unfoldable pub step_multicast : ℕ → State → Option State
  step_multicast draw s =
      if a.cfg.unicast_only || ltb_ℤ s.now s.wake then none else elim (enqueue all_nodes s) [
        | none ↦ none
        | some t ↦ elim (multicast_delay draw s.rounds a.cfg.min_interval a.cfg.max_interval) [
          | ok delay ↦ some (record t { rounds = suc s.rounds; wake = s.now +ℤ delay })
          | err e ↦ none
          | panic ↦ none
        ]
      ]

  -- The function that the listener calls with a message.
  unfoldable pub step_listen : Environment → Message → Addr → State → Option State
  step_listen env m host s =
      let heard = record s { answerable = solicit m host s.answerable } in
      elim s.handler_error [
        | some e ↦ none
        | none ↦ elim (handle env a m host) [
          | ok (ip, events) ↦ if Addr.is_valid ip then enqueue ip heard else some heard
          | err e ↦ some (record heard { handler_error = some e })
          | panic ↦ none
        ]
      ]

  pub step_listen-hears :
      (env : Environment) (m : Message) (host : Addr) (s : State) {t : State}
      → step_listen env m host s ≡ some t
      → s.handler_error ≡ none
  unfolding step_listen
  step_listen-hears env m host s h = elim (Option-cases s.handler_error) [
    | inl k ↦ k
    | inr (e, k) ↦ cc (rw (k, step_listen) at h)
  ]

  unfoldable pub step_schedule : ℕ → State → Option State
  step_schedule draw s = elim s.queue [
    | [] ↦ none
    | ip ∷ rest ↦
        if not (ltb draw max_ra_delay)
        then none
        else elim (schedule_request min_delay draw s.last_multicast s.now ip) [
          | ok (last, due) ↦ some (record s {
            queue = rest;
            pending = s.pending ++ ((due, ip) ∷ []);
            last_multicast = last;
          })
          | err e ↦ none
          | panic ↦ none
        ]
  ]

  -- sendWorker, whose error schedule receives from errC.
  unfoldable pub step_work : ℕ → Environment → State → Option State
  step_work n env s = elim (take_out n s.pending) [
    | none ↦ none
    | some ((due, ip), others) ↦ if ltb_ℤ s.now due then none else elim (send env ip a.cfg) [
      | ok ws ↦ some (record s { pending = others; written = ws ++ s.written })
      | err e ↦ some (fail e (record s { pending = others }))
      | panic ↦ none
    ]
  ]

  -- One move, or `none` where it is not possible.
  unfoldable pub step : Move → State → Option State
  step (tick n) s = if s.stopped then none else some (record s { now = s.now +ℤ pos n })
  step (multicast draw) s = if s.stopped then none else step_multicast draw s
  step (listen env m host) s = if s.stopped then none else step_listen env m host s
  step (schedule draw) s = if s.stopped then none else step_schedule draw s
  step (work n env) s = if s.stopped then none else step_work n env s
  step stop s = if s.stopped then none else some (record s { stopped = true })

  -- The states that moves lead to.
  pub data Reach (from : State) : State → Type 0 where
    here : Reach from from
    move : (m : Move) {s t : State} → Reach from s → step m s ≡ some t → Reach from t

  -- What holds of a state and is kept by every move holds of the states that it leads to.
  pub Reach-kept :
      (P : State → Type 0) (kept : (m : Move) (s t : State) → step m s ≡ some t → P s → P t)
      {from s : State}
      → Reach from s
      → P from
      → P s
  Reach-kept P kept here h = h
  Reach-kept P kept (move m r e) h = kept m _ _ e (Reach-kept P kept r h)

  unfoldable pub run : List Move → State → Option State
  run [] s = some s
  run (m ∷ ms) s = elim (step m s) [ none ↦ none | some t ↦ run ms t ]

  run-Reach-from :
      (ms : List Move) {from s t : State} → Reach from s → run ms s ≡ some t → Reach from t
  unfolding run
  run-Reach-from [] {from} r h = subst (Reach from) (some_inj h) r
  run-Reach-from (m ∷ ms) {s = s} r h = elim (Option-cases (step m s)) [
    | inl e ↦ cc (rw (e, run) at h)
    | inr (u, e) ↦ run-Reach-from ms (move m r e) (rw (e, run) at h)
  ]

  -- The state that a sequence of moves leads to is one that moves lead to.
  pub run-Reach : (ms : List Move) {s t : State} → run ms s ≡ some t → Reach s t
  run-Reach ms h = run-Reach-from ms here h
