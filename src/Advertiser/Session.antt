-- ===== src/Advertiser/Session.antt =====
-- What the Advertiser does with one connection: the function that Run passes to Dialer.Dial
-- (internal/corerad/advertise.go).
use corerad.Common.{
  ◌≡◌, inl, inr, refl, List, [], ◌++◌, Option, some, none, Result, ok, err, panic, All, All-append,
  Memᴰ, Result-cases, Bool-cases, ok_inj,
}
use corerad.Common.Int.{ℤ, pos}
use corerad.Netip.Addr.{all_nodes}
use corerad.System.{Error}
use corerad.System.Dialer.{DialError, other}
use corerad.Advertiser.Messages.{Advertiser, Environment, send, shutdown, send_lem}
use corerad.Advertiser.Goroutines.{State, Written, start, Reach}
use corerad.Advertiser.Goroutines.Answered.{
  IsAnswer, Reach-IsAnswering, sent-IsAnswer, Reach-answerable,
}

-- How advertise ends: with the error of a cancelled context, or with another.
pub data Ending : Type 0 where
  canceled : Ending
  ended : DialError → Ending

-- What the function returns, and what was written on the connection, the last first.
pub record Session : Type 0 where
  pub result : Option DialError
  pub written : List Written

-- The error of shutdown's last send is only logged; `final` is the system at that moment.
unfoldable pub finish : Advertiser → Environment → List Written → Result Error Session
finish a final written = elim (shutdown final a) [
  | ok ws ↦ ok (record { result = none; written = ws ++ written })
  | err e ↦ ok (record { result = none; written = written })
  | panic ↦ panic
]

-- The error of a Prepare, if one failed, the system at the first send and at the shutdown, and what
-- advertise wrote and how it ended.
unfoldable pub session :
    Advertiser
    → Option Error
    → Environment
    → Environment
    → List Written
    → Ending
    → Result Error Session
session a (some e) first final during ending =
    ok (record { result = some (other "failed to prepare plugin"); written = [] })
session a none first final during ending = elim (send first all_nodes a.cfg) [
  | err e ↦ ok (record {
    result = some (other "failed to send initial multicast router advertisement");
    written = [];
  })
  | panic ↦ panic
  | ok ws ↦ elim ending [
    | canceled ↦ finish a final (during ++ ws)
    | ended e ↦ ok (record { result = some e; written = during ++ ws })
  ]
]

module _ (a : Advertiser) (min_delay : ℤ) where
  -- Shutdown writes nothing, or as send does for the interface with a router lifetime of zero.
  shutdown-IsAnswer :
      (env : Environment) (s : State) {ws : List Written}
      → Memᴰ all_nodes s.answerable
      → shutdown env a ≡ ok ws
      → All (IsAnswer a min_delay s) ws
  unfolding shutdown
  shutdown-IsAnswer env s {ws} m h = elim (Bool-cases a.terminate) [
    | inr e ↦ rw (← ok_inj (rw e at h)) tt
    | inl e ↦
        elim (send_lem env all_nodes (record a.cfg { default_lifetime = pos 0 }) (rw e at h)) [
          | inl (blocked, q) ↦ rw q tt
          | inr (open_, ra, b, w, q) ↦ rw q ((open_, m), tt)
        ]
  ]

  finish-IsAnswer :
      (final : Environment) (s : State) (written : List Written) {r : Session}
      → Memᴰ all_nodes s.answerable
      → All (IsAnswer a min_delay s) written
      → finish a final written ≡ ok r
      → All (IsAnswer a min_delay s) r.written
  unfolding finish
  finish-IsAnswer final s written {r} m w h = elim (Result-cases (shutdown final a)) [
    | inl (ws, e) ↦
        rw (← ok_inj (rw (e, finish) at h))
          (All-append (IsAnswer a min_delay s) ws written (shutdown-IsAnswer final s m e) w)
    | inr (inl (x, e)) ↦ rw (← ok_inj (rw (e, finish) at h)) w
    | inr (inr e) ↦ cc (rw (e, finish) at h)
  ]

  session_ending :
      (final : Environment) (s : State) (ws : List Written) (ending : Ending) {r : Session}
      → All (IsAnswer a min_delay s) (s.written ++ ws)
      → Memᴰ all_nodes s.answerable
      → elim ending [
        | canceled ↦ finish a final (s.written ++ ws)
        | ended e ↦ ok (record { result = some e; written = s.written ++ ws })
      ]
        ≡ ok r
      → All (IsAnswer a min_delay s) r.written × (r.result ≡ none → ending ≡ canceled)
  session_ending final s ws canceled w m h =
      (finish-IsAnswer final s (s.written ++ ws) m w h, λ n. refl)
  session_ending final s ws (ended e) w m h = rw (← ok_inj h) (w, λ n. cc)

  -- Where advertise has written what its goroutines had written in a state that they reach, every
  -- advertisement of the whole use of a connection, the first one and the final one included, goes to all
  -- nodes or to the specified host of a router solicitation that was handled, and, in unicast-only
  -- mode, to no multicast address; and the function returns nil only where the context was cancelled.
  pub session-IsAnswer :
      (now : ℤ) {s : State} (prepared : Option Error) (first final : Environment) (ending : Ending)
      {r : Session}
      → Reach a min_delay (start now) s
      → session a prepared first final s.written ending ≡ ok r
      → All (IsAnswer a min_delay s) r.written × (r.result ≡ none → ending ≡ canceled)
  unfolding session
  session-IsAnswer now {s} (some e) first final ending {r} reach h = rw (← ok_inj h) (tt, λ n. cc)
  session-IsAnswer now {s} none first final ending {r} reach h =
      let m = Reach-answerable a min_delay now reach in
      let during = Reach-IsAnswering a min_delay now reach in
      elim (Result-cases (send first all_nodes a.cfg)) [
        | inr (inl (x, e)) ↦ rw (← ok_inj (rw (e, session) at h)) (tt, λ n. cc)
        | inr (inr e) ↦ cc (rw (e, session) at h)
        | inl (ws, e) ↦
            let all_written =
              All-append (IsAnswer a min_delay s) s.written ws during
                (sent-IsAnswer a min_delay first s all_nodes e m) in
            session_ending final s ws ending all_written m (rw (e, session) at h)
      ]
