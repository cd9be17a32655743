-- ===== src/Advertiser/Timing.antt =====
-- When advertisements are sent (multicastDelay and schedule in internal/corerad/advertise.go).
use corerad.Common.{
  ℕ, suc, ◌+◌, ◌-◌, ◌*◌, ◌/◌, ◌%◌, ◌≤◌, ◌<◌, ◌≡◌, ◌⊎◌, ◌↔◌, sym, subst, inl, inr, ◌∙◌, ap, true,
  not, ◌&&◌, arith, ltb, eqb, if◌then◌else◌, Result, ok, panic, ◌>>=◌, ◌==◌,
}
use corerad.Common.Int.{ℤ, pos, negsuc, sub_ℕ, ◌+ℤ◌, ◌-ℤ◌, ◌≤ℤ◌, ◌<ℤ◌, ltb_ℤ, int_eq, int_laws}
use corerad.Netip.Addr
use corerad.Netip.Addr.{Addr}

abbrev pub second : ℕ
second = 1000000000

-- 16 * time.Second.
abbrev pub max_initial_adv_interval : ℤ
max_initial_adv_interval = pos 16000000000

abbrev pub max_initial_adv : ℕ
max_initial_adv = 3

-- 500 * time.Millisecond.
abbrev pub max_ra_delay : ℕ
max_ra_delay = 500000000

-- Duration.Round(time.Second): to the nearest second, halves away from zero.
round_nat : ℕ → ℕ
round_nat n =
    if ltb (n % second + n % second) second then n - n % second else n + (second - n % second)

unfoldable pub round : ℤ → ℤ
unfolding round_nat
round (pos n) = pos (round_nat n)
round (negsuc n) = sub_ℕ 0 (round_nat (suc n))

-- The draw of Int63n(n), which panics unless n is positive.
unfoldable pub int63n : ℕ → ℤ → Result (Unit {0}) ℤ
int63n draw n = if ltb_ℤ (pos 0) n then ok (pos draw) else panic

-- `draw` is what the generator returns.
unfoldable pub multicast_delay : ℕ → ℕ → ℤ → ℤ → Result (Unit {0}) ℤ
multicast_delay draw i min max = do
  d ← if min == max then ok (round max) else do j ← int63n draw (max -ℤ min); ok (round (min +ℤ j))
  ok (
      if ltb i max_initial_adv && ltb_ℤ max_initial_adv_interval d
      then max_initial_adv_interval
      else d)

round_nat_bounds :
    (n : ℕ)
    → (round_nat n ≡ round_nat n / second * second)
      × (2 * n ≤ 2 * round_nat n + second)
      × (2 * round_nat n ≤ 2 * n + second)
unfolding round_nat
round_nat_bounds n = ground arith

abbrev capped : ℕ → ℕ → ℕ
capped i d = if ltb i 3 && ltb 16000000000 d then 16000000000 else d

multicast_delay_lem :
    (draw i min max : ℕ)
    → min ≤ max
    → (draw < max - min) ⊎ (min ≡ max)
    → multicast_delay draw i (pos min) (pos max)
      ≡ ok (pos (capped i (round_nat (if eqb min max then max else min + draw))))
unfolding multicast_delay int63n round ◌+ℤ◌ ◌-ℤ◌
multicast_delay_lem draw i min max le d = ground arith

cut : ℕ → ℕ → ℕ
cut i k = if ltb i 3 && ltb 16 k then 16 else k

capped_bounds :
    (i m k : ℕ)
    → m ≡ k * second
    → (capped i m ≡ cut i k * second)
      × (cut i k * second ≤ m)
      × (i < 3 → cut i k ≤ 16)
      × ((cut i k * second ≡ m) ⊎ ((i < 3) × (cut i k ≡ 16)))
unfolding cut
capped_bounds i m k h = ground arith

-- For intervals `min` ≤ `max` and a draw that Int63n can return, or equal intervals, the delay is
-- defined, is a whole number of seconds and at most half a second above `max`; it is at most 16
-- seconds after each of the first three requests, and it is at most half a second below `min`
-- unless those 16 seconds cut it short.
pub multicast_delay_bounds :
    (draw i min max : ℕ)
    → min ≤ max
    → (draw < max - min) ⊎ (min ≡ max)
    → (k : ℕ) × (multicast_delay draw i (pos min) (pos max) ≡ ok (pos (k * second)))
      × (2 * (k * second) ≤ 2 * max + second)
      × ((i < 3) → k ≤ 16)
      × ((2 * min ≤ 2 * (k * second) + second) ⊎ ((i < 3) × (k ≡ 16)))
multicast_delay_bounds draw i min max le d =
    let n = if eqb min max then max else min + draw in
    let (r, lo, hi) = round_nat_bounds n in
    let (a, b, c, d') = capped_bounds i (round_nat n) (round_nat n / second) r in
    let n_low : min ≤ n = ground arith in
    let n_high : n ≤ max = ground arith in
    (
      cut i (round_nat n / second),
      multicast_delay_lem draw i min max le d ∙ ap (λ (m : ℕ). ok (pos m)) a,
      omega arith,
      c,
      elim d' [ inl e ↦ inl (omega arith) | inr z ↦ inr z ],
    )

-- One turn of the loop for a request: the time of the last multicast request, and the time at
-- which the advertisement is sent. `now` stands for the readings of the clock in this turn.
unfoldable pub schedule_request : ℤ → ℕ → ℤ → ℤ → Addr → Result (Unit {0}) (ℤ × ℤ)
schedule_request min_delay draw last_multicast now ip =
    if not (Addr.is_multicast ip)
    then (int63n draw (pos max_ra_delay) >>= λ delay. ok (last_multicast, now +ℤ delay))
    else ok (now, now +ℤ (if ltb_ℤ (now -ℤ last_multicast) min_delay then min_delay else pos 0))

abbrev pub wait : ℤ → ℤ → ℤ
wait since min_delay = if ltb_ℤ since min_delay then min_delay else pos 0

wait-late : (s d : ℤ) → d ≤ℤ s → wait s d ≡ pos 0
wait-late s d h = ground arith

pub wait_cases : (s d : ℤ) → ((s <ℤ d) × (wait s d ≡ d)) ⊎ ((d ≤ℤ s) × (wait s d ≡ pos 0))
wait_cases s d = ground arith

wait-reaches : (d t1 t2 : ℤ) → t1 ≤ℤ t2 → t1 +ℤ d ≤ℤ t2 +ℤ wait (t2 -ℤ t1) d
wait-reaches d t1 t2 t = elim (wait_cases (t2 -ℤ t1) d) [
  | inl (a, e) ↦ subst (λ x. t1 +ℤ d ≤ℤ t2 +ℤ x) (sym e) (omega int_laws)
  | inr (a, e) ↦ subst (λ x. t1 +ℤ d ≤ℤ t2 +ℤ x) (sym e) (omega int_laws)
]

close_iff :
    (d last t1 t2 : ℤ)
    → pos 0 <ℤ d
    → t1 ≤ℤ t2
    → (t2 +ℤ wait (t2 -ℤ t1) d <ℤ t1 +ℤ wait (t1 -ℤ last) d +ℤ d)
      ↔ ((t1 -ℤ last <ℤ d) × (t2 -ℤ t1 <ℤ d +ℤ d))
close_iff d last t1 t2 p t = elim (wait_cases (t2 -ℤ t1) d) [
  | inl (a, e) ↦ elim (wait_cases (t1 -ℤ last) d) [
    | inl (b, f) ↦ rw (e, f) (λ h. (b, omega int_laws), λ h. omega int_laws)
    | inr (b, f) ↦ rw (e, f) (λ h. absurd (omega int_laws), λ h. absurd (omega (int_laws, h.0)))
  ]
  | inr (a, e) ↦ elim (wait_cases (t1 -ℤ last) d) [
    | inl (b, f) ↦ rw (e, f) (λ h. (b, omega int_laws), λ h. omega (int_laws, h.1))
    | inr (b, f) ↦ rw (e, f) (λ h. absurd (omega int_laws), λ h. absurd (omega (int_laws, h.0)))
  ]
]

add_zero : (t : ℤ) → t +ℤ pos 0 ≡ t
add_zero t = omega int_laws

pub multicast_request :
    (min_delay last now : ℤ) (draw : ℕ) (ip : Addr) {l s : ℤ}
    → Addr.is_multicast ip ≡ true
    → schedule_request min_delay draw last now ip ≡ ok (l, s)
    → (l ≡ now) × (s ≡ now +ℤ wait (now -ℤ last) min_delay)
unfolding schedule_request
multicast_request min_delay last now draw ip m h = ground arith

module _ (min_delay last t1 t2 : ℤ) (d1 d2 : ℕ) (ip1 ip2 : Addr) where
  -- Of two multicast requests, one after the other, the second advertisement is sent no sooner than
  -- the minimum delay after the first request; so where the first was sent at once, it is sent no
  -- sooner than that delay after the first advertisement.
  pub schedule_request_spaced :
      {l1 s1 l2 s2 : ℤ}
      → t1 ≤ℤ t2
      → Addr.is_multicast ip1 ≡ true
      → Addr.is_multicast ip2 ≡ true
      → schedule_request min_delay d1 last t1 ip1 ≡ ok (l1, s1)
      → schedule_request min_delay d2 l1 t2 ip2 ≡ ok (l2, s2)
      → (t1 +ℤ min_delay ≤ℤ s2) × (min_delay ≤ℤ t1 -ℤ last → s1 +ℤ min_delay ≤ℤ s2)
  schedule_request_spaced {s2 = s2} t m1 m2 h1 h2 =
      let (l, e1) = multicast_request min_delay last t1 d1 ip1 m1 h1 in
      let (_, e2) = multicast_request min_delay _ t2 d2 ip2 m2 h2 in
      let r : t1 +ℤ min_delay ≤ℤ s2 =
        subst (λ x. t1 +ℤ min_delay ≤ℤ x) (sym e2)
          (subst (λ x. t1 +ℤ min_delay ≤ℤ t2 +ℤ wait (t2 -ℤ x) min_delay) (sym l)
            (wait-reaches min_delay t1 t2 t)) in
      (
        r,
        λ n.
            subst (λ x. x +ℤ min_delay ≤ℤ s2)
              (sym (e1 ∙ ap (λ x. t1 +ℤ x) (wait-late _ min_delay n) ∙ add_zero t1)) r,
      )

  -- For a positive minimum delay, and two multicast requests, one after the other, the second
  -- advertisement is sent sooner than that delay after the first one exactly where the first was
  -- delayed, because it came sooner than the delay after the request before it, and the second
  -- request came sooner than twice the delay after the first.
  pub schedule_request_close :
      {l1 s1 l2 s2 : ℤ}
      → pos 0 <ℤ min_delay
      → t1 ≤ℤ t2
      → Addr.is_multicast ip1 ≡ true
      → Addr.is_multicast ip2 ≡ true
      → schedule_request min_delay d1 last t1 ip1 ≡ ok (l1, s1)
      → schedule_request min_delay d2 l1 t2 ip2 ≡ ok (l2, s2)
      → (s2 <ℤ s1 +ℤ min_delay) ↔ ((t1 -ℤ last <ℤ min_delay) × (t2 -ℤ t1 <ℤ min_delay +ℤ min_delay))
  schedule_request_close {s1 = s1} {s2 = s2} p t m1 m2 h1 h2 =
      let (l, e1) = multicast_request min_delay last t1 d1 ip1 m1 h1 in
      let (_, e2) = multicast_request min_delay _ t2 d2 ip2 m2 h2 in
      let e : s2 ≡ t2 +ℤ wait (t2 -ℤ t1) min_delay =
        e2 ∙ ap (λ x. t2 +ℤ wait (t2 -ℤ x) min_delay) l in
      rw (e, e1) (close_iff min_delay last t1 t2 p t)
