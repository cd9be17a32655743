-- ===== src/Plugin/Pref64.antt =====
-- NewPREF64: the lifetime of a NAT64 prefix from the maximum interval.
use corerad.Common.{
  ℕ, suc, ◌+◌, ◌-◌, ◌*◌, ◌/◌, ◌%◌, ◌≤◌, ◌<◌, ◌≡◌, ap, ◌⊎◌, arith, ltb, if◌then◌else◌,
}
use corerad.Common.Int.{ℤ, pos, negsuc, sub_ℕ}
use corerad.Netip.Prefix.{Prefix}
use corerad.Ndp.{Pref64}

-- time.Second, in nanoseconds.
abbrev pub second : ℕ
second = 1000000000

-- maxPref64Lifetime, in seconds.
abbrev pub max_pref64_seconds : ℕ
max_pref64_seconds = 65528

-- `n` rounded up to a multiple of 8.
round_up : ℕ → ℕ
round_up n = if ltb 0 (n % 8) then n + (8 - n % 8) else n

-- The lifetime, in seconds, for a maximum interval of whole seconds that is not negative.
scaled : ℕ → ℕ
unfolding round_up
scaled secs = if ltb (secs * 3) max_pref64_seconds then round_up (secs * 3) else max_pref64_seconds

-- int(d.Seconds()) drops the fraction. The remainder of a negative number is not positive, so a
-- negative lifetime is not rounded.
unfoldable pub new_pref64 : Prefix → ℤ → Pref64
unfolding scaled
new_pref64 prefix (pos n) = record {
  prefix = prefix;
  lifetime = pos (scaled (n / second) * second);
}
new_pref64 prefix (negsuc n) = record {
  prefix = prefix;
  lifetime = sub_ℕ 0 (suc n / second * 3 * second);
}

scaled-div : (s : ℕ) → scaled s ≡ 8 * (scaled s / 8)
unfolding scaled
scaled-div s = ground arith

scaled_bounds :
    (s : ℕ)
    → (scaled s / 8 ≤ 8191)
      × (((s * 3 ≤ 8 * (scaled s / 8)) × (8 * (scaled s / 8) < s * 3 + 8))
          ⊎ ((scaled s / 8 ≡ 8191) × (65528 ≤ s * 3)))
unfolding scaled
scaled_bounds s = ground arith

-- For a maximum interval of `n` nanoseconds the lifetime is a whole number of units of 8 seconds,
-- and is the least one that reaches three times the interval in whole seconds, or the largest that
-- the option can carry if there is none.
pub new_pref64_lem :
    (prefix : Prefix) (n : ℕ)
    → (k : ℕ) × ((new_pref64 prefix (pos n)).lifetime ≡ pos (8 * k * second))
      × (k ≤ 8191)
      × (((n / second * 3 ≤ 8 * k) × (8 * k < n / second * 3 + 8))
          ⊎ ((k ≡ 8191) × (65528 ≤ n / second * 3)))
unfolding new_pref64
new_pref64_lem prefix n = (
  scaled (n / second) / 8,
  ap (λ (m : ℕ). pos (m * second)) (scaled-div (n / second)),
  (scaled_bounds (n / second)).0,
  (scaled_bounds (n / second)).1,
)
