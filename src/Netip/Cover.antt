-- ===== src/Netip/Cover.antt =====
-- How CIDR prefixes nest: what a longer prefix contains, a shorter one that covers it contains.
use native.Mathlib.Nat.{zero-add, suc-add}
use corerad.Common.{ℕ, zero, suc, ◌+◌, ◌-◌, ◌/◌, ◌≤◌, ◌<◌, ◌≡◌, ap, subst, true, arith}
use corerad.Netip.Addr.{Addr, shr}
use corerad.Netip.Prefix.{Prefix}
use corerad.Netip.Prefix

shr_more : (d k a b : ℕ) → shr a k ≡ shr b k → shr a (d + k) ≡ shr b (d + k)
unfolding shr
shr_more zero k a b h = rw zero-add h
shr_more (suc d) k a b h = rw suc-add (ap (λ (n : ℕ). n / 2) (shr_more d k a b h))

shr_coarser : (j k a b : ℕ) → k ≤ j → shr a k ≡ shr b k → shr a j ≡ shr b j
shr_coarser j k a b le h = subst (λ n. shr a n ≡ shr b n) (omega arith) (shr_more (j - k) k a b h)

pub contains_trans :
    (p q : Prefix) (a : Addr)
    → p.bits_plus_one < q.bits_plus_one
    → Prefix.contains p q.ip ≡ true
    → Prefix.contains q a ≡ true
    → Prefix.contains p a ≡ true
unfolding Prefix.contains
contains_trans p q a lt h k = ground (
  arith,
  shr_coarser (suc a.bit_len - p.bits_plus_one) (suc a.bit_len - q.bits_plus_one) a.value
      q.ip.value,
)
