-- ===== src/Netip/Prefix.antt =====
-- netip.Prefix: an address without a zone and its length plus one, with 0 for an invalid prefix.
use native.Mathlib.Nat.{min_comm}
use corerad.Common.{
  ℕ, ◌%◌, list_eq, beq_comm, bool_beq, suc, ◌+◌, ◌-◌, ◌≡◌, ◌↔◌, Bool, true, ◌&&◌, ◌||◌, not, [],
  arith, ltb, leb, min, ◌==◌, Eq, nat_eq, if◌then◌else◌,
}
use corerad.Netip.Addr.{Addr, addr_eq, addr_beq_iff, none_addr, v6, shr, shl, is4}

pub record Prefix : Type 0 where
  pub ip : Addr
  pub bits_plus_one : ℕ

abbrev pub prefix_beq : Prefix → Prefix → Bool
prefix_beq p q = p.ip == q.ip && p.bits_plus_one == q.bits_plus_one

pub prefix_beq_iff : (p q : Prefix) → (prefix_beq p q ≡ true) ↔ (p ≡ q)
prefix_beq_iff p q =
    (λ h. ground (arith, addr_beq_iff p.ip q.ip), λ h. ground (arith, addr_beq_iff p.ip q.ip))

instance abbrev pub prefix_eq : Eq Prefix
prefix_eq = record { beq = prefix_beq; beq_iff = prefix_beq_iff }

-- The zero Prefix{}.
abbrev pub none_prefix : Prefix
none_prefix = record { ip = none_addr; bits_plus_one = 0 }

-- Go's untyped IPv6 literals, such as netip.MustParsePrefix("::/64").
abbrev pub prefix6 : ℕ → ℕ → Prefix
prefix6 n bits = record { ip = v6 n; bits_plus_one = suc bits }

unfoldable pub is_valid : Prefix → Bool
is_valid p = ltb 0 p.bits_plus_one

-- PrefixFrom(ip, bits) drops the zone; a length that the address does not have is invalid.
unfoldable pub prefix_from : Addr → ℕ → Prefix
prefix_from a bits = record {
  ip = record a { zone = [] };
  bits_plus_one = if ltb 0 a.bit_len && leb bits a.bit_len then suc bits else 0;
}

-- p.Bits() == n, where Bits() is -1 for an invalid prefix.
unfoldable pub has_bits : Prefix → ℕ → Bool
has_bits p n = p.bits_plus_one == suc n

-- uint8(p.Bits()).
unfoldable pub bits_u8 : Prefix → ℕ
bits_u8 p = (p.bits_plus_one + 255) % 256

unfoldable pub is_single_ip : Prefix → Bool
is_single_ip p = ltb 0 p.bits_plus_one && p.bits_plus_one == suc p.ip.bit_len

-- The address with all but its first `bits` bits cleared.
unfoldable pub mask : Addr → ℕ → Addr
unfolding shr shl
mask a bits = record a {
  value = shl (shr a.value (a.bit_len - bits)) (a.bit_len - bits);
  zone = [];
}

unfoldable pub masked : Prefix → Prefix
unfolding is_valid mask
masked p = if is_valid p then record p { ip = mask p.ip (p.bits_plus_one - 1) } else none_prefix

-- p.Contains(a): the first Bits() bits agree.
unfoldable pub contains : Prefix → Addr → Bool
unfolding is_valid shr
contains p a =
    is_valid p
    && a.zone == []
    && not (a.bit_len == 0)
    && p.ip.bit_len == a.bit_len
    && shr a.value (suc a.bit_len - p.bits_plus_one)
      == shr p.ip.value (suc a.bit_len - p.bits_plus_one)

same_net : Addr → Addr → ℕ → Bool
unfolding mask
same_net a b n = n == 0 || mask a n == mask b n

unfoldable pub overlaps : Prefix → Prefix → Bool
unfolding is_valid is4 same_net
overlaps p q =
    is_valid p
    && is_valid q
    && (p == q
        || (bool_beq (is4 p.ip) (is4 q.ip)
            && same_net p.ip q.ip (min (p.bits_plus_one - 1) (q.bits_plus_one - 1))))

same_net_comm : (a b : Addr) (n : ℕ) → same_net a b n ≡ same_net b a n
unfolding same_net
same_net_comm a b n = rw (beq_comm (mask a n) (mask b n))

-- Overlapping does not depend on the order of the two prefixes.
pub overlaps_comm : (p q : Prefix) → overlaps p q ≡ overlaps q p
unfolding overlaps
overlaps_comm p q =
    rw
      (
        min_comm (p.bits_plus_one - 1) (q.bits_plus_one - 1),
        same_net_comm p.ip q.ip (min (q.bits_plus_one - 1) (p.bits_plus_one - 1)),
        beq_comm p q,
      )
      (ground arith)
