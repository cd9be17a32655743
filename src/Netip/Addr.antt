-- ===== src/Netip/Addr.antt =====
-- netip.Addr: its length in bits (0 for the zero Addr, 32 or 128), its value and its IPv6 zone.
use corerad.Common.{
  ℕ, zero, suc, ◌+◌, length, Option, some, none, ◌-◌, ◌*◌, ◌/◌, ◌≡◌, refl, ◌↔◌, Bool, true, false,
  ◌&&◌, ◌||◌, not, List, [], ◌∷◌, arith, ltb, ◌==◌, Eq, nat_eq, list_eq, if◌then◌else◌,
  list_beq_iff, IsOrder,
}

pub record Addr : Type 0 where
  pub bit_len : ℕ
  pub value : ℕ
  pub zone : List ℕ

abbrev pub addr_beq : Addr → Addr → Bool
addr_beq a b = a.bit_len == b.bit_len && (a.value == b.value && a.zone == b.zone)

pub addr_beq_iff : (a b : Addr) → (addr_beq a b ≡ true) ↔ (a ≡ b)
addr_beq_iff a b = (
  λ h. ground (arith, list_beq_iff a.zone b.zone),
  λ h. ground (arith, list_beq_iff a.zone b.zone),
)

instance abbrev pub addr_eq : Eq Addr
addr_eq = record { beq = addr_beq; beq_iff = addr_beq_iff }

-- The zero Addr{}.
abbrev pub none_addr : Addr
none_addr = record { bit_len = 0; value = 0; zone = [] }

abbrev pub v6 : ℕ → Addr
v6 n = record { bit_len = 128; value = n; zone = [] }

abbrev pub v4 : ℕ → Addr
v4 n = record { bit_len = 32; value = n; zone = [] }

-- IPv6LinkLocalAllNodes: ff02::1.
abbrev pub all_nodes : Addr
all_nodes = v6 0xff020000000000000000000000000001

-- The number that bytes in network order stand for, after the bytes before them.
unfoldable pub big_endian : ℕ → List ℕ → ℕ
big_endian n [] = n
big_endian n (b ∷ bs) = big_endian (n * 256 + b) bs

-- AddrFromSlice: 4 or 16 bytes make an address.
unfoldable pub from_slice : List ℕ → Option Addr
from_slice bytes =
    if length bytes == 4
    then some (v4 (big_endian 0 bytes))
    else if length bytes == 16
    then some (v6 (big_endian 0 bytes))
    else none

-- x >> k and x << k on an unbounded word.
unfoldable pub shr : ℕ → ℕ → ℕ
shr x zero = x
shr x (suc k) = shr x k / 2

unfoldable pub shl : ℕ → ℕ → ℕ
shl x zero = x
shl x (suc k) = shl x k * 2

unfoldable pub is_valid : Addr → Bool
is_valid a = not (a.bit_len == 0)

unfoldable pub is4 : Addr → Bool
is4 a = a.bit_len == 32

unfoldable pub is6 : Addr → Bool
is6 a = a.bit_len == 128

-- ::ffff:0:0/96.
unfoldable pub is4_in6 : Addr → Bool
unfolding is6 shr
is4_in6 a = is6 a && shr a.value 32 == 0xffff

-- The tests below look through an IPv4-mapped address.
unfoldable pub unmap : Addr → Addr
unfolding is4_in6
unmap a = if is4_in6 a then v4 (a.value - shl (shr a.value 32) 32) else a

unfoldable pub is_unspecified : Addr → Bool
is_unspecified a = a == v4 0 || a == v6 0

top_is : Addr → ℕ → ℕ → ℕ → Bool
unfolding shr
top_is a len k n = a.bit_len == len && shr a.value (len - k) == n

unfoldable pub is_link_local_unicast : Addr → Bool
unfolding top_is unmap
is_link_local_unicast a = top_is (unmap a) 32 16 0xa9fe || top_is (unmap a) 128 10 0x3fa

unfoldable pub is_loopback : Addr → Bool
unfolding top_is unmap
is_loopback a = top_is (unmap a) 32 8 127 || ((unmap a).bit_len == 128 && (unmap a).value == 1)

unfoldable pub is_multicast : Addr → Bool
unfolding top_is unmap
is_multicast a = top_is (unmap a) 32 4 0xe || top_is (unmap a) 128 8 0xff

unfoldable pub is_private : Addr → Bool
unfolding top_is unmap
is_private a =
    top_is (unmap a) 32 8 10
    || top_is (unmap a) 32 12 0xac1
    || top_is (unmap a) 32 16 0xc0a8
    || top_is (unmap a) 128 7 0x7e

unfoldable pub is_global_unicast : Addr → Bool
unfolding is_valid is_unspecified is_loopback is_multicast is_link_local_unicast unmap
is_global_unicast a =
    is_valid a
    && not (unmap a == v4 0xffffffff)
    && not (is_unspecified (unmap a))
    && not (is_loopback a)
    && not (is_multicast a)
    && not (is_link_local_unicast a)

-- WithZone(""): only an IPv6 address has a zone to lose.
unfoldable pub without_zone : Addr → Addr
unfolding is6
without_zone a = if is6 a then record a { zone = [] } else a

-- strings.Compare(x, y) <= 0 on the bytes of a zone.
abbrev lex_leb : List ℕ → List ℕ → Bool
lex_leb [] ys = true
lex_leb (x ∷ xs) [] = false
lex_leb (x ∷ xs) (y ∷ ys) = ltb x y || (x == y && lex_leb xs ys)

-- a.Compare(b) <= 0: by length, then value, then zone.
unfoldable pub leb : Addr → Addr → Bool
leb a b =
    ltb a.bit_len b.bit_len
    || (a.bit_len == b.bit_len
        && (ltb a.value b.value || (a.value == b.value && lex_leb a.zone b.zone)))

-- a.Less(b), which is a.Compare(b) < 0.
unfoldable pub less : Addr → Addr → Bool
unfolding leb
less a b = not (leb b a)

lex_leb-total : (xs ys : List ℕ) → lex_leb xs ys ≡ false → lex_leb ys xs ≡ true
lex_leb-total [] ys h = cc
lex_leb-total (x ∷ xs) [] h = refl
lex_leb-total (x ∷ xs) (y ∷ ys) h = ground (arith, lex_leb-total xs ys)

lex_leb_trans :
    (xs ys zs : List ℕ) → lex_leb xs ys ≡ true → lex_leb ys zs ≡ true → lex_leb xs zs ≡ true
lex_leb_trans [] ys zs h k = refl
lex_leb_trans (x ∷ xs) [] zs h k = cc
lex_leb_trans (x ∷ xs) (y ∷ ys) [] h k = cc
lex_leb_trans (x ∷ xs) (y ∷ ys) (z ∷ zs) h k = ground (arith, lex_leb_trans xs ys zs)

lex_leb_antisymm : (xs ys : List ℕ) → lex_leb xs ys ≡ true → lex_leb ys xs ≡ true → xs ≡ ys
lex_leb_antisymm [] [] h k = refl
lex_leb_antisymm [] (y ∷ ys) h k = cc
lex_leb_antisymm (x ∷ xs) [] h k = cc
lex_leb_antisymm (x ∷ xs) (y ∷ ys) h k = ground (arith, lex_leb_antisymm xs ys)

-- Compare orders the addresses totally.
pub leb-IsOrder : IsOrder leb
unfolding leb
leb-IsOrder = record {
  total = λ a b h. ground (arith, lex_leb-total a.zone b.zone);
  trans = λ a b c h k. ground (arith, lex_leb_trans a.zone b.zone c.zone);
}

pub leb_antisymm : (a b : Addr) → leb a b ≡ true → leb b a ≡ true → a ≡ b
unfolding leb
leb_antisymm a b h k = ground (arith, lex_leb_antisymm a.zone b.zone)
