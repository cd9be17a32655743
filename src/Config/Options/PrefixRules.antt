-- ===== src/Config/Options/PrefixRules.antt =====
-- What parsePrefix accepts.
use corerad.Common.{◌≡◌, ◌≢◌, refl, ◌↔◌, true, false, String, ok, arith}
use corerad.Common.Int.{ℤ, pos, ◌≤ℤ◌, eqb_ℤ_iff}
use corerad.Netip.Addr
use corerad.Netip.Prefix
use corerad.Netip.Prefix.{Prefix, none_prefix, prefix_beq_iff, prefix_eq}
use corerad.Plugin.Types.{PrefixPlugin}
use corerad.Config.Types.{RawPrefix, Library}
use corerad.Config.Fields.{parse_ip_prefix}
use corerad.Config.Options.{auto_prefix, parse_prefix}

-- A configured prefix is IPv6 and has no bit set behind its length.
pub record IsNetwork (p : Prefix) : Type 0 where
  pub valid : Prefix.is_valid p ≡ true
  pub six : Addr.is6 p.ip ≡ true
  pub unmapped : Addr.is4_in6 p.ip ≡ false
  pub canonical : Prefix.masked p ≡ p

-- A text that the parser accepts is empty, and gives the zero prefix, or gives a network.
pub parse_ip_prefix-IsNetwork :
    (lib : Library) (s : String) {p : Prefix}
    → parse_ip_prefix lib s ≡ ok p
    → Prefix.is_valid p ≡ true
    → IsNetwork p
unfolding parse_ip_prefix Prefix.is_valid
parse_ip_prefix-IsNetwork lib s {p} h v = ground (arith, prefix_beq_iff p (Prefix.masked p))

auto_prefix-IsNetwork : IsNetwork auto_prefix
unfolding Prefix.is_valid Addr.is6 Addr.is4_in6 Prefix.masked
auto_prefix-IsNetwork = record { valid = refl; six = refl; unmapped = refl; canonical = refl }

-- What a prefix plugin satisfies when the configuration is accepted.
pub record IsAccepted (lib : Library) (q : PrefixPlugin) : Type 0 where
  pub network : IsNetwork q.prefix
  pub plural : Prefix.is_single_ip q.prefix ≡ false
  pub auto_iff : (q.auto ≡ true) ↔ (q.prefix ≡ auto_prefix)
  pub wildcard : Addr.is_unspecified q.prefix.ip ≡ true → Prefix.has_bits q.prefix 64 ≡ true
  pub valid_nonzero : q.valid_lifetime ≢ pos 0
  pub preferred_nonzero : q.preferred_lifetime ≢ pos 0
  pub ordered : q.preferred_lifetime ≤ℤ q.valid_lifetime
  pub finite_valid : q.deprecated ≡ true → q.valid_lifetime ≢ lib.infinity
  pub finite_preferred : q.deprecated ≡ true → q.preferred_lifetime ≢ lib.infinity

-- Every accepted prefix is a canonical IPv6 network that is no single address, is the wildcard
-- exactly if it is ::/64 and has no other length with the address ::, has two non-zero lifetimes
-- of which the preferred one does not exceed the valid one, and no infinite one if deprecated.
pub parse_prefix-IsAccepted :
    (lib : Library) (raw : RawPrefix) (epoch : ℤ) {q : PrefixPlugin}
    → parse_prefix lib raw epoch ≡ ok q
    → IsAccepted lib q
unfolding parse_prefix
parse_prefix-IsAccepted lib raw epoch {q} h = ground (
  arith,
  prefix_beq_iff q.prefix auto_prefix,
  parse_ip_prefix-IsNetwork lib raw.prefix {p = q.prefix},
  auto_prefix-IsNetwork,
  eqb_ℤ_iff q.valid_lifetime (pos 0),
)
