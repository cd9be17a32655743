-- ===== src/Config/Options/Domains.antt =====
-- What parseDNSSL accepts.
use corerad.Common.{
  ◌≡◌, ◌≢◌, sym, false, String, List, [], ◌∷◌, arith, ok, contains, All, AllPairs, All-map,
  list_beq_iff, string_eq, not-contains-cons, Bool-cases, inl, inr,
}
use corerad.Common.Int.{ℤ}
use corerad.Plugin.Types.{DnsslPlugin}
use corerad.Config.Types.{RawDnssl, Library}
use corerad.Config.Fields.{parse_duration, triple}
use corerad.Config.Options.{check_domain_names, parse_dnssl}

names_checked :
    (lib : Library) (seen ds : List String)
    → check_domain_names lib seen ds ≡ ok tt
    → AllPairs ◌≢◌ ds × All (λ d. contains seen d ≡ false) ds
unfolding check_domain_names
names_checked lib seen [] h = (tt, tt)
names_checked lib seen (d ∷ rest) h = elim (Bool-cases (contains seen d)) [
  | inl c ↦ cc (rw c at h)
  | inr c ↦
      let (distinct, fresh) = names_checked lib (d ∷ seen) rest (rw c at h) in
      (
        (All-map (λ x n e. (not-contains-cons d seen x n).0 (sym e)) rest fresh, distinct),
        (c, All-map (λ x n. (not-contains-cons d seen x n).1) rest fresh),
      )
]

-- The domain names of an accepted stanza are those of its list, which is not empty and names none
-- twice; its lifetime is the parsed key, or three times the maximum interval where that is the
-- default.
pub parse_dnssl_lem :
    (lib : Library) (raw : RawDnssl) (max_interval : ℤ) {q : DnsslPlugin}
    → parse_dnssl lib raw max_interval ≡ ok q
    → (q.domain_names ≡ raw.domain_names)
      × (raw.domain_names ≢ [])
      × AllPairs ◌≢◌ raw.domain_names
      × (parse_duration lib raw.lifetime (triple max_interval) ≡ ok q.lifetime)
unfolding parse_dnssl
parse_dnssl_lem lib raw max_interval {q} h = (
  ground arith,
  ground (arith, list_beq_iff raw.domain_names []),
  (names_checked lib [] raw.domain_names (ground arith)).0,
  ground arith,
)
