-- ===== src/Plugin/Routes/Cover.antt =====
-- Removing the covered prefixes of a set loses no coverage (uncoveredPrefixes).
use corerad.Common.{
  ℕ, zero, suc, ◌<◌, ◌≡◌, ◌⊎◌, inl, inr, true, false, not, List, Memᴰ, arith, any-witness,
  any-of_mem, mem-filter, mem-of_filter, Bool-cases,
}
use corerad.Netip.Cover.{contains_trans}
use corerad.Netip.Prefix.{Prefix}
use corerad.Plugin.Routes.{covers, is_covered, uncovered_prefixes}

pub covers_trans : (p q r : Prefix) → covers p q ≡ true → covers q r ≡ true → covers p r ≡ true
unfolding covers
covers_trans p q r h k = ground (arith, contains_trans p q r.ip)

covers_shorter : (p q : Prefix) → covers p q ≡ true → p.bits_plus_one < q.bits_plus_one
unfolding covers
covers_shorter p q h = ground arith

-- `q` is in the list or covered by a member of it.
abbrev pub IsRepresented : List Prefix → Prefix → Type 0
IsRepresented out q = Memᴰ q out ⊎ ((p : Prefix) × Memᴰ p out × (covers p q ≡ true))

through :
    (out : List Prefix) (p q : Prefix)
    → covers p q ≡ true
    → IsRepresented out p
    → IsRepresented out q
through out p q h (inl m) = inr (p, m, h)
through out p q h (inr (r, m, k)) = inr (r, m, covers_trans r p q k h)

IsRepresented-below :
    (n : ℕ) (ps : List Prefix) (q : Prefix)
    → q.bits_plus_one < n
    → Memᴰ q ps
    → IsRepresented (uncovered_prefixes ps) q
unfolding uncovered_prefixes
IsRepresented-below zero ps q h m = elim h [ ]
IsRepresented-below (suc n) ps q h m = elim (Bool-cases (is_covered q ps)) [
  | inl c ↦
      let (p, n', k) = any-witness (λ p. covers p q) ps c in
      through (uncovered_prefixes ps) p q k
        (IsRepresented-below n ps p (omega (arith, covers_shorter p q k)) n')
  | inr c ↦ inl (mem-filter (λ pfx. not (is_covered pfx ps)) ps q m (rw c))
]

-- Every prefix of the set is kept, or a kept one covers it.
pub uncovered_prefixes-represents :
    (ps : List Prefix) (q : Prefix) → Memᴰ q ps → IsRepresented (uncovered_prefixes ps) q
uncovered_prefixes-represents ps q = IsRepresented-below (suc q.bits_plus_one) ps q (omega arith)

-- No prefix that is kept is covered by one that is.
pub uncovered_prefixes-antichain :
    (ps : List Prefix) (p q : Prefix)
    → Memᴰ p (uncovered_prefixes ps)
    → Memᴰ q (uncovered_prefixes ps)
    → covers p q ≡ false
unfolding uncovered_prefixes
uncovered_prefixes-antichain ps p q m n = elim (Bool-cases (covers p q)) [
  | inr c ↦ c
  | inl c ↦
      let (m', _) = mem-of_filter (λ pfx. not (is_covered pfx ps)) ps p m in
      let (_, u) = mem-of_filter (λ pfx. not (is_covered pfx ps)) ps q n in
      cc (rw (any-of_mem (λ r. covers r q) ps p m' c) at u)
]
