-- ===== src/Plugin/Rdnss/Best.antt =====
-- The server that :: stands for is the best of the addresses that qualify (RDNSS.current).
use mathlib.Core.List.Memᴰ
use corerad.Common.{
  ℕ, ◌≡◌, refl, ◌⊎◌, inl, inr, true, false, List, [], ◌∷◌, some, Memᴰ, All, All-mem, ◌∙◌, subst,
  sym, ok, err, Bool-cases,
}
use corerad.Netip.Addr
use corerad.Netip.Addr.{Addr}
use corerad.Netip.Prefix
use corerad.System.{Ip, World}
use corerad.Plugin.Types.{RdnssPlugin, no_usable_addresses}
use corerad.Plugin.Prefixes.{call_addrs}
use corerad.Plugin.Rdnss.{is_excluded, best_from, better_rdnss, current, none_ip}
use corerad.Plugin.Rdnss.Preference.{preferred, preferred-IsOrder, better_rdnss_lem}

-- The addresses that an Addresser reports have a valid prefix.
abbrev pub IsReported : Ip → Type 0
IsReported a = (Prefix.is_valid a.address ≡ true) × (Addr.is_valid a.address.ip ≡ true)

-- `b` qualifies among `addrs`, and no address that qualifies is a better server.
abbrev pub IsBest : List Ip → Ip → Type 0
IsBest addrs b =
    Memᴰ b addrs
    × (is_excluded b ≡ false)
    × ((a : Ip) → Memᴰ a addrs → is_excluded a ≡ false → preferred b a ≡ true)

preferred_self : (a : Ip) → preferred a a ≡ true
preferred_self a = elim (Bool-cases (preferred a a)) [
  | inl h ↦ h
  | inr h ↦ preferred-IsOrder.total a a h
]

-- The loop from a valid `best` returns that or a member, preferred to both it and every member.
abbrev Chosen : Ip → List Ip → Ip → Type 0
Chosen best addrs r =
    ((r ≡ best) ⊎ (Memᴰ r addrs × (is_excluded r ≡ false)))
    × (preferred r best ≡ true)
    × ((a : Ip) → Memᴰ a addrs → is_excluded a ≡ false → preferred r a ≡ true)

Chosen-cons :
    {best best' c r : Ip} {rest : List Ip}
    → Chosen best' rest r
    → (best' ≡ best) ⊎ ((best' ≡ c) × (is_excluded c ≡ false))
    → preferred best' best ≡ true
    → (is_excluded c ≡ false → preferred best' c ≡ true)
    → Chosen best (c ∷ rest) r
Chosen-cons {best} {best'} {c} {r} {rest} (from, better, all) step up over = (
  origin from step,
  preferred-IsOrder.trans r best' best better up,
  λ a m x. elim (Memᴰ.cases_cons m) [
    | inl e ↦ rw e (preferred-IsOrder.trans r best' c better (over (rw (← e) x)))
    | inr n ↦ all a n x
  ],
)
  where
    origin :
        (r ≡ best') ⊎ (Memᴰ r rest × (is_excluded r ≡ false))
        → (best' ≡ best) ⊎ ((best' ≡ c) × (is_excluded c ≡ false))
        → (r ≡ best) ⊎ (Memᴰ r (c ∷ rest) × (is_excluded r ≡ false))
    origin (inl e) (inl f) = inl (e ∙ f)
    origin (inl e) (inr (f, x)) = inr (Memᴰ.head (e ∙ f), rw (e ∙ f) x)
    origin (inr (m, x)) _ = inr (Memᴰ.tail m, x)

best_from-Chosen :
    (best : Ip) (addrs : List Ip)
    → Prefix.is_valid best.address ≡ true
    → All IsReported addrs
    → Chosen best addrs (best_from best addrs)
unfolding best_from
best_from-Chosen best [] v h = (inl refl, preferred_self best, λ a m x. elim m [ ])
best_from-Chosen best (c ∷ rest) v h = elim (Bool-cases (is_excluded c)) [
  | inl x ↦
      rw x
        (Chosen-cons (best_from-Chosen best rest v h.1) (inl refl) (preferred_self best) (λ n. cc))
  | inr x ↦
      rw (x, better_rdnss_lem best c v)
        (elim (Bool-cases (preferred best c)) [
          | inl q ↦ rw q (
              Chosen-cons (best_from-Chosen best rest v h.1) (inl refl) (preferred_self best)
                (λ _. q))
          | inr q ↦ rw q (
              Chosen-cons (best_from-Chosen c rest h.0.0 h.1) (inr (refl, x))
                (preferred-IsOrder.total best c q) (λ _. preferred_self c))
        ])
]

-- From the zero IP: nothing qualifies, or the result is the best.
abbrev Found : List Ip → Ip → Type 0
Found addrs r =
    (All (λ a. is_excluded a ≡ true) addrs × (r ≡ none_ip))
    ⊎ (IsBest addrs r × (Addr.is_valid r.address.ip ≡ true))

better_none : (c : Ip) → better_rdnss none_ip c ≡ c
unfolding better_rdnss Prefix.is_valid
better_none c = refl

first-Found :
    (c : Ip) (rest : List Ip) {r : Ip}
    → is_excluded c ≡ false
    → All IsReported (c ∷ rest)
    → Chosen c rest r
    → Found (c ∷ rest) r
first-Found c rest {r} x h (from, better, all) = inr (
  (
    place from,
    level from,
    λ a m y. elim (Memᴰ.cases_cons m) [ inl e ↦ rw e better | inr n ↦ all a n y ],
  ),
  (All-mem IsReported (c ∷ rest) h r (place from)).1,
)
  where
    place : (r ≡ c) ⊎ (Memᴰ r rest × (is_excluded r ≡ false)) → Memᴰ r (c ∷ rest)
    place (inl e) = Memᴰ.head e
    place (inr (m, _)) = Memᴰ.tail m

    level : (r ≡ c) ⊎ (Memᴰ r rest × (is_excluded r ≡ false)) → is_excluded r ≡ false
    level (inl e) = rw e x
    level (inr (_, y)) = y

skipped-Found :
    (c : Ip) (rest : List Ip) {r : Ip} → is_excluded c ≡ true → Found rest r → Found (c ∷ rest) r
skipped-Found c rest x (inl (all, e)) = inl ((x, all), e)
skipped-Found c rest x (inr ((m, y, best), v)) = inr (
  (
    Memᴰ.tail m,
    y,
    λ a n z. elim (Memᴰ.cases_cons n) [ inl e ↦ cc (rw e at z) | inr n' ↦ best a n' z ],
  ),
  v,
)

best_from-skip :
    (c : Ip) (rest : List Ip)
    → is_excluded c ≡ true
    → best_from none_ip (c ∷ rest) ≡ best_from none_ip rest
unfolding best_from
best_from-skip c rest x = rw x

best_from-first :
    (c : Ip) (rest : List Ip)
    → is_excluded c ≡ false
    → best_from none_ip (c ∷ rest) ≡ best_from c rest
unfolding best_from
best_from-first c rest x = rw (x, better_none c)

best_from-Found : (addrs : List Ip) → All IsReported addrs → Found addrs (best_from none_ip addrs)
unfolding best_from
best_from-Found [] h = inl (tt, refl)
best_from-Found (c ∷ rest) h = elim (Bool-cases (is_excluded c)) [
  | inl x ↦
      subst (Found (c ∷ rest)) (sym (best_from-skip c rest x))
        (skipped-Found c rest x (best_from-Found rest h.1))
  | inr x ↦
      subst (Found (c ∷ rest)) (sym (best_from-first c rest x))
        (first-Found c rest x h (best_from-Chosen c rest h.0.0 h.1))
]

-- When the addresses of the interface can be read and each has a valid prefix, the wildcard server
-- :: stands for the best of the addresses that qualify: IPv6, and neither deprecated, temporary
-- nor tentative. The best one is stable if any is, then unique local before global before
-- link-local before the rest, then the least by its bytes. If no address qualifies, the result is the
-- error that says so.
pub rdnss_current_lem :
    (r : RdnssPlugin) (w : World) (index : ℕ) (addrs : List Ip)
    → r.addrs ≡ some index
    → w.addresses_by_index index ≡ ok addrs
    → All IsReported addrs
    → ((b : Ip) × IsBest addrs b × (current r w ≡ ok b.address.ip))
      ⊎ (All (λ a. is_excluded a ≡ true) addrs × (current r w ≡ err no_usable_addresses))
unfolding current call_addrs Addr.is_valid
rdnss_current_lem r w index addrs p k h = elim (best_from-Found addrs h) [
  | inl (all, e) ↦ inr (all, rw (p, k, e))
  | inr (best, v) ↦ inl (best_from none_ip addrs, best, rw (p, k, v))
]
