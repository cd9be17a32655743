-- ===== src/Common/Dedup.antt =====
-- Keeping the first occurrence of each element: the reference for loops with a `seen` set.
use mathlib.Core.Path.{◌≡◌, sym}
use mathlib.Core.Logic.{◌⊎◌, inl, inr, ◌≢◌}
use mathlib.Core.Bool.{true, false}
use mathlib.Core.List.{List, [], ◌∷◌, Memᴰ}
use mathlib.Core.List.Memᴰ
use corerad.Common.Tests.{if◌then◌else◌, Bool-cases}
use corerad.Common.Lists.{All, AllPairs, All-map}
use corerad.Common.Classes.{Eq, ◌==◌, contains, ne_of_beq}

module _ {ℓ} {A : Type ℓ} ⦃e : Eq A⦄ where
  pub not-contains-cons :
      (x : A) (seen : List A) (a : A)
      → contains (x ∷ seen) a ≡ false
      → (a ≢ x) × (contains seen a ≡ false)
  unfolding contains
  not-contains-cons x seen a h = elim (Bool-cases (a == x)) [
    | inl p ↦ cc (rw p at h)
    | inr p ↦ (ne_of_beq a x p, rw p at h)
  ]

  contains-of_cons :
      (x : A) (seen : List A) (a : A)
      → contains (x ∷ seen) a ≡ true
      → (a ≡ x) ⊎ (contains seen a ≡ true)
  unfolding contains
  contains-of_cons x seen a h = elim (Bool-cases (a == x)) [
    | inl p ↦ inl ((e.beq_iff a x).0 p)
    | inr p ↦ inr (rw p at h)
  ]

  unfoldable pub dedup_from : List A → List A → List A
  dedup_from seen [] = []
  dedup_from seen (x ∷ xs) =
      let skip = dedup_from seen xs in
      let keep = x ∷ dedup_from (x ∷ seen) xs in if contains seen x then skip else keep

  dedup_cases :
      (seen : List A) (x : A) (xs : List A)
      → ((contains seen x ≡ true) × (dedup_from seen (x ∷ xs) ≡ dedup_from seen xs))
        ⊎ ((contains seen x ≡ false) × (dedup_from seen (x ∷ xs) ≡ x ∷ dedup_from (x ∷ seen) xs))
  unfolding dedup_from
  dedup_cases seen x xs = elim (Bool-cases (contains seen x)) [
    | inl c ↦ inl (c, rw c)
    | inr c ↦ inr (c, rw c)
  ]

  pub mem-of_dedup : (seen xs : List A) (a : A) → Memᴰ a (dedup_from seen xs) → Memᴰ a xs
  unfolding dedup_from
  mem-of_dedup seen [] a m = m
  mem-of_dedup seen (x ∷ xs) a m = elim (dedup_cases seen x xs) [
    | inl (c, q) ↦ Memᴰ.tail (mem-of_dedup seen xs a (rw q at m))
    | inr (c, q) ↦ elim (Memᴰ.cases_cons (rw q at m)) [
      | inl p ↦ Memᴰ.head p
      | inr n ↦ Memᴰ.tail (mem-of_dedup (x ∷ seen) xs a n)
    ]
  ]

  dedup-fresh : (seen xs : List A) → All (λ a. contains seen a ≡ false) (dedup_from seen xs)
  unfolding dedup_from
  dedup-fresh seen [] = tt
  dedup-fresh seen (x ∷ xs) = elim (dedup_cases seen x xs) [
    | inl (c, q) ↦ rw q (dedup-fresh seen xs)
    | inr (c, q) ↦ rw q (c, All-map older (dedup_from (x ∷ seen) xs) (dedup-fresh (x ∷ seen) xs))
  ]
    where
      older : (a : A) → contains (x ∷ seen) a ≡ false → contains seen a ≡ false
      older a h = (not-contains-cons x seen a h).1

  pub dedup-distinct : (seen xs : List A) → AllPairs ◌≢◌ (dedup_from seen xs)
  unfolding dedup_from
  dedup-distinct seen [] = tt
  dedup-distinct seen (x ∷ xs) = elim (dedup_cases seen x xs) [
    | inl (c, q) ↦ rw q (dedup-distinct seen xs)
    | inr (c, q) ↦ rw q (
      All-map newer (dedup_from (x ∷ seen) xs) (dedup-fresh (x ∷ seen) xs),
      dedup-distinct (x ∷ seen) xs,
    )
  ]
    where
      newer : (a : A) → contains (x ∷ seen) a ≡ false → x ≢ a
      newer a h p = (not-contains-cons x seen a h).0 (sym p)

  mem-dedup :
      (seen xs : List A) (a : A)
      → Memᴰ a xs
      → (contains seen a ≡ true) ⊎ Memᴰ a (dedup_from seen xs)
  unfolding dedup_from
  mem-dedup seen [] a m = elim m [ ]
  mem-dedup seen (x ∷ xs) a m = elim (dedup_cases seen x xs) [
    | inl (c, q) ↦
        rw q (elim (Memᴰ.cases_cons m) [ inl p ↦ inl (rw p c) | inr n ↦ mem-dedup seen xs a n ])
    | inr (c, q) ↦ rw q (elim (Memᴰ.cases_cons m) [
      | inl p ↦ inr (Memᴰ.head p)
      | inr n ↦ elim (mem-dedup (x ∷ seen) xs a n) [
        | inl old ↦ elim (contains-of_cons x seen a old) [
          | inl p ↦ inr (Memᴰ.head p)
          | inr o ↦ inl o
        ]
        | inr kept ↦ inr (Memᴰ.tail kept)
      ]
    ])
  ]

  pub mem-dedup_all : (xs : List A) (a : A) → Memᴰ a xs → Memᴰ a (dedup_from [] xs)
  unfolding contains
  mem-dedup_all xs a m = elim (mem-dedup [] xs a m) [ inl n ↦ cc | inr k ↦ k ]
