-- ===== src/Common/Lists.antt =====
-- Lists measured by native numbers, and predicates on lists by recursion.
use Prim.Native.Nat.{ℕ, zero, suc, ◌+◌}
use mathlib.Core.Path.{◌≡◌, refl, sym, subst}
use mathlib.Core.Bool.{Bool, true, false, ◌||◌}
use mathlib.Core.Logic.{◌⊎◌, inl, inr}
use mathlib.Core.List.Memᴰ
use mathlib.Core.List.{List, [], ◌∷◌, ◌++◌, Memᴰ}
use native.Mathlib.Omega.{arith}
use corerad.Common.Tests.{if◌then◌else◌, Bool-cases}

module _ {ℓ} {A : Type ℓ} where
  abbrev pub length : List A → ℕ
  length [] = 0
  length (x ∷ xs) = suc (length xs)

  pub length-append : (xs ys : List A) → length (xs ++ ys) ≡ length xs + length ys
  length-append [] ys = omega arith
  length-append (x ∷ xs) ys = omega (arith, length-append xs ys)

  abbrev pub take : ℕ → List A → List A
  take zero xs = []
  take (suc n) [] = []
  take (suc n) (x ∷ xs) = x ∷ take n xs

  -- The library's `filter` and `any` over Boolean tests, so that they run.
  unfoldable pub filter : (A → Bool) → List A → List A
  filter p [] = []
  filter p (x ∷ xs) = if p x then x ∷ filter p xs else filter p xs

  unfoldable pub any : (A → Bool) → List A → Bool
  any p [] = false
  any p (x ∷ xs) = p x || any p xs

  abbrev pub All {κ} : (A → Type κ) → List A → Type κ
  All P [] = Unit
  All P (x ∷ xs) = P x × All P xs

  -- Every earlier element stands in the relation to every later one.
  abbrev pub AllPairs {κ} : (A → A → Type κ) → List A → Type κ
  AllPairs R [] = Unit
  AllPairs R (x ∷ xs) = All (R x) xs × AllPairs R xs

module _ {ℓ κ} {A : Type ℓ} (P : A → Type κ) where
  pub All-mem : (xs : List A) → All P xs → (a : A) → Memᴰ a xs → P a
  All-mem [] h a m = elim m [ ]
  All-mem (x ∷ xs) h a m = elim (Memᴰ.cases_cons m) [
    | inl e ↦ subst P (sym e) h.0
    | inr m' ↦ All-mem xs h.1 a m'
  ]

  pub All-of_mem : (xs : List A) → ((a : A) → Memᴰ a xs → P a) → All P xs
  All-of_mem [] f = tt
  All-of_mem (x ∷ xs) f = (f x (Memᴰ.head refl), All-of_mem xs (λ a m. f a (Memᴰ.tail m)))

  pub All-append : (xs ys : List A) → All P xs → All P ys → All P (xs ++ ys)
  All-append [] ys p q = q
  All-append (x ∷ xs) ys p q = (p.0, All-append xs ys p.1 q)

  pub All-filter : (p : A → Bool) (xs : List A) → All P xs → All P (filter p xs)
  unfolding filter
  All-filter p [] h = tt
  All-filter p (x ∷ xs) h = ground (arith, All-filter p xs h.1)

module _ {ℓ} {A : Type ℓ} where
  pub All-map {κ μ} :
      {P : A → Type κ} {Q : A → Type μ} (f : (a : A) → P a → Q a) (xs : List A)
      → All P xs
      → All Q xs
  All-map f [] h = tt
  All-map f (x ∷ xs) h = (f x h.0, All-map f xs h.1)

  pub mem-of_filter :
      (p : A → Bool) (xs : List A) (a : A) → Memᴰ a (filter p xs) → Memᴰ a xs × (p a ≡ true)
  unfolding filter
  mem-of_filter p [] a m = elim m [ ]
  mem-of_filter p (x ∷ xs) a m = elim (Bool-cases (p x)) [
    | inl e ↦ elim (Memᴰ.cases_cons (rw e at m)) [
      | inl q ↦ (Memᴰ.head q, rw q e)
      | inr n ↦ let (n', h) = mem-of_filter p xs a n in (Memᴰ.tail n', h)
    ]
    | inr e ↦ let (n, h) = mem-of_filter p xs a (rw e at m) in (Memᴰ.tail n, h)
  ]

  pub mem-filter :
      (p : A → Bool) (xs : List A) (a : A) → Memᴰ a xs → p a ≡ true → Memᴰ a (filter p xs)
  unfolding filter
  mem-filter p [] a m h = elim m [ ]
  mem-filter p (x ∷ xs) a m h = elim (Memᴰ.cases_cons m) [
    | inl e ↦ rw (← e, h) (Memᴰ.head refl)
    | inr m' ↦ elim (Bool-cases (p x)) [
      | inl e ↦ rw e (Memᴰ.tail (mem-filter p xs a m' h))
      | inr e ↦ rw e (mem-filter p xs a m' h)
    ]
  ]

  pub filter-AllPairs {κ} :
      (R : A → A → Type κ) (p : A → Bool) (xs : List A) → AllPairs R xs → AllPairs R (filter p xs)
  unfolding filter
  filter-AllPairs R p [] h = tt
  filter-AllPairs R p (x ∷ xs) h =
      ground (arith, filter-AllPairs R p xs h.1, All-filter (R x) p xs h.0)

  pub any-of_mem : (p : A → Bool) (xs : List A) (a : A) → Memᴰ a xs → p a ≡ true → any p xs ≡ true
  unfolding any
  any-of_mem p [] a m h = elim m [ ]
  any-of_mem p (x ∷ xs) a m h = elim (Memᴰ.cases_cons m) [
    | inl e ↦ rw (← e, h)
    | inr m' ↦ ground (arith, any-of_mem p xs a m' h)
  ]

  pub any-witness :
      (p : A → Bool) (xs : List A) → any p xs ≡ true → (a : A) × Memᴰ a xs × (p a ≡ true)
  unfolding any
  any-witness p [] h = cc
  any-witness p (x ∷ xs) h = elim (Bool-cases (p x)) [
    | inl e ↦ (x, Memᴰ.head refl, e)
    | inr e ↦ let (a, m, e') = any-witness p xs (rw e at h) in (a, Memᴰ.tail m, e')
  ]

pub List-cases {ℓ} :
    {A : Type ℓ} (xs : List A) → (xs ≡ []) ⊎ ((x : A) × (rest : List A) × (xs ≡ x ∷ rest))
List-cases [] = inl refl
List-cases (x ∷ xs) = inr (x, xs, refl)

-- The lists have one length, and the elements at each position stand in the relation.
abbrev pub Zipped {ℓ κ} : {A : Type ℓ} {B : Type κ} → (A → B → Type 0) → List A → List B → Type 0
Zipped R [] [] = Unit
Zipped R (x ∷ xs) (y ∷ ys) = R x y × Zipped R xs ys
Zipped R _ _ = ⊥

pub Zipped-map {ℓ κ} :
    {A : Type ℓ} {B : Type κ} {R S : A → B → Type 0} (f : (a : A) (b : B) → R a b → S a b)
    (xs : List A) (ys : List B)
    → Zipped R xs ys
    → Zipped S xs ys
Zipped-map f [] [] h = tt
Zipped-map f [] (y ∷ ys) h = h
Zipped-map f (x ∷ xs) [] h = h
Zipped-map f (x ∷ xs) (y ∷ ys) h = (f x y h.0, Zipped-map f xs ys h.1)
