-- ===== src/Common/Sorts.antt =====
-- `slices.SortStableFunc`: a stable sort, with the laws that a comparison gives it.
use mathlib.Core.Path.{◌≡◌, refl}
use mathlib.Core.Bool.{Bool, true, false}
use mathlib.Core.List.{List, [], ◌∷◌, Memᴰ, Perm}
use mathlib.Core.List.Memᴰ
use mathlib.Core.List.Perm
use mathlib.Core.Logic.{inl, inr}
use native.Mathlib.Omega.{arith}
use corerad.Common.Tests.{if◌then◌else◌, Bool-cases}
use corerad.Common.Lists.{All, AllPairs}

-- A total preorder as a Boolean test.
pub record IsOrder {ℓ} {A : Type ℓ} (le : A → A → Bool) : Type ℓ where
  pub total : (a b : A) → le a b ≡ false → le b a ≡ true
  pub trans : (a b c : A) → le a b ≡ true → le b c ≡ true → le a c ≡ true

pub IsOrder-on {ℓ κ} :
    {A : Type ℓ} {B : Type κ} (f : B → A) {le : A → A → Bool}
    → IsOrder le
    → IsOrder (λ a b. le (f a) (f b))
IsOrder-on f o = record {
  total = λ a b. o.total (f a) (f b);
  trans = λ a b c. o.trans (f a) (f b) (f c);
}

module _ {ℓ} {A : Type ℓ} (le : A → A → Bool) where
  unfoldable pub insert_by : A → List A → List A
  insert_by a [] = a ∷ []
  insert_by a (x ∷ xs) = if le a x then a ∷ x ∷ xs else x ∷ insert_by a xs

  unfoldable pub sort_by : List A → List A
  unfolding insert_by
  sort_by [] = []
  sort_by (x ∷ xs) = insert_by x (sort_by xs)

  All-insert_by {κ} :
      (P : A → Type κ) (a : A) (xs : List A) → P a → All P xs → All P (insert_by a xs)
  unfolding insert_by
  All-insert_by P a [] p h = (p, tt)
  All-insert_by P a (x ∷ xs) p h = ground (arith, All-insert_by P a xs p h.1)

  pub All-sort_by {κ} : (P : A → Type κ) (xs : List A) → All P xs → All P (sort_by xs)
  unfolding sort_by
  All-sort_by P [] h = tt
  All-sort_by P (x ∷ xs) h = All-insert_by P x (sort_by xs) h.0 (All-sort_by P xs h.1)

  insert_by-perm : (a : A) (xs : List A) → Perm (insert_by a xs) (a ∷ xs)
  unfolding insert_by
  insert_by-perm a [] = Perm.refl _
  insert_by-perm a (x ∷ xs) = elim (Bool-cases (le a x)) [
    | inl e ↦ rw e (Perm.refl _)
    | inr e ↦ rw e (Perm.trans (Perm.cons x (insert_by-perm a xs)) (Perm.swap a x xs))
  ]

  -- Sorting keeps the elements, as often.
  pub sort_by-perm : (xs : List A) → Perm (sort_by xs) xs
  unfolding sort_by
  sort_by-perm [] = Perm.refl _
  sort_by-perm (x ∷ xs) = Perm.trans (insert_by-perm x (sort_by xs)) (Perm.cons x (sort_by-perm xs))

  mem-insert_by-self : (a : A) (xs : List A) → Memᴰ a (insert_by a xs)
  unfolding insert_by
  mem-insert_by-self a [] = Memᴰ.head refl
  mem-insert_by-self a (x ∷ xs) = elim (Bool-cases (le a x)) [
    | inl e ↦ rw e (Memᴰ.head refl)
    | inr e ↦ rw e (Memᴰ.tail (mem-insert_by-self a xs))
  ]

  mem-insert_by : (a b : A) (xs : List A) → Memᴰ b xs → Memᴰ b (insert_by a xs)
  unfolding insert_by
  mem-insert_by a b [] m = elim m [ ]
  mem-insert_by a b (x ∷ xs) m = elim (Bool-cases (le a x)) [
    | inl e ↦ rw e (Memᴰ.tail m)
    | inr e ↦ rw e (elim (Memᴰ.cases_cons m) [
      | inl p ↦ Memᴰ.head p
      | inr m' ↦ Memᴰ.tail (mem-insert_by a b xs m')
    ])
  ]

  pub mem-sort_by : (a : A) (xs : List A) → Memᴰ a xs → Memᴰ a (sort_by xs)
  unfolding sort_by
  mem-sort_by a [] m = elim m [ ]
  mem-sort_by a (x ∷ xs) m = elim (Memᴰ.cases_cons m) [
    | inl e ↦ Memᴰ.cast e (mem-insert_by-self x (sort_by xs))
    | inr m' ↦ mem-insert_by x a (sort_by xs) (mem-sort_by a xs m')
  ]

  -- A symmetric relation between all the elements is kept.
  insert_by-AllPairs {κ} :
      (R : A → A → Type κ) (s : (a b : A) → R a b → R b a) (a : A) (xs : List A)
      → All (R a) xs
      → AllPairs R xs
      → AllPairs R (insert_by a xs)
  unfolding insert_by
  insert_by-AllPairs R s a [] h k = (tt, tt)
  insert_by-AllPairs R s a (x ∷ xs) h k =
      ground (arith, All-insert_by (R x) a xs (s a x h.0) k.0, insert_by-AllPairs R s a xs h.1 k.1)

  pub sort_by-AllPairs {κ} :
      (R : A → A → Type κ) (s : (a b : A) → R a b → R b a) (xs : List A)
      → AllPairs R xs
      → AllPairs R (sort_by xs)
  unfolding sort_by
  sort_by-AllPairs R s [] h = tt
  sort_by-AllPairs R s (x ∷ xs) h =
      insert_by-AllPairs R s x (sort_by xs) (All-sort_by (R x) xs h.0) (sort_by-AllPairs R s xs h.1)

  module _ (o : IsOrder le) where
    below :
        (a x : A) (xs : List A)
        → le a x ≡ true
        → All (λ y. le x y ≡ true) xs
        → All (λ y. le a y ≡ true) xs
    below a x [] h k = tt
    below a x (y ∷ ys) h k = (o.trans a x y h k.0, below a x ys h k.1)

    insert_by-sorted :
        (a : A) (xs : List A)
        → AllPairs (λ x y. le x y ≡ true) xs
        → AllPairs (λ x y. le x y ≡ true) (insert_by a xs)
    unfolding insert_by
    insert_by-sorted a [] k = (tt, tt)
    insert_by-sorted a (x ∷ xs) k = elim (Bool-cases (le a x)) [
      | inl e ↦ rw e ((e, below a x xs e k.0), k)
      | inr e ↦ rw e (All-insert_by _ a xs (o.total a x e) k.0, insert_by-sorted a xs k.1)
    ]

    pub sort_by-sorted : (xs : List A) → AllPairs (λ x y. le x y ≡ true) (sort_by xs)
    unfolding sort_by
    sort_by-sorted [] = tt
    sort_by-sorted (x ∷ xs) = insert_by-sorted x (sort_by xs) (sort_by-sorted xs)
