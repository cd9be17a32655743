-- ===== src/Config/Overlap.antt =====
-- The check that no two configured prefixes or routes of an interface overlap (parsePlugins).
use native.Mathlib.Nat.{add-zero, add-suc, suc-add}
use mathlib.Core.List.{append_assoc}
use corerad.Common.{
  ℕ, suc, ◌+◌, ◌<◌, ◌≡◌, refl, Bool, true, false, ◌&&◌, not, List, [], ◌∷◌, ◌++◌, Option, some,
  none, arith, if◌then◌else◌, ◌==◌, nat_eq, All, AllPairs, length, sym, ◌∙◌, length-append, subst,
}

-- The two nested loops over one slice compare the pointers, so an element is compared with each
-- element at another position.
module _ {A : Type 0} (clash : A → A → Bool) where
  unfoldable pub clash_in_row : ℕ → A → ℕ → List A → Option (A × A)
  clash_in_row i x j [] = none
  clash_in_row i x j (y ∷ ys) =
      let rest = clash_in_row i x (suc j) ys in
      if not (i == j) && clash x y then some (x, y) else rest

  unfoldable pub clash_from : List A → ℕ → List A → Option (A × A)
  unfolding clash_in_row
  clash_from all i [] = none
  clash_from all i (x ∷ xs) = elim (clash_in_row i x 0 all) [
    | some c ↦ some c
    | none ↦ clash_from all (suc i) xs
  ]

  unfoldable pub find_clash : List A → Option (A × A)
  unfolding clash_from
  find_clash xs = clash_from xs 0 xs

  row_after :
      (i j : ℕ) (x : A) (ys : List A)
      → i < j
      → clash_in_row i x j ys ≡ none
      → All (λ y. clash x y ≡ false) ys
  unfolding clash_in_row
  row_after i j x [] lt h = tt
  row_after i j x (y ∷ ys) lt h = ground (arith, row_after i (suc j) x ys)

  row_tail :
      (i j : ℕ) (x y : A) (ys : List A)
      → clash_in_row i x j (y ∷ ys) ≡ none
      → clash_in_row i x (suc j) ys ≡ none
  unfolding clash_in_row
  row_tail i j x y ys h = ground arith

  row_append :
      (i j : ℕ) (x : A) (pre ys : List A)
      → clash_in_row i x j (pre ++ ys) ≡ none
      → clash_in_row i x (j + length pre) ys ≡ none
  unfolding clash_in_row
  row_append i j x [] ys h = rw add-zero h
  row_append i j x (p ∷ pre) ys h =
      rw (add-suc, ← suc-add) (row_append i (suc j) x pre ys (row_tail i j x p (pre ++ ys) h))

  from_cons :
      (all : List A) (i : ℕ) (x : A) (xs : List A)
      → clash_from all i (x ∷ xs) ≡ none
      → (clash_in_row i x 0 all ≡ none) × (clash_from all (suc i) xs ≡ none)
  unfolding clash_from
  from_cons all i x xs h = ground arith

  -- The elements behind position `i` are met in the row of the element at `i`.
  row_behind :
      (all pre : List A) (i : ℕ) (x : A) (xs : List A)
      → all ≡ pre ++ x ∷ xs
      → i ≡ length pre
      → clash_in_row i x 0 all ≡ none
      → All (λ y. clash x y ≡ false) xs
  row_behind all pre i x xs e n h = row_after i (suc i) x xs (omega arith) (
      row_tail i i x x xs (
        subst (λ k. clash_in_row i x k (x ∷ xs) ≡ none) (omega arith)
          (row_append i 0 x pre (x ∷ xs) (rw e at h))))

  clash_from-AllPairs :
      (all pre : List A) (i : ℕ) (xs : List A)
      → all ≡ pre ++ xs
      → i ≡ length pre
      → clash_from all i xs ≡ none
      → AllPairs (λ x y. clash x y ≡ false) xs
  clash_from-AllPairs all pre i [] e n h = tt
  clash_from-AllPairs all pre i (x ∷ xs) e n h = (
    row_behind all pre i x xs e n (from_cons all i x xs h).0,
    clash_from-AllPairs all (pre ++ x ∷ []) (suc i) xs (e ∙ sym (append_assoc pre (x ∷ []) xs))
        (omega (arith, length-append pre (x ∷ []))) (from_cons all i x xs h).1,
  )

  -- When the loops find nothing, no two elements at different positions clash, the earlier with
  -- the later.
  pub find_clash-AllPairs :
      (xs : List A) → find_clash xs ≡ none → AllPairs (λ x y. clash x y ≡ false) xs
  unfolding find_clash
  find_clash-AllPairs xs h = clash_from-AllPairs xs [] 0 xs refl refl h

  row_found :
      (i j : ℕ) (x : A) (ys : List A) (c : A × A)
      → clash_in_row i x j ys ≡ some c
      → clash c.0 c.1 ≡ true
  unfolding clash_in_row
  row_found i j x [] c h = cc
  row_found i j x (y ∷ ys) c h = ground (arith, row_found i (suc j) x ys c)

  clash_from_found :
      (all : List A) (i : ℕ) (xs : List A) (c : A × A)
      → clash_from all i xs ≡ some c
      → clash c.0 c.1 ≡ true
  unfolding clash_from
  clash_from_found all i [] c h = cc
  clash_from_found all i (x ∷ xs) c h =
      ground (arith, row_found i 0 x all c, clash_from_found all (suc i) xs c)

  -- A pair that the loops find does clash.
  pub find_clash_sound : (xs : List A) (c : A × A) → find_clash xs ≡ some c → clash c.0 c.1 ≡ true
  unfolding find_clash
  find_clash_sound xs c h = clash_from_found xs 0 xs c h
