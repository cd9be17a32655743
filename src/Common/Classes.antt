-- ===== src/Common/Classes.antt =====
-- Equality of keys as an interface, with the instances that the models compare by.
use Prim.Native.Nat.{ℕ}
use Prim.Native.String.{String}
use mathlib.Core.Path.{◌≡◌, refl, sym, ap₂}
use mathlib.Core.Logic.{◌↔◌, ◌≢◌}
use mathlib.Core.Bool.{Bool, true, false, ◌&&◌, ◌||◌}
use mathlib.Core.List.{List, [], ◌∷◌, Memᴰ}
use mathlib.Core.Logic.{inl, inr}
use native.Mathlib.Omega.{arith}
use text.Mathlib.Text.{◌==◌ as str_eq}
use text.Mathlib.TextEquality.{eq_iff}
use corerad.Common.Tests.{eqb, eqb_iff, &&_cases, Bool-cases}
use corerad.Common.Lists.{All}

pub record Eq {ℓ} (Key : Type ℓ) : Type ℓ where
  pub beq : Key → Key → Bool
  pub beq_iff : (x y : Key) → (beq x y ≡ true) ↔ (x ≡ y)

instance abbrev pub string_eq : Eq String
string_eq = record { beq = str_eq; beq_iff = eq_iff }

infix 50 ◌==◌
abbrev pub ◌==◌ {ℓ} : {Key : Type ℓ} ⦃keys : Eq Key⦄ → Key → Key → Bool
◌==◌ ⦃keys⦄ = keys.beq

abbrev pub bool_beq : Bool → Bool → Bool
bool_beq true b = b
bool_beq false true = false
bool_beq false false = true

pub bool_beq_iff : (a b : Bool) → (bool_beq a b ≡ true) ↔ (a ≡ b)
bool_beq_iff a b = ground arith

instance abbrev pub nat_eq : Eq ℕ
nat_eq = record { beq = eqb; beq_iff = eqb_iff }

instance abbrev pub bool_eq : Eq Bool
bool_eq = record { beq = bool_beq; beq_iff = bool_beq_iff }

module _ {ℓ} {A : Type ℓ} ⦃e : Eq A⦄ where
  abbrev pub list_beq : List A → List A → Bool
  list_beq [] [] = true
  list_beq (x ∷ xs) (y ∷ ys) = x == y && list_beq xs ys
  list_beq _ _ = false

  pub list_beq_iff : (xs ys : List A) → (list_beq xs ys ≡ true) ↔ (xs ≡ ys)
  list_beq_iff [] [] = (λ _. refl, λ _. refl)
  list_beq_iff [] (y ∷ ys) = (λ h. cc, λ h. cc)
  list_beq_iff (x ∷ xs) [] = (λ h. cc, λ h. cc)
  list_beq_iff (x ∷ xs) (y ∷ ys) = (
    λ h. let (p, q) = &&_cases _ _ h in ap₂ ◌∷◌ ((e.beq_iff x y).0 p) ((list_beq_iff xs ys).0 q),
    λ h. rw ((e.beq_iff x y).1 (cc h), (list_beq_iff xs ys).1 (cc h)) refl,
  )

  pub eq_refl : (a : A) → (a == a) ≡ true
  eq_refl a = (e.beq_iff a a).1 refl

  pub ne_of_beq : (a b : A) → (a == b) ≡ false → a ≢ b
  ne_of_beq a b h p = cc ((e.beq_iff a b).1 p)

  pub beq_false : (a b : A) → a ≢ b → (a == b) ≡ false
  beq_false a b h = elim (Bool-cases (a == b)) [
    | inl p ↦ absurd (h ((e.beq_iff a b).0 p))
    | inr p ↦ p
  ]

  pub beq_comm : (a b : A) → (a == b) ≡ (b == a)
  beq_comm a b = elim (Bool-cases (a == b)) [
    | inl p ↦ rw (p, ← (e.beq_iff a b).0 p, eq_refl a)
    | inr p ↦ rw (p, beq_false b a (λ q. ne_of_beq a b p (sym q)))
  ]

  -- Go's `seen` sets, and `slices.Contains`.
  unfoldable pub contains : List A → A → Bool
  contains [] key = false
  contains (first ∷ others) key = key == first || contains others key

  pub contains-ne : (xs : List A) (a : A) → contains xs a ≡ false → All (λ x. a ≢ x) xs
  unfolding contains
  contains-ne [] a h = tt
  contains-ne (x ∷ xs) a h = elim (Bool-cases (a == x)) [
    | inl p ↦ cc (rw p at h)
    | inr p ↦ (ne_of_beq a x p, contains-ne xs a (rw p at h))
  ]

  pub contains-mem : (xs : List A) (a : A) → contains xs a ≡ true → Memᴰ a xs
  unfolding contains
  contains-mem [] a h = cc
  contains-mem (x ∷ xs) a h = elim (Bool-cases (a == x)) [
    | inl p ↦ Memᴰ.head ((e.beq_iff a x).0 p)
    | inr p ↦ Memᴰ.tail (contains-mem xs a (rw p at h))
  ]

instance abbrev pub list_eq {ℓ} : {A : Type ℓ} ⦃e : Eq A⦄ → Eq (List A)
list_eq = record { beq = list_beq; beq_iff = list_beq_iff }
