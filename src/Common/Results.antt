-- ===== src/Common/Results.antt =====
-- What a Go function with an `error` result does: it returns a value, returns an error, or panics.
use mathlib.Core.Path.{◌≡◌, refl}
use native.Mathlib.Omega.{arith}
use corerad.Common.Lists.{Zipped}
use mathlib.Core.Logic.{◌⊎◌, inl, inr}
use mathlib.Core.Bool.{Bool, true, false}
use mathlib.Core.List.{List, [], ◌∷◌}

pub data Result {ℓ} (E A : Type ℓ) : Type ℓ where
  ok : A → Result E A
  err : E → Result E A
  panic : Result E A

infixl 5 ◌>>=◌ ◌>>◌
abbrev pub ◌>>=◌ {ℓ} : {E A B : Type ℓ} → Result E A → (A → Result E B) → Result E B
panic >>= next = panic
err e >>= next = err e
ok value >>= next = next value

abbrev pub ◌>>◌ {ℓ} : {E B : Type ℓ} → Result E (Unit {ℓ}) → Result E B → Result E B
first >> second = first >>= λ _. second

-- `if bad { return err }`.
abbrev pub refuse : {E : Type 0} → Bool → E → Result E (Unit {0})
refuse true e = err e
refuse false e = ok tt

-- An error wrapped by `fmt.Errorf("…: %w", err)`.
abbrev pub wrap_err {ℓ} : {E F A : Type ℓ} → (E → F) → Result E A → Result F A
wrap_err f (ok a) = ok a
wrap_err f (err e) = err (f e)
wrap_err f panic = panic

-- A loop that appends the value of each element and returns at the first error.
unfoldable pub map_result {ℓ} : {E A B : Type ℓ} → (A → Result E B) → List A → Result E (List B)
map_result f [] = ok []
map_result f (x ∷ xs) = do y ← f x; ys ← map_result f xs; ok (y ∷ ys)

-- The first part of a chain that returns a value returns one, and the rest goes on with it.
pub >>=-eq-ok {ℓ} :
    {E A B : Type ℓ} (first : Result E A) (next : A → Result E B) {value : B}
    → (first >>= next) ≡ ok value
    → (x : A) × (first ≡ ok x) × (next x ≡ ok value)
>>=-eq-ok panic next h = cc
>>=-eq-ok (err e) next h = cc
>>=-eq-ok (ok x) next h = (x, refl, h)

pub ok_inj {ℓ} : {E A : Type ℓ} {x y : A} → Path (Result E A) (ok x) (ok y) → x ≡ y
ok_inj h = cc

pub wrap_err-eq-ok {ℓ} :
    {E F A : Type ℓ} (f : E → F) (m : Result E A) {a : A} → wrap_err f m ≡ ok a → m ≡ ok a
wrap_err-eq-ok f (ok a) h = cc
wrap_err-eq-ok f (err e) h = cc
wrap_err-eq-ok f panic h = cc

pub refuse-eq-ok : {E : Type 0} (b : Bool) (e : E) {u : Unit {0}} → refuse b e ≡ ok u → b ≡ false
refuse-eq-ok true e h = cc
refuse-eq-ok false e h = refl

pub Result-cases {ℓ} :
    {E A : Type ℓ} (m : Result E A) → ((a : A) × (m ≡ ok a)) ⊎ ((e : E) × (m ≡ err e)) ⊎ (m ≡ panic)
Result-cases (ok a) = inl (a, refl)
Result-cases (err e) = inr (inl (e, refl))
Result-cases panic = inr (inr refl)

-- A loop that ends without an error has handled each element, in order.
pub map_result-Zipped :
    {E A B : Type 0} (f : A → Result E B) (xs : List A) {ys : List B}
    → map_result f xs ≡ ok ys
    → Zipped (λ x y. f x ≡ ok y) xs ys
unfolding map_result
map_result-Zipped f [] {ys} h = let e : [] ≡ ys = cc in rw (← e) tt
map_result-Zipped f (x ∷ xs) {ys} h = elim (Result-cases (f x)) [
  | inl (y, e) ↦ elim (Result-cases (map_result f xs)) [
    | inl (zs, e') ↦
        let p : y ∷ zs ≡ ys = cc (rw (e, e') at h) in rw (← p) (e, map_result-Zipped f xs e')
    | inr bad ↦ absurd (ground arith)
  ]
  | inr bad ↦ absurd (ground arith)
]
