-- ===== src/Errgroup.antt =====
-- What the program relies on of golang.org/x/sync/errgroup, a package that it only calls.
use corerad.Common.{◌≡◌, refl, List, [], ◌∷◌, ◌++◌, Option, some, none, All}

-- Wait, over what the goroutines of a group have returned, in the order in which they did: it returns
-- the first error, if there is one.
pub record Group (E : Type 0) : Type 0 where
  pub wait : List (Option E) → Option E
  pub wait_nil : (es : List (Option E)) → All (λ e. e ≡ none) es → wait es ≡ none
  pub wait_first :
      (before after : List (Option E)) (e : E)
      → All (λ x. x ≡ none) before
      → wait (before ++ (some e ∷ after)) ≡ some e

-- Two goroutines of a group, by which of them returns first.
pub data Order : Type 0 where
  left_first right_first : Order

unfoldable pub returns {ℓ} : {A : Type ℓ} → Order → A → A → List A
returns left_first l r = l ∷ r ∷ []
returns right_first l r = r ∷ l ∷ []

module _ {E : Type 0} (g : Group E) where
  -- One error of two is what Wait returns, whichever goroutine returns first.
  pub wait-returns : (o : Order) (e : E) → g.wait (returns o none (some e)) ≡ some e
  unfolding returns
  wait-returns left_first e = g.wait_first (none ∷ []) [] e (refl, tt)
  wait-returns right_first e = g.wait_first [] (none ∷ []) e tt

  pub wait-returns_nil : (o : Order) → g.wait (returns o none none) ≡ none
  unfolding returns
  wait-returns_nil left_first = g.wait_nil (none ∷ none ∷ []) (refl, (refl, tt))
  wait-returns_nil right_first = g.wait_nil (none ∷ none ∷ []) (refl, (refl, tt))
