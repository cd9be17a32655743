-- ===== src/Verify/Loops.antt =====
-- When the loops of the checks find no problem (verify.go).
use corerad.Common.{
  ◌≡◌, ◌↔◌, ◌⊎◌, inl, inr, refl, ap, String, Bool, true, List, [], ◌∷◌, ◌++◌, length, arith, Eq,
  ◌==◌, nat_eq, All, All-mem, All-of_mem, Memᴰ, Bool-cases, if◌then◌else◌, not, ne_of_beq,
  string_eq, list_eq, eqb_iff, bool_eq,
}
use corerad.Common.Int.{int_eq}
use corerad.Netip.Addr.{addr_eq}
use corerad.Verify.Problems.{Problem, Message, push_if, for_each}
use corerad.Verify.Checks.{unless_empty, same_elements, each_position}

-- Nothing is reported in the whole just where nothing is in each part.
pub nil_iff_append : {A : Type 0} (xs ys : List A) → (xs ++ ys ≡ []) ↔ ((xs ≡ []) × (ys ≡ []))
nil_iff_append [] ys = (λ h. (refl, h), λ h. h.1)
nil_iff_append (x ∷ xs) ys = (λ h. cc, λ h. cc)

pub push_if_lem : (b : Bool) (f : String) (m : Message) → (push_if (not b) f m ≡ []) ↔ (b ≡ true)
push_if_lem b f m = ground arith

for_each_lem :
    {A : Type 0} (f : A → List Problem) (xs : List A)
    → (for_each f xs ≡ []) ↔ ((x : A) → Memᴰ x xs → f x ≡ [])
unfolding for_each
for_each_lem f xs = (
  λ h x m. All-mem (λ x. f x ≡ []) xs (go xs h) x m,
  λ h. back xs (All-of_mem (λ x. f x ≡ []) xs h),
)
  where
    go : (xs : List _) → for_each f xs ≡ [] → All (λ x. f x ≡ []) xs
    go [] h = tt
    go (x ∷ xs) h = let (p, q) = (nil_iff_append (f x) (for_each f xs)).0 h in (p, go xs q)

    back : (xs : List _) → All (λ x. f x ≡ []) xs → for_each f xs ≡ []
    back [] h = refl
    back (x ∷ xs) h = rw (h.0, back xs h.1)

same_elements_lem :
    {A : Type 0} ⦃e : Eq A⦄ (xs ys : List A)
    → length xs ≡ length ys
    → (same_elements xs ys ≡ true) ↔ (xs ≡ ys)
unfolding same_elements
same_elements_lem ⦃e⦄ [] [] h = (λ k. refl, λ k. refl)
same_elements_lem ⦃e⦄ [] (y ∷ ys) h = absurd (omega arith)
same_elements_lem ⦃e⦄ (x ∷ xs) [] h = absurd (omega arith)
same_elements_lem ⦃e⦄ (x ∷ xs) (y ∷ ys) h =
    ground (arith, same_elements_lem ⦃e = e⦄ xs ys (omega arith), e.beq_iff x y)

pub list_problems_lem :
    {A : Type 0} ⦃e : Eq A⦄ (xs ys : List A) (f : String) (m : Message)
    → ((if not (length xs == length ys)
          then push_if true f m
          else push_if (not (same_elements xs ys)) f m)
        ≡ [])
      ↔ (xs ≡ ys)
list_problems_lem xs ys f m = elim (Bool-cases (length xs == length ys)) [
  | inl p ↦
      let q = same_elements_lem xs ys ((eqb_iff _ _).0 p) in
      rw p (λ h. q.0 ((push_if_lem _ f m).0 h), λ h. (push_if_lem _ f m).1 (q.1 h))
  | inr p ↦ rw p (λ h. cc, λ h. absurd (ne_of_beq _ _ p (ap length h)))
]

each_position_lem :
    {A : Type 0} (f : A → A → List Problem) (l : (a b : A) → (f a b ≡ []) ↔ (a ≡ b))
    (xs ys : List A)
    → length xs ≡ length ys
    → (each_position f xs ys ≡ []) ↔ (xs ≡ ys)
unfolding each_position
each_position_lem f l [] [] h = (λ k. refl, λ k. refl)
each_position_lem f l [] (y ∷ ys) h = absurd (omega arith)
each_position_lem f l (x ∷ xs) [] h = absurd (omega arith)
each_position_lem f l (x ∷ xs) (y ∷ ys) h = ground (
  arith,
  each_position_lem f l xs ys (omega arith),
  l x y,
  nil_iff_append (f x y) (each_position f xs ys),
)

unless_empty_lem :
    {A : Type 0} (xs ys : List A) (ps : List Problem)
    → (unless_empty xs ys ps ≡ []) ↔ ((xs ≡ []) ⊎ (ys ≡ []) ⊎ (ps ≡ []))
unless_empty_lem [] ys ps = (λ h. inl refl, λ h. refl)
unless_empty_lem (x ∷ xs) [] ps = (λ h. inr (inl refl), λ h. ground arith)
unless_empty_lem (x ∷ xs) (y ∷ ys) ps = ground arith

no_mem : {A : Type 0} (a : A) (xs : List A) → xs ≡ [] → Memᴰ a xs → ⊥
no_mem a [] p m = elim m [ ]
no_mem a (x ∷ xs) p m = cc

pub cross_lem :
    {A : Type 0} (f : A → A → List Problem) (xs ys : List A)
    → (unless_empty xs ys (for_each (λ a. for_each (f a) ys) xs) ≡ [])
      ↔ ((a b : A) → Memᴰ a xs → Memᴰ b ys → f a b ≡ [])
cross_lem f xs ys = (
  λ h a b m n. elim ((unless_empty_lem xs ys _).0 h) [
    | inl p ↦ absurd (no_mem a xs p m)
    | inr (inl p) ↦ absurd (no_mem b ys p n)
    | inr (inr p) ↦
        (for_each_lem (f a) ys).0 ((for_each_lem (λ a. for_each (f a) ys) xs).0 p a m) b n
  ],
  λ h.
      (unless_empty_lem xs ys _).1
        (inr (inr ((for_each_lem _ xs).1 (λ a m. (for_each_lem (f a) ys).1 (λ b n. h a b m n))))),
)

pub aligned_lem :
    {A : Type 0} (f : A → A → List Problem) (l : (a b : A) → (f a b ≡ []) ↔ (a ≡ b))
    (xs ys : List A) (field : String) (m : Message)
    → (unless_empty xs ys
          (if not (length xs == length ys) then push_if true field m else each_position f xs ys)
        ≡ [])
      ↔ ((xs ≡ []) ⊎ (ys ≡ []) ⊎ (xs ≡ ys))
aligned_lem f l xs ys field m = elim (Bool-cases (length xs == length ys)) [
  | inl p ↦
      let q = each_position_lem f l xs ys ((eqb_iff _ _).0 p) in
      let u = unless_empty_lem xs ys (each_position f xs ys) in rw p (ground (arith, u, q))
  | inr p ↦
      let u = unless_empty_lem xs ys (push_if true field m) in
      let ne : (length xs ≡ length ys) → ⊥ = ne_of_beq _ _ p in
      rw p (ground (arith, u, λ (e : xs ≡ ys). ne (ap length e)))
]
