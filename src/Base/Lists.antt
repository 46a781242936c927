-- ===== src/Base/Lists.antt =====
-- Lists measured by native numbers, sums, and a predicate of all the elements.
use Prim.Native.Nat.{ℕ, suc, ◌+◌, ◌≤◌}
use mathlib.Core.Path.{◌≡◌, ap, sym, ◌∙◌, refl}
use mathlib.Core.Logic.{◌⊎◌, inl, inr}
use mathlib.Core.Bool.{Bool, true}
use mathlib.Core.List.{List, [], ◌∷◌, ◌++◌, map}
use native.Mathlib.Omega.{arith}
use stabilitypool.Base.Tests.{if◌then◌else◌, Bool-cases}

module _ {ℓ} {A : Type ℓ} where
  abbrev pub length : List A → ℕ
  length [] = 0
  length (x ∷ xs) = suc (length xs)

  pub length-append : (xs ys : List A) → length (xs ++ ys) ≡ length xs + length ys
  length-append [] ys = omega arith
  length-append (x ∷ xs) ys = omega (arith, length-append xs ys)

  -- The library's `filter` wants a decision; the source's closures are Boolean tests.
  abbrev pub filter : (A → Bool) → List A → List A
  filter p [] = []
  filter p (x ∷ xs) = if p x then x ∷ filter p xs else filter p xs

  abbrev pub All {κ} : (A → Type κ) → List A → Type κ
  All P [] = Unit
  All P (x ∷ xs) = P x × All P xs

  pub All-append {κ} : (P : A → Type κ) (xs ys : List A) → All P xs → All P ys → All P (xs ++ ys)
  All-append P [] ys p q = q
  All-append P (x ∷ xs) ys p q = (p.0, All-append P xs ys p.1 q)

  pub All-weaken {κ μ} :
      (P : A → Type κ) (Q : A → Type μ) (xs : List A) → ((x : A) → P x → Q x) → All P xs → All Q xs
  All-weaken P Q [] f p = tt
  All-weaken P Q (x ∷ xs) f p = (f x p.0, All-weaken P Q xs f p.1)

  -- The sum of a measure over a list.
  abbrev pub sum_of : (A → ℕ) → List A → ℕ
  sum_of f [] = 0
  sum_of f (x ∷ xs) = f x + sum_of f xs

  pub sum_of-append : (f : A → ℕ) (xs ys : List A) → sum_of f (xs ++ ys) ≡ sum_of f xs + sum_of f ys
  sum_of-append f [] ys = omega arith
  sum_of-append f (x ∷ xs) ys = omega (arith, sum_of-append f xs ys)

  pub sum_of-filter-le :
      (f : A → ℕ) (p : A → Bool) (xs : List A) → sum_of f (filter p xs) ≤ sum_of f xs
  sum_of-filter-le f p [] = omega arith
  sum_of-filter-le f p (x ∷ xs) = ground (arith, sum_of-filter-le f p xs)

  pub All-filter {κ} :
      (P : A → Type κ) (p : A → Bool) (xs : List A) → All P xs → All P (filter p xs)
  All-filter P p [] h = tt
  All-filter P p (x ∷ xs) h = ground (arith, All-filter P p xs h.1)

abbrev pub sum : List ℕ → ℕ
sum = sum_of (λ n. n)

-- The list has an element.
abbrev pub IsIn : {A : Type 0} → A → List A → Type 0
IsIn a [] = ⊥
IsIn a (x ∷ xs) = (a ≡ x) ⊎ IsIn a xs

pub IsIn-filter :
    {A : Type 0} (p : A → Bool) (a : A) (xs : List A)
    → p a ≡ true
    → IsIn a xs
    → IsIn a (filter p xs)
IsIn-filter p a [] e h = h
IsIn-filter p a (x ∷ xs) e (inl same) =
    let kept : p x ≡ true = ap p (sym same) ∙ e in rw kept (inl same)
IsIn-filter p a (x ∷ xs) e (inr h) = elim (Bool-cases (p x)) [
  | inl kept ↦ rw kept (inr (IsIn-filter p a xs e h))
  | inr dropped ↦ rw dropped (IsIn-filter p a xs e h)
]

-- What a filter keeps stands in the list and passes the test.
pub filter-All :
    {A : Type 0} (p : A → Bool) (xs : List A) → All (λ a. IsIn a xs × (p a ≡ true)) (filter p xs)
filter-All p [] = tt
filter-All {A = A} p (x ∷ xs) =
    let rest =
      All-weaken (λ (a : A). IsIn a xs × (p a ≡ true)) (λ (a : A). IsIn a (x ∷ xs) × (p a ≡ true))
        (filter p xs) (λ a h. (inr h.0, h.1)) (filter-All p xs) in
    elim (Bool-cases (p x)) [
      | inl kept ↦ rw kept ((inl refl, kept), rest)
      | inr dropped ↦ rw dropped rest
    ]

pub IsIn-map : {A B : Type 0} (f : A → B) (a : A) (xs : List A) → IsIn a xs → IsIn (f a) (map f xs)
IsIn-map f a [] h = h
IsIn-map f a (x ∷ xs) (inl same) = inl (ap f same)
IsIn-map f a (x ∷ xs) (inr h) = inr (IsIn-map f a xs h)

pub IsIn-append : {A : Type 0} (a : A) (xs ys : List A) → IsIn a ys → IsIn a (xs ++ ys)
IsIn-append a [] ys h = h
IsIn-append a (x ∷ xs) ys h = inr (IsIn-append a xs ys h)

pub All-map :
    {A B : Type 0} (P : A → Type 0) (Q : B → Type 0) (f : A → B) (xs : List A)
    → ((a : A) → P a → Q (f a))
    → All P xs
    → All Q (map f xs)
All-map P Q f [] h a = tt
All-map P Q f (x ∷ xs) h a = (h x a.0, All-map P Q f xs h a.1)
