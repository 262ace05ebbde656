-- ===== src/Base/Quantifiers.antt =====
-- Predicates on lists, by recursion: they compute to tuples and sums, which the tactics read.
use mathlib.Core.Logic.{◌⊎◌, inl, inr}
use mathlib.Core.List.{List, [], ◌∷◌, ◌++◌}

abbrev pub All {ℓ κ} : {A : Type ℓ} → (A → Type κ) → List A → Type κ
All P [] = Unit
All P (x ∷ xs) = P x × All P xs

abbrev pub Any {ℓ} : {A : Type ℓ} → (A → Type 0) → List A → Type 0
Any P [] = ⊥
Any P (x ∷ xs) = P x ⊎ Any P xs

module _ {ℓ κ} {A : Type ℓ} (P : A → Type κ) where
  pub All-append : (xs ys : List A) → All P xs → All P ys → All P (xs ++ ys)
  All-append [] ys a b = b
  All-append (x ∷ xs) ys a b = (a.0, All-append xs ys a.1 b)

  pub All-left : (xs ys : List A) → All P (xs ++ ys) → All P xs
  All-left [] ys a = tt
  All-left (x ∷ xs) ys a = (a.0, All-left xs ys a.1)

  pub All-right : (xs ys : List A) → All P (xs ++ ys) → All P ys
  All-right [] ys a = a
  All-right (x ∷ xs) ys a = All-right xs ys a.1

module _ {ℓ} {A : Type ℓ} {P Q : A → Type 0} (f : (x : A) → P x → Q x) where
  pub Any-map : (xs : List A) → Any P xs → Any Q xs
  Any-map [] a = absurd a
  Any-map (x ∷ xs) (inl a) = inl (f x a)
  Any-map (x ∷ xs) (inr a) = inr (Any-map xs a)

  pub All-map : (xs : List A) → All P xs → All Q xs
  All-map [] a = tt
  All-map (x ∷ xs) a = (f x a.0, All-map xs a.1)

-- Every element stands in the list.
pub All-Any :
    {A : Type 0} (P : A → A → Type 0)
    → ((x : A) → P x x)
    → (xs : List A) → All (λ x. Any (λ y. P y x) xs) xs
All-Any P r [] = tt
All-Any P r (x ∷ xs) = (inl (r x), All-map (λ y a. inr a) xs (All-Any P r xs))
