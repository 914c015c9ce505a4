-- ===== src/Common/Members.antt =====
-- The elements of a list, and lists without repetition.
use mathlib.Core.Path.{refl, sym}
use mathlib.Core.Logic.{◌↔◌, ◌⊎◌, inl, inr}
use mathlib.Core.List.{List, [], ◌∷◌, ◌++◌}
use dacar.Common.Lists.{All, In}

module _ {A : Type 0} where
  pub In-append : (x : A) (xs ys : List A) → In x (xs ++ ys) ↔ (In x xs ⊎ In x ys)
  In-append x [] ys = (λ i. inr i, λ i. elim i [ inl e ↦ absurd e | inr j ↦ j ])
  In-append x (z ∷ xs) ys = (
    λ i. elim i [
      | inl e ↦ inl (inl e)
      | inr j ↦ elim ((In-append x xs ys).0 j) [ inl k ↦ inl (inr k) | inr k ↦ inr k ]
    ],
    λ i. elim i [
      | inl j ↦ elim j [ inl e ↦ inl e | inr k ↦ inr ((In-append x xs ys).1 (inl k)) ]
      | inr k ↦ inr ((In-append x xs ys).1 (inr k))
    ],
  )

  abbrev pub Distinct : List A → Type 0
  Distinct [] = Unit
  Distinct (x ∷ xs) = (In x xs → ⊥) × Distinct xs

  pub Distinct-snoc : (xs : List A) (x : A) → Distinct xs → (In x xs → ⊥) → Distinct (xs ++ x ∷ [])
  Distinct-snoc [] x d h = (λ i. i, tt)
  Distinct-snoc (z ∷ xs) x d h = (
    λ i. elim ((In-append z xs (x ∷ [])).0 i) [
      | inl j ↦ d.0 j
      | inr j ↦ elim j [ inl e ↦ h (inl (sym e)) | inr f ↦ absurd f ]
    ],
    Distinct-snoc xs x d.1 (λ i. h (inr i)),
  )

  pub All-In {κ} : {P : A → Type κ} (xs : List A) → ((x : A) → In x xs → P x) → All P xs
  All-In [] f = tt
  All-In (x ∷ xs) f = (f x (inl refl), All-In xs (λ y i. f y (inr i)))
