-- ===== src/Prelude/Sort.antt =====
-- The stable sort of `ORDER BY` and of `sorted`, by insertion.
use mathlib.Core.Path.{◌≡◌, refl}
use mathlib.Core.Bool.{Bool, true}
use mathlib.Core.List.{List, [], ◌∷◌}
use elite_reasoning_mcp.Prelude.Tests.{if◌then◌else◌, Bool-cases}
use elite_reasoning_mcp.Prelude.Lists.{All}
use mathlib.Core.Logic.{inl, inr}

module _ {ℓ} {A : Type ℓ} (le : A → A → Bool) where
  unfoldable pub insert_by : A → List A → List A
  insert_by x [] = x ∷ []
  insert_by x (y ∷ ys) = if le x y then x ∷ y ∷ ys else y ∷ insert_by x ys

  unfoldable pub sort_by : List A → List A
  unfolding insert_by
  sort_by [] = []
  sort_by (x ∷ xs) = insert_by x (sort_by xs)

  All-insert_by {κ} :
      (P : A → Type κ) (x : A) (xs : List A) → P x → All P xs → All P (insert_by x xs)
  unfolding insert_by
  All-insert_by P x [] p h = (p, tt)
  All-insert_by P x (y ∷ ys) p h = elim (Bool-cases (le x y)) [
    | inl e ↦ rw e (p, h)
    | inr e ↦ rw e (h.0, All-insert_by P x ys p h.1)
  ]

  -- Sorting keeps what holds of all elements.
  pub All-sort_by {κ} : (P : A → Type κ) (xs : List A) → All P xs → All P (sort_by xs)
  unfolding sort_by
  All-sort_by P [] h = tt
  All-sort_by P (x ∷ xs) h = All-insert_by P x (sort_by xs) h.0 (All-sort_by P xs h.1)

  insert_by-first : (x : A) (xs : List A) → All (λ y. le x y ≡ true) xs → insert_by x xs ≡ x ∷ xs
  unfolding insert_by
  insert_by-first x [] h = refl
  insert_by-first x (y ∷ ys) h = rw h.0

  -- An element that may stand before all others is sorted to the front.
  pub sort_by-cons :
      (x : A) (xs : List A) → All (λ y. le x y ≡ true) xs → sort_by (x ∷ xs) ≡ x ∷ sort_by xs
  unfolding sort_by
  sort_by-cons x xs h = insert_by-first x (sort_by xs) (All-sort_by (λ y. le x y ≡ true) xs h)
