-- ===== src/Prelude/Nil.antt =====
-- When the lists of a comprehension are empty, and what holds of all elements of a sorted list, of
-- an image and of a list with no element that passes a test.
use mathlib.Core.Path.{◌≡◌, refl}
use mathlib.Core.Bool.{Bool, true, false}
use mathlib.Core.List.{List, [], ◌∷◌, ◌++◌, map}
use mathlib.Core.Logic.{◌↔◌, inl, inr}
use native.Mathlib.Omega.{arith}
use text.Mathlib.TextEquality.{eq_iff as str_eq_iff}
use text.Mathlib.Text.{◌==◌ as str_eq}
use Prim.Native.String.{String}
use elite_reasoning_mcp.Prelude.Tests.{Bool-cases}
use elite_reasoning_mcp.Prelude.Lists.{All, keep}
use elite_reasoning_mcp.Prelude.Sort.{insert_by, sort_by}
use elite_reasoning_mcp.Prelude.Text.{elem}

module _ {ℓ} {A : Type ℓ} where
  abbrev pub is_nil : List A → Bool
  is_nil [] = true
  is_nil (x ∷ xs) = false

  pub is_nil_iff : (xs : List A) → (is_nil xs ≡ true) ↔ (xs ≡ [])
  is_nil_iff [] = ground arith
  is_nil_iff (x ∷ xs) = ground arith

  pub is_nil-append :
      (xs ys : List A) → (is_nil (xs ++ ys) ≡ true) ↔ ((is_nil xs ≡ true) × (is_nil ys ≡ true))
  is_nil-append [] ys = ground arith
  is_nil-append (x ∷ xs) ys = ground arith

  pub is_nil-keep :
      (p : A → Bool) (xs : List A) → (is_nil (keep p xs) ≡ true) ↔ All (λ x. p x ≡ false) xs
  is_nil-keep p [] = ((λ h. tt), (λ h. refl))
  is_nil-keep p (x ∷ xs) = elim (Bool-cases (p x)) [
    | inl e ↦ ground (arith, e)
    | inr e ↦ rw e ((λ h. (refl, (is_nil-keep p xs).0 h)), (λ h. (is_nil-keep p xs).1 h.1))
  ]

module _ {ℓ} {A : Type ℓ} (le : A → A → Bool) where
  is_nil-insert_by : (x : A) (xs : List A) → is_nil (insert_by le x xs) ≡ false
  unfolding insert_by
  is_nil-insert_by x [] = refl
  is_nil-insert_by x (y ∷ ys) = ground arith

  pub is_nil-sort_by : (xs : List A) → is_nil (sort_by le xs) ≡ is_nil xs
  unfolding sort_by
  is_nil-sort_by [] = refl
  is_nil-sort_by (x ∷ xs) = is_nil-insert_by x (sort_by le xs)

  insert_by-All {κ} :
      (P : A → Type κ) (x : A) (xs : List A) → All P (insert_by le x xs) → P x × All P xs
  unfolding insert_by
  insert_by-All P x [] h = h
  insert_by-All P x (y ∷ ys) h = elim (Bool-cases (le x y)) [
    | inl e ↦ rw e at h
    | inr e ↦
        let g : All P (y ∷ insert_by le x ys) = rw e at h in
        let k = insert_by-All P x ys g.1 in (k.0, (g.0, k.1))
  ]

  pub sort_by-All {κ} : (P : A → Type κ) (xs : List A) → All P (sort_by le xs) → All P xs
  unfolding sort_by
  sort_by-All P [] h = tt
  sort_by-All P (x ∷ xs) h =
      let k = insert_by-All P x (sort_by le xs) h in (k.0, sort_by-All P xs k.1)

module _ {ℓ κ} {A : Type ℓ} {B : Type κ} (f : A → B) where
  pub is_nil-map : (xs : List A) → is_nil (map f xs) ≡ is_nil xs
  is_nil-map [] = refl
  is_nil-map (x ∷ xs) = refl

  pub All-map {μ} : (P : B → Type μ) (xs : List A) → All P (map f xs) ↔ All (λ x. P (f x)) xs
  All-map P [] = ((λ h. tt), (λ h. tt))
  All-map P (x ∷ xs) = ((λ h. (h.0, (All-map P xs).0 h.1)), (λ h. (h.0, (All-map P xs).1 h.1)))

-- What holds of all texts of a list holds of a text that is in it.
pub All-elem {ℓ} :
    (P : String → Type ℓ) (s : String) (ss : List String) → elem s ss ≡ true → All P ss → P s
unfolding elem
All-elem P s [] e h = absurd (ground arith)
All-elem P s (t ∷ ss) e h = elim (Bool-cases (str_eq t s)) [
  | inl k ↦ rw (← ((str_eq_iff t s).0 k)) h.0
  | inr k ↦ All-elem P s ss (ground arith) h.1
]
