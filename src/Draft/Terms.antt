-- ===== src/Draft/Terms.antt =====
-- Which terms a draft has to name, and which it must not (core/reasoning/constraint_check.py).
use Prim.Native.Nat.{min}
use elite_reasoning_mcp.Prelude.{
  ℕ, suc, ◌≤◌, String, ◌≡◌, ◌↔◌, refl, Bool, true, false, not, ◌&&◌, inl, inr, List, [], ◌∷◌, arith,
  All, keep, any, length, max, leb, if◌then◌else◌, Bool-cases, contains, lower,
}
use elite_reasoning_mcp.Prelude.Nil.{is_nil}
use elite_reasoning_mcp.Draft.{
  is_hit, has_terms, has_marker, fake_success_markers, check_must_include, check_must_not,
}

any-All :
    (p : String → Bool) (ss : List String) → (not (any p ss) ≡ true) ↔ All (λ s. p s ≡ false) ss
any-All p [] = ((λ h. tt), (λ h. refl))
any-All p (s ∷ ss) = elim (Bool-cases (p s)) [
  | inl e ↦ rw e ((λ h. absurd (ground arith)), (λ h. absurd (ground (arith, h.0))))
  | inr e ↦ rw e ((λ h. (refl, (any-All p ss).0 h)), (λ h. (any-All p ss).1 h.1))
]

no_hit :
    (p : String → Bool) (ss : List String)
    → (leb 1 (length (keep p ss)) ≡ false) ↔ All (λ s. p s ≡ false) ss
no_hit p [] = ((λ h. tt), (λ h. refl))
no_hit p (s ∷ ss) = elim (Bool-cases (p s)) [
  | inl e ↦ rw e ((λ h. absurd (ground arith)), (λ h. absurd (ground (arith, h.0))))
  | inr e ↦ rw e ((λ h. (refl, (no_hit p ss).0 h)), (λ h. (no_hit p ss).1 h.1))
]

enough :
    (n hits : ℕ) → (leb (min (max 1 (min 2 (suc n))) (suc n)) hits ≡ true) ↔ (min 2 (suc n) ≤ hits)
enough n hits = ground arith

must_include :
    (text : String) (terms : List String)
    → (check_must_include text terms ≡ true)
      ↔ (min 2 (length terms) ≤ length (keep (is_hit text) terms))
unfolding check_must_include has_terms
must_include text [] = ((λ h. omega arith), (λ h. refl))
must_include text (t ∷ terms) = enough (length terms) (length (keep (is_hit text) (t ∷ terms)))

no_terms :
    (text : String) (terms : List String)
    → ((if is_nil terms then true else not (has_terms text terms 1)) ≡ true)
      ↔ All (λ t. is_hit text t ≡ false) terms
unfolding has_terms
no_terms text [] = ((λ h. tt), (λ h. refl))
no_terms text (t ∷ terms) =
    let few = no_hit (is_hit text) (t ∷ terms) in
    let one = one_of (length terms) (length (keep (is_hit text) (t ∷ terms))) in
    ((λ h. few.0 (one.0 h)), (λ h. one.1 (few.1 h)))
  where
    one_of : (n hits : ℕ) → (not (leb (min 1 (suc n)) hits) ≡ true) ↔ (leb 1 hits ≡ false)
    one_of n hits = ground arith

both : (a b : Bool) → ((a && b) ≡ true) ↔ ((a ≡ true) × (b ≡ true))
both a b = ground arith

must_not :
    (text : String) (terms : List String)
    → (check_must_not text terms ≡ true) ↔ (
        All (λ t. is_hit text t ≡ false) terms
        × All (λ m. contains m (lower text) ≡ false) fake_success_markers)
unfolding check_must_not
must_not text terms =
    let split =
      both (if is_nil terms then true else not (has_terms text terms 1))
        (not (has_marker fake_success_markers (lower text))) in
    let absent = no_terms text terms in
    let honest = any-All (λ m. contains m (lower text)) fake_success_markers in
    (
      (λ h. let k = split.0 h in (absent.0 k.0, honest.0 k.1)),
      (λ h. split.1 (absent.1 h.0, honest.1 h.1)),
    )

-- A draft includes what it must exactly when it names at least two of the terms, or the only one
-- there is; and it holds to a prohibition exactly when it names none of the terms and none of the
-- marks of a pretended success.
pub terms_checked :
    (text : String) (terms : List String)
    → ((check_must_include text terms ≡ true)
        ↔ (min 2 (length terms) ≤ length (keep (is_hit text) terms)))
      × ((check_must_not text terms ≡ true) ↔ (
          All (λ t. is_hit text t ≡ false) terms
          × All (λ m. contains m (lower text) ≡ false) fake_success_markers))
terms_checked text terms = (must_include text terms, must_not text terms)
