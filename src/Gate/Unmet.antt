-- ===== src/Gate/Unmet.antt =====
-- The unmet items that the outcome gate of core/verification/registry.py reports.
use elite_reasoning_mcp.Prelude.{
  String, ◌≡◌, ◌∙◌, refl, Bool, true, false, not, ◌&&◌, ◌||◌, List, [], ◌∷◌, ◌++◌, arith, str_eq,
  str_eq_iff, str_eq_refl, is_blank, elem, Bool-cases, inl, inr,
}
use elite_reasoning_mcp.Prelude.Nil.{is_nil}
use elite_reasoning_mcp.Workflow.{Contract, Store}
use elite_reasoning_mcp.Gate.{Host, Outcome, unique, gate_unmet, gate_outcomes}

-- No text of the list stands in it again.
unfoldable pub NoRepeat : List String → Type 0
NoRepeat [] = Unit
NoRepeat (s ∷ ss) = (elem s ss ≡ false) × NoRepeat ss

elem-unique :
    (s : String) (seen ss : List String)
    → elem s (unique seen ss) ≡ (elem s ss && not (elem s seen))
unfolding unique elem
elem-unique s seen [] = refl
elem-unique s seen (t ∷ ss) = elim (Bool-cases (elem t seen)) [
  | inl e ↦ rw e elim (Bool-cases (str_eq t s)) [
    | inl k ↦
        let q : elem s seen ≡ true = rw (← ((str_eq_iff t s).0 k)) e in
        ground (arith, elem-unique s seen ss)
    | inr k ↦ ground (arith, elem-unique s seen ss)
  ]
  | inr e ↦ rw e elim (Bool-cases (str_eq t s)) [
    | inl k ↦ let q : elem s seen ≡ false = rw (← ((str_eq_iff t s).0 k)) e in ground arith
    | inr k ↦ ground (arith, elem-unique s (t ∷ seen) ss)
  ]
]

unique-NoRepeat : (seen ss : List String) → NoRepeat (unique seen ss)
unfolding unique NoRepeat elem
unique-NoRepeat seen [] = tt
unique-NoRepeat seen (s ∷ ss) = elim (Bool-cases (elem s seen)) [
  | inl e ↦ rw e (unique-NoRepeat seen ss)
  | inr e ↦
      rw e
        (ground (arith, elem-unique s (s ∷ seen) ss, str_eq_refl s), unique-NoRepeat (s ∷ seen) ss)
]

pub elem-append : (s : String) (xs ys : List String) → elem s (xs ++ ys) ≡ (elem s xs || elem s ys)
unfolding elem
elem-append s [] ys = refl
elem-append s (x ∷ xs) ys = ground (arith, elem-append s xs ys)

elem-unique_append :
    (s : String) (xs ys : List String) → elem s (unique [] (xs ++ ys)) ≡ (elem s xs || elem s ys)
unfolding elem
elem-unique_append s xs ys =
    elem-unique s [] (xs ++ ys) ∙ rw (elem-append s xs ys) (and_not (elem s xs || elem s ys))
  where
    and_not : (b : Bool) → (b && not false) ≡ b
    and_not b = ground arith

module _ (host : Host) (contract : Contract) (st : Store) (run_id project_root : String) where
  -- With a workflow named and a check unmet, the gated outcome fails, and its unmet items are those
  -- of the draft and those of the gate, each of them once.
  pub gate_outcomes-unmet :
      (outcome : Outcome)
      → is_blank run_id ≡ false
      → is_nil (gate_unmet host contract st run_id project_root) ≡ false
      → ((gate_outcomes host contract st run_id project_root outcome).passed ≡ false)
        × NoRepeat (gate_outcomes host contract st run_id project_root outcome).unmet
        × ((s : String)
            → elem s (gate_outcomes host contract st run_id project_root outcome).unmet
              ≡ (elem s outcome.unmet || elem s (gate_unmet host contract st run_id project_root)))
  unfolding gate_outcomes elem
  gate_outcomes-unmet outcome r u = rw r (
      rw u (
        refl,
        unique-NoRepeat [] (outcome.unmet ++ gate_unmet host contract st run_id project_root),
        (λ s. elem-unique_append s outcome.unmet (gate_unmet host contract st run_id project_root)),
      ))
