-- ===== src/Draft/Report.antt =====
-- The report of `check_draft` of core/reasoning/constraint_check.py.
use elite_reasoning_mcp.Prelude.{
  ◌+◌, String, ◌≡◌, ◌↔◌, refl, true, inl, inr, List, [], ◌∷◌, map, arith, All, keep, length,
  Bool-cases,
}
use elite_reasoning_mcp.Prelude.Nil.{is_nil}
use elite_reasoning_mcp.Workflow.{Constraint, Contract}
use elite_reasoning_mcp.Draft.Met.{IsMet, check_constraint-IsMet}
use elite_reasoning_mcp.Draft.{Python, ConstraintResult, check_constraint, unmet_of, check_draft}

unmet_of-nil :
    (rs : List ConstraintResult)
    → (is_nil (unmet_of rs) ≡ true) ↔ All (λ (r : ConstraintResult). r.passed ≡ true) rs
unfolding unmet_of
unmet_of-nil [] = ((λ h. tt), (λ h. refl))
unmet_of-nil (r ∷ rs) = elim (Bool-cases r.passed) [
  | inl e ↦ rw e ((λ h. (refl, (unmet_of-nil rs).0 h)), (λ h. (unmet_of-nil rs).1 h.1))
  | inr e ↦ rw e ((λ h. cc), (λ h. absurd (ground (arith, h.0))))
]

length-unmet_of :
    (rs : List ConstraintResult)
    → length (keep (λ (r : ConstraintResult). r.passed) rs) + length (unmet_of rs) ≡ length rs
unfolding unmet_of
length-unmet_of [] = refl
length-unmet_of (r ∷ rs) = ground (arith, length-unmet_of rs)

All-map_results :
    (python : Python) (draft : String) (cs : List Constraint)
    → All (λ (r : ConstraintResult). r.passed ≡ true) (map (check_constraint python draft) cs)
      ↔ All (λ (c : Constraint). (check_constraint python draft c).passed ≡ true) cs
All-map_results python draft [] = ((λ h. tt), (λ h. tt))
All-map_results python draft (c ∷ cs) =
    let rest = All-map_results python draft cs in
    ((λ h. (h.0, rest.0 h.1)), (λ h. (h.0, rest.1 h.1)))

length-map_results :
    (python : Python) (draft : String) (cs : List Constraint)
    → length (map (check_constraint python draft) cs) ≡ length cs
length-map_results python draft [] = refl
length-map_results python draft (c ∷ cs) = omega (arith, length-map_results python draft cs)

All-IsMet :
    (python : Python) (draft : String) (cs : List Constraint)
    → All (λ (c : Constraint). (check_constraint python draft c).passed ≡ true) cs
      ↔ All (IsMet python draft) cs
All-IsMet python draft [] = ((λ h. tt), (λ h. tt))
All-IsMet python draft (c ∷ cs) =
    let here = check_constraint-IsMet python draft c in
    let rest = All-IsMet python draft cs in
    ((λ h. (here.0 h.0, rest.0 h.1)), (λ h. (here.1 h.0, rest.1 h.1)))

-- A draft passes exactly when it does what each constraint of the contract asks for: it names at least
-- two of the required terms, or the only one; names no forbidden term and no mark of a pretended
-- success; has no more words than the cap; has the format; has a quote and a URL; has a mark of a
-- passing test run and no failure at its end; names only files that are allowed; or is a direct answer.
-- A constraint of another kind is never met. Each constraint counts in the pass rate or is listed as
-- unmet.
pub check_draft-passed :
    (python : Python) (draft : String) (contract : Contract)
    → (((check_draft python draft contract).passed ≡ true)
        ↔ All (IsMet python draft) contract.constraints)
      × ((check_draft python draft contract).pass_rate.0
            + length (check_draft python draft contract).unmet
          ≡ length contract.constraints)
unfolding check_draft
check_draft-passed python draft contract =
    let results = map (check_constraint python draft) contract.constraints in
    let nil = unmet_of-nil results in
    let each = All-map_results python draft contract.constraints in
    let met = All-IsMet python draft contract.constraints in
    (
      ((λ h. met.0 (each.0 (nil.0 h))), (λ h. nil.1 (each.1 (met.1 h)))),
      omega (arith, length-unmet_of results, length-map_results python draft contract.constraints),
    )
