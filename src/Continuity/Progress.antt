-- ===== src/Continuity/Progress.antt =====
-- A host that makes the call which core/orchestration/continuity.py asks for gets on.
use elite_reasoning_mcp.Prelude.{
  ℕ, zero, suc, ◌≤◌, ◌<◌, String, ◌≡◌, refl, Bool, true, false, ◌&&◌, inl, inr, List, [], ◌∷◌,
  arith, if◌then◌else◌, str_eq, Bool-cases,
}
use elite_reasoning_mcp.Workflow.{Contract, Evidence}
use elite_reasoning_mcp.Continuity.{
  ContinuationDirective, is_passing, is_missing, has_kind, is_code, is_due, continuation,
}
use elite_reasoning_mcp.Continuity.Due.{due-cons_self, due-cons_ne, due-cons_outcome, other_check}

-- How many checkpoints are at most ahead.
abbrev pub checkpoints_left : Bool → Bool → Bool → Bool → ℕ
checkpoints_left syntax scope tests outcome =
    if syntax then 4 else if scope then 3 else if tests then 2 else if outcome then 1 else 0

unfoldable pub remaining : Contract → List Evidence → ℕ
remaining c evidence =
    checkpoints_left (is_code c && is_due evidence "syntax:" "syntax")
      (has_kind c "scope_files" && is_due evidence "scope_files:" "diff")
      (has_kind c "run_tests" && is_due evidence "run_tests:" "tests")
      (is_missing evidence "outcomes")

-- The check that a directive asks the host to run.
abbrev check_arg : List (String × String) → String
check_arg [] = ""
check_arg ((k, v) ∷ args) = if str_eq k "check" then v else check_arg args

abbrev pub required_check : ContinuationDirective → String
required_check d = check_arg d.required_args

module _ (rid : String) (c : Contract) (evidence : List Evidence) (e : Evidence) where
  abbrev syntax_due : List Evidence → Bool
  syntax_due ev = is_code c && is_due ev "syntax:" "syntax"

  abbrev scope_due : List Evidence → Bool
  scope_due ev = has_kind c "scope_files" && is_due ev "scope_files:" "diff"

  abbrev tests_due : List Evidence → Bool
  tests_due ev = has_kind c "run_tests" && is_due ev "run_tests:" "tests"

  syntax_step :
      syntax_due evidence ≡ true
      → is_passing "syntax" e ≡ true
      → remaining c (e ∷ evidence) < remaining c evidence
  unfolding remaining
  syntax_step due p = ground (arith, due-cons_self e evidence "syntax:" "syntax" p)

  scope_step :
      syntax_due evidence ≡ false
      → scope_due evidence ≡ true
      → is_passing "diff" e ≡ true
      → remaining c (e ∷ evidence) < remaining c evidence
  unfolding remaining
  scope_step clear due p = ground (
    arith,
    other_check "diff" "syntax" e p refl,
    other_check "diff" "outcomes" e p refl,
    due-cons_self e evidence "scope_files:" "diff" p,
    due-cons_ne e evidence "syntax:" "syntax",
  )

  tests_step :
      syntax_due evidence ≡ false
      → scope_due evidence ≡ false
      → tests_due evidence ≡ true
      → is_passing "tests" e ≡ true
      → remaining c (e ∷ evidence) < remaining c evidence
  unfolding remaining
  tests_step clear clear' due p = ground (
    arith,
    other_check "tests" "syntax" e p refl,
    other_check "tests" "diff" e p refl,
    other_check "tests" "outcomes" e p refl,
    due-cons_self e evidence "run_tests:" "tests" p,
    due-cons_ne e evidence "syntax:" "syntax",
    due-cons_ne e evidence "scope_files:" "diff",
  )

  outcome_step :
      syntax_due evidence ≡ false
      → scope_due evidence ≡ false
      → tests_due evidence ≡ false
      → is_missing evidence "outcomes" ≡ true
      → is_passing "outcomes" e ≡ true
      → remaining c (e ∷ evidence) < remaining c evidence
  unfolding remaining
  outcome_step clear clear' clear'' due p = ground (
    arith,
    other_check "outcomes" "syntax" e p refl,
    other_check "outcomes" "diff" e p refl,
    other_check "outcomes" "tests" e p refl,
    due-cons_outcome e evidence "syntax:" "syntax",
    due-cons_outcome e evidence "scope_files:" "diff",
    due-cons_outcome e evidence "run_tests:" "tests",
  )

  -- If the response is held back, and the check that the directive asks for then passes and its
  -- record is listed first, fewer checkpoints are left.
  pub remaining-decreases :
      (continuation rid c evidence).stop_final_response ≡ true
      → is_passing (required_check (continuation rid c evidence)) e ≡ true
      → remaining c (e ∷ evidence) < remaining c evidence
  unfolding continuation
  remaining-decreases stop h = elim (Bool-cases (syntax_due evidence)) [
    | inl s ↦ syntax_step s (rw (s, continuation) at h)
    | inr s ↦ elim (Bool-cases (scope_due evidence)) [
      | inl d ↦ scope_step s d (rw (s, d, continuation) at h)
      | inr d ↦ elim (Bool-cases (tests_due evidence)) [
        | inl t ↦ tests_step s d t (rw (s, d, t, continuation) at h)
        | inr t ↦ elim (Bool-cases (is_missing evidence "outcomes")) [
          | inl o ↦ outcome_step s d t o (rw (s, d, t, o, continuation) at h)
          | inr o ↦ absurd (ground arith)
        ]
      ]
    ]
  ]

remaining-le : (c : Contract) (evidence : List Evidence) → remaining c evidence ≤ 4
unfolding remaining
remaining-le c evidence = ground arith

held_back :
    (rid : String) (c : Contract) (evidence : List Evidence)
    → (continuation rid c evidence).stop_final_response ≡ true
    → 0 < remaining c evidence
unfolding continuation remaining
held_back rid c evidence h = ground arith

-- A host that runs the check asked for, and stops when the response is let go.
module _ (rid : String) (c : Contract) (respond : ContinuationDirective → Evidence) where
  abbrev pub follow : ℕ → List Evidence → List Evidence
  follow zero evidence = evidence
  follow (suc n) evidence =
      let d = continuation rid c evidence in
      let next = follow n (respond d ∷ evidence) in if d.stop_final_response then next else evidence

  follow_enough :
      ((d : ContinuationDirective)
        → d.stop_final_response ≡ true
        → is_passing (required_check d) (respond d) ≡ true)
      → (n : ℕ) (evidence : List Evidence) → remaining c evidence ≤ n
      → (continuation rid c (follow n evidence)).stop_final_response ≡ false
  unfolding continuation
  follow_enough passes zero evidence h =
      elim (Bool-cases (continuation rid c evidence).stop_final_response) [
        | inl s ↦ absurd (omega (arith, held_back rid c evidence s))
        | inr s ↦ s
      ]
  follow_enough passes (suc n) evidence h =
      elim (Bool-cases (continuation rid c evidence).stop_final_response) [
        | inr s ↦ rw s s
        | inl s ↦ rw s (
            follow_enough passes n (respond (continuation rid c evidence) ∷ evidence) (
              omega (
                arith,
                remaining-decreases rid c evidence (respond (continuation rid c evidence)) s
                    (passes (continuation rid c evidence) s),
              )))
      ]

  -- If each check that is asked for passes when the host runs it, and its record is listed first,
  -- then after at most four calls the final response is let go, whatever the contract and the
  -- evidence at the start.
  pub follow_completes :
      ((d : ContinuationDirective)
        → d.stop_final_response ≡ true
        → is_passing (required_check d) (respond d) ≡ true)
      → (evidence : List Evidence)
      → (continuation rid c (follow 4 evidence)).stop_final_response ≡ false
  follow_completes passes evidence = follow_enough passes 4 evidence (remaining-le c evidence)
