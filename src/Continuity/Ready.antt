-- ===== src/Continuity/Ready.antt =====
-- When `next_continuation` of core/orchestration/continuity.py lets the final response go.
use elite_reasoning_mcp.Prelude.{
  suc, ◌≤◌, String, ◌≡◌, ◌≢◌, ◌↔◌, ap, Bool, true, false, inl, inr, none, some, List, [], ◌∷◌,
  arith, str_eq_iff, starts_with, any, All, All-imp, length, first, ◌++◌, Bool-cases, Option-cases,
}
use elite_reasoning_mcp.Workflow.{
  Boundary, Contract, Run, Step, Evidence, Store, get_workflow_run, list_workflow_evidence,
}
use elite_reasoning_mcp.Continuity.{
  is_passing, is_missing, has_kind, is_code, is_outcome, failed_unmet, is_due, position, recover,
  continuation, next_continuation,
}

-- A passing record of the check stands in the list, newest first; and if the latest outcome check
-- failed on an item with the prefix, that record is newer than every outcome check.
abbrev pub Fresh : List Evidence → String → String → Type 0
Fresh evidence prefix check =
    (newer : List Evidence) × (e : Evidence) × (older : List Evidence) × (evidence
      ≡ newer ++ e ∷ older)
    × (e.check_kind ≡ check)
    × (e.verification_status ≡ "PASS")
    × (any (λ item. starts_with item prefix) (failed_unmet evidence) ≡ true
        → All (λ (x : Evidence). x.check_kind ≢ "outcomes") newer)

passing_iff :
    (check : String) (e : Evidence)
    → (is_passing check e ≡ true) ↔ ((e.check_kind ≡ check) × (e.verification_status ≡ "PASS"))
passing_iff check e =
    ground (arith, str_eq_iff e.check_kind check, str_eq_iff e.verification_status "PASS")

module _ {ℓ} {A : Type ℓ} (p : A → Bool) where
  -- Where the first element that passes stands.
  split_first :
      (xs : List A) {a : A}
      → first p xs ≡ some a
      → (before after : List A) × (xs ≡ before ++ a ∷ after)
        × (p a ≡ true)
        × (position p xs ≡ length before)
  unfolding position
  split_first [] h = absurd (ground arith)
  split_first (x ∷ xs) h = elim (Bool-cases (p x)) [
    | inl e ↦ ([], xs, ground arith, ground arith, rw e)
    | inr e ↦
        let (before, after, here, pass, at) = split_first xs (ground arith) in
        (x ∷ before, after, ap (◌∷◌ x) here, pass, rw e (ap suc at))
  ]

  position_late :
      (before after : List A)
      → length before ≤ position p (before ++ after)
      → All (λ x. p x ≡ false) before
  unfolding position
  position_late [] after h = tt
  position_late (x ∷ before) after h = elim (Bool-cases (p x)) [
    | inl e ↦ absurd (late_absurd e h)
    | inr e ↦ (e, position_late before after (ground arith))
  ]
    where
      late_absurd : p x ≡ true → suc (length before) ≤ position p (x ∷ before ++ after) → ⊥
      late_absurd e h = ground arith

  late_position :
      (before after : List A)
      → All (λ x. p x ≡ false) before
      → length before ≤ position p (before ++ after)
  unfolding position
  late_position [] after h = omega arith
  late_position (x ∷ before) after h = rw h.0 (omega (arith, late_position before after h.1))

  position_here :
      (before : List A) (a : A) (after : List A)
      → p a ≡ true
      → position p (before ++ a ∷ after) ≤ length before
  unfolding position
  position_here [] a after h = rw h (omega arith)
  position_here (x ∷ before) a after h = ground (arith, position_here before a after h)

  first_here :
      (before : List A) (a : A) (after : List A) → p a ≡ true → first p (before ++ a ∷ after) ≢ none
  first_here [] a after h e = ground arith
  first_here (x ∷ before) a after h e = ground (arith, first_here before a after h)

not_outcome_iff : (x : Evidence) → (is_outcome x ≡ false) ↔ (x.check_kind ≢ "outcomes")
not_outcome_iff x = (
  (λ h e. ground (arith, str_eq_iff x.check_kind "outcomes")),
  (λ h. ground (arith, str_eq_iff x.check_kind "outcomes")),
)

module _ (evidence : List Evidence) (prefix check : String) where
  Fresh-of_clear : is_due evidence prefix check ≡ false → Fresh evidence prefix check
  unfolding is_due
  Fresh-of_clear h = elim (Option-cases (first (is_passing check) evidence)) [
    | inl e ↦ absurd (ground arith)
    | inr (a, e) ↦
        let (before, after, here, pass, at) = split_first (is_passing check) evidence e in
        (
          before,
          a,
          after,
          here,
          ((passing_iff check a).0 pass).0,
          ((passing_iff check a).0 pass).1,
          (λ blamed.
              All-imp _ _ before (λ x. (not_outcome_iff x).0)
                (position_late is_outcome before (a ∷ after) (rw (← here) (ground arith)))),
        )
  ]

  clear-of_Fresh : Fresh evidence prefix check → is_due evidence prefix check ≡ false
  unfolding is_due
  clear-of_Fresh (before, a, after, here, k, s, clear) =
      let pass : is_passing check a ≡ true = (passing_iff check a).1 (k, s) in
      let found : first (is_passing check) evidence ≢ none =
        rw here (first_here (is_passing check) before a after pass) in
      let at : position (is_passing check) evidence ≤ length before =
        rw here (position_here (is_passing check) before a after pass) in
      elim (Bool-cases (any (λ item. starts_with item prefix) (failed_unmet evidence))) [
        | inr e ↦ ground arith
        | inl e ↦
            let late : length before ≤ position is_outcome evidence = rw here (
              late_position is_outcome before (a ∷ after)
                (All-imp _ _ before (λ x. (not_outcome_iff x).1) (clear e))) in
            ground arith
      ]

-- Every check that the contract asks for is fresh, and some outcome check passed.
pub record IsReady (c : Contract) (evidence : List Evidence) : Type 0 where
  pub syntax : is_code c ≡ true → Fresh evidence "syntax:" "syntax"
  pub scope : has_kind c "scope_files" ≡ true → Fresh evidence "scope_files:" "diff"
  pub tests : has_kind c "run_tests" ≡ true → Fresh evidence "run_tests:" "tests"
  pub outcome : is_missing evidence "outcomes" ≡ false

record NothingDue (c : Contract) (evidence : List Evidence) : Type 0 where
  syntax : is_code c ≡ true → is_due evidence "syntax:" "syntax" ≡ false
  scope : has_kind c "scope_files" ≡ true → is_due evidence "scope_files:" "diff" ≡ false
  tests : has_kind c "run_tests" ≡ true → is_due evidence "run_tests:" "tests" ≡ false
  outcome : is_missing evidence "outcomes" ≡ false

continuation-NothingDue :
    (rid : String) (c : Contract) (evidence : List Evidence)
    → ((continuation rid c evidence).stop_final_response ≡ false) ↔ NothingDue c evidence
unfolding continuation
continuation-NothingDue rid c evidence = ((λ h. ground arith), (λ h. ground arith))

pub continuation-IsReady :
    (rid : String) (c : Contract) (evidence : List Evidence)
    → ((continuation rid c evidence).stop_final_response ≡ false) ↔ IsReady c evidence
continuation-IsReady rid c evidence = (
  (λ h.
      let n = (continuation-NothingDue rid c evidence).0 h in
      record {
        syntax = λ e. Fresh-of_clear evidence "syntax:" "syntax" (n.syntax e);
        scope = λ e. Fresh-of_clear evidence "scope_files:" "diff" (n.scope e);
        tests = λ e. Fresh-of_clear evidence "run_tests:" "tests" (n.tests e);
        outcome = n.outcome;
      }),
  (λ r. (continuation-NothingDue rid c evidence).1 (record {
    syntax = λ e. clear-of_Fresh evidence "syntax:" "syntax" (r.syntax e);
    scope = λ e. clear-of_Fresh evidence "scope_files:" "diff" (r.scope e);
    tests = λ e. clear-of_Fresh evidence "run_tests:" "tests" (r.tests e);
    outcome = r.outcome;
  })),
)

-- The final response is let go exactly when the run is stored and ready: each check that its
-- contract asks for has a passing record among the 200 newest which, if the latest outcome check
-- failed on that check, is newer than every outcome check; and an outcome check has passed.
pub next_continuation-IsReady :
    (b : Boundary) (st : Store) (rid : String)
    → ((next_continuation b st rid).stop_final_response ≡ false) ↔ (
        (run : Run) × (steps : List Step) × (get_workflow_run b rid st ≡ some (run, steps))
        × IsReady run.task_contract (list_workflow_evidence rid "" 200 st))
unfolding next_continuation
next_continuation-IsReady b st rid = (
  (λ h. elim (Option-cases (get_workflow_run b rid st)) [
    | inl e ↦ absurd (unfold recover in ground arith)
    | inr (found, e) ↦ (
      found.0,
      found.1,
      e,
      (continuation-IsReady rid found.0.task_contract (list_workflow_evidence rid "" 200 st)).0 (
          let k : next_continuation b st rid
              ≡ continuation rid found.0.task_contract (list_workflow_evidence rid "" 200 st) =
            rw (e, next_continuation) in
          rw k at h),
    )
  ]),
  (λ (run, steps, e, ready).
      rw (e, next_continuation)
        ((continuation-IsReady rid run.task_contract (list_workflow_evidence rid "" 200 st)).1
          ready)),
)
