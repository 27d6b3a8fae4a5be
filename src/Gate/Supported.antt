-- ===== src/Gate/Supported.antt =====
-- When the outcome gate of core/verification/registry.py lets an outcome pass.
use elite_reasoning_mcp.Prelude.{
  String, ◌≡◌, ◌↔◌, ◌∙◌, sym, refl, Bool, true, false, not, ◌&&◌, Option, none, some, List, [],
  arith, inl, inr, if◌then◌else◌, is_blank, strip, first, Bool-cases,
}
use elite_reasoning_mcp.Prelude.Nil.{is_nil, is_nil-append}
use elite_reasoning_mcp.Verification.{pass, is_pass, is_pass_iff}
use elite_reasoning_mcp.GitDiff.{verify_git_diff}
use elite_reasoning_mcp.Workflow.{Contract, Evidence, Store, list_workflow_evidence}
use elite_reasoning_mcp.Continuity.{has_kind, is_code}
use elite_reasoning_mcp.Gate.{
  Host, Outcome, repository_snapshot, has_passed, has_run_and_passed, worktree_digest, syntax_unmet,
  tests_finding, scope_unmet, scope_terms, gate_tests, gate_unmet, gate_outcomes, unmet_if,
}
use elite_reasoning_mcp.Gate.Checks.{
  IsCurrent, syntax_of-IsCurrent, tests_of-IsCurrent, scope_of-some,
}

unmet_if-nil : (b : Bool) (item : String) → (is_nil (unmet_if (not b) item) ≡ true) ↔ (b ≡ true)
unmet_if-nil b item = ground arith

module _ (host : Host) (project_root : String) where
  -- The latest passing syntax evidence is current, if a repository is named.
  pub record SyntaxSupport (found : Option Evidence) : Type 0 where
    pub latest : Evidence
    pub is_latest : found ≡ some latest
    pub current :
        is_blank project_root ≡ false → IsCurrent (repository_snapshot host project_root) latest

  -- The latest passing evidence of tests that were run is current, in a repository that is named.
  pub record TestsSupport (found : Option Evidence) : Type 0 where
    pub latest : Evidence
    pub is_latest : found ≡ some latest
    pub named : is_blank project_root ≡ false
    pub current : IsCurrent (repository_snapshot host project_root) latest

  -- The scope is verified now, and the latest passing scope evidence is of the present state.
  pub record ScopeSupport (allowed : List String) (found : Option Evidence) : Type 0 where
    pub named : is_blank project_root ≡ false
    pub in_scope : (verify_git_diff host.git project_root allowed false).status ≡ pass
    pub latest : Evidence
    pub is_latest : found ≡ some latest
    pub current :
        latest.subject_digest
        ≡ worktree_digest host (verify_git_diff host.git project_root allowed false)

  syntax_unmet-SyntaxSupport :
      (found : Option Evidence)
      → (is_nil (syntax_unmet host project_root found) ≡ true) ↔ SyntaxSupport found
  unfolding syntax_unmet
  syntax_unmet-SyntaxSupport none =
      ((λ h. absurd (ground arith)), (λ s. let e = s.is_latest in absurd (ground arith)))
  syntax_unmet-SyntaxSupport (some e) =
      let c = syntax_of-IsCurrent (is_blank project_root) (repository_snapshot host project_root) in
      (
        (λ h. record { latest = e; is_latest = refl; current = (c e).0 h }),
        (λ s. let k : e ≡ s.latest = ground (arith, s.is_latest) in (c e).1 (rw k s.current)),
      )

  tests_finding-TestsSupport :
      (found : Option Evidence)
      → (is_nil (tests_finding host project_root found).unmet ≡ true) ↔ TestsSupport found
  unfolding tests_finding
  tests_finding-TestsSupport none =
      ((λ h. absurd (ground arith)), (λ s. let e = s.is_latest in absurd (ground arith)))
  tests_finding-TestsSupport (some e) =
      let c = tests_of-IsCurrent (is_blank project_root) (repository_snapshot host project_root) in
      (
        (λ h. record {
          latest = e;
          is_latest = refl;
          named = ((c e).0 h).0;
          current = ((c e).0 h).1;
        }),
        (λ s.
            let k : e ≡ s.latest = ground (arith, s.is_latest) in
            (c e).1 (s.named, rw k s.current)),
      )

  pub scope_unmet-ScopeSupport :
      (allowed : List String) (found : Option Evidence)
      → (is_nil (scope_unmet host project_root allowed found) ≡ true) ↔ ScopeSupport allowed found
  unfolding scope_unmet
  scope_unmet-ScopeSupport allowed found = elim (Bool-cases (is_blank project_root)) [
    | inl b ↦ rw b ((λ h. absurd (ground arith)), (λ s. let n = s.named in absurd (ground arith)))
    | inr b ↦ rw b (
      (λ h.
          let (a, k) = (is_nil-append (unmet_if (not (is_pass _)) _) _).0 h in
          let (e, f, d) = (scope_of-some _ found).0 k in
          record {
            named = b;
            in_scope = (is_pass_iff _).0 ((unmet_if-nil _ _).0 a);
            latest = e;
            is_latest = f;
            current = d;
          }),
      (λ s. (is_nil-append (unmet_if (not (is_pass _)) _) _).1 (
        (unmet_if-nil _ _).1 ((is_pass_iff _).1 s.in_scope),
        (scope_of-some _ found).1 (s.latest, s.is_latest, s.current),
      )),
    )
  ]

-- Each check that the contract asks for is supported.
pub record Supported (host : Host) (contract : Contract) (st : Store) (run_id project_root : String)
    : Type 0 where
  pub syntax :
      is_code contract ≡ true
      → SyntaxSupport host project_root
          (first has_passed (list_workflow_evidence (strip run_id) "syntax" 20 st))
  pub tests :
      has_kind contract "run_tests" ≡ true
      → TestsSupport host project_root
          (first has_run_and_passed (list_workflow_evidence (strip run_id) "tests" 20 st))
  pub scope :
      has_kind contract "scope_files" ≡ true
      → ScopeSupport host project_root
          (scope_terms contract.constraints)
          (first has_passed (list_workflow_evidence (strip run_id) "diff" 20 st))

and_true : (b : Bool) → b ≡ (b && true)
and_true b = ground arith

and_false : (b : Bool) → false ≡ (b && false)
and_false b = ground arith

both : {a b : Bool} → (a && b) ≡ true → (a ≡ true) × (b ≡ true)
both h = ground arith

when_asked :
    {P : Type 0} (asked : Bool) (items : List String)
    → (is_nil items ≡ true) ↔ P
    → (is_nil (if asked then items else []) ≡ true) ↔ (asked ≡ true → P)
when_asked true items c = ((λ h k. c.0 h), (λ h. c.1 (h refl)))
when_asked false items c = ((λ h k. absurd (ground arith)), (λ h. refl))

module _ (host : Host) (contract : Contract) (st : Store) (run_id project_root : String) where
  gate_tests-TestsSupport :
      (is_nil (gate_tests host contract st run_id project_root).unmet ≡ true) ↔ (
        has_kind contract "run_tests" ≡ true
        → TestsSupport host project_root
            (first has_run_and_passed (list_workflow_evidence (strip run_id) "tests" 20 st)))
  unfolding gate_tests
  gate_tests-TestsSupport = elim (Bool-cases (has_kind contract "run_tests")) [
    | inl e ↦ rw e (
      (λ h k. (tests_finding-TestsSupport host project_root _).0 h),
      (λ h. (tests_finding-TestsSupport host project_root _).1 (h refl)),
    )
    | inr e ↦ rw e ((λ h k. absurd (ground arith)), (λ h. refl))
  ]

  gate_unmet-Supported :
      (is_nil (gate_unmet host contract st run_id project_root) ≡ true)
      ↔ Supported host contract st run_id project_root
  unfolding gate_unmet
  gate_unmet-Supported =
      let sy = when_asked (is_code contract) _ (
        syntax_unmet-SyntaxSupport host project_root
          (first has_passed (list_workflow_evidence (strip run_id) "syntax" 20 st))) in
      let sc = when_asked (has_kind contract "scope_files") _ (
        scope_unmet-ScopeSupport host project_root (scope_terms contract.constraints)
          (first has_passed (list_workflow_evidence (strip run_id) "diff" 20 st))) in
      (
        (λ h.
            let (a, k) = (is_nil-append _ _).0 h in
            let (t, c) = (is_nil-append _ _).0 k in
            record { syntax = sy.0 a; tests = gate_tests-TestsSupport.0 t; scope = sc.0 c }),
        (λ s. (is_nil-append _ _).1 (
          sy.1 s.syntax,
          (is_nil-append _ _).1 (gate_tests-TestsSupport.1 s.tests, sc.1 s.scope),
        )),
      )

  gate_outcomes-passed :
      (outcome : Outcome)
      → is_blank run_id ≡ false
      → (gate_outcomes host contract st run_id project_root outcome).passed
        ≡ (outcome.passed && is_nil (gate_unmet host contract st run_id project_root))
  unfolding gate_outcomes
  gate_outcomes-passed outcome r =
      elim (Bool-cases (is_nil (gate_unmet host contract st run_id project_root))) [
        | inl e ↦ rw r (rw e (and_true outcome.passed))
        | inr e ↦ rw r (rw e (and_false outcome.passed))
      ]

  -- With a workflow named, the gated outcome passes exactly when the draft's own outcome passes and
  -- each check that the contract asks for is supported. For a code deliverable that is the latest
  -- passing syntax record, which has to be bound to the present state of the repository only if a
  -- project root is named; with a blank root any passing syntax record will do. For tests and for a
  -- scope of files a project root has to be named: the latest passing record of executed tests is
  -- bound to the present state, and the scope is verified now and was recorded in the present state.
  pub gate_outcomes-Supported :
      (outcome : Outcome)
      → is_blank run_id ≡ false
      → ((gate_outcomes host contract st run_id project_root outcome).passed ≡ true)
        ↔ ((outcome.passed ≡ true) × Supported host contract st run_id project_root)
  gate_outcomes-Supported outcome r =
      let p = gate_outcomes-passed outcome r in
      (
        (λ h.
            let k : (outcome.passed && is_nil (gate_unmet host contract st run_id project_root))
                ≡ true =
              sym p ∙ h in
            ((both k).0, gate_unmet-Supported.0 (both k).1)),
        (λ (o, s). p ∙ rw (o, gate_unmet-Supported.1 s) refl),
      )
