-- ===== src/Gate/Held.antt =====
-- What a failed outcome gate (core/verification/registry.py) does to the next directive
-- (core/orchestration/continuity.py), once it is recorded.
use elite_reasoning_mcp.Prelude.{
  String, ◌≡◌, refl, ◌∙◌, Bool, true, false, ◌&&◌, ◌||◌, ◌⊎◌, inl, inr, List, [], ◌∷◌, ◌++◌, arith,
  if◌then◌else◌, any, first, str_eq, str_eq_iff, starts_with, elem, Bool-cases,
}
use elite_reasoning_mcp.Prelude.Nil.{is_nil}
use elite_reasoning_mcp.Workflow.{Contract, Evidence, Store}
use elite_reasoning_mcp.Continuity.{
  is_code, has_kind, is_due, is_stale, check_is_not_newer, position, continuation,
}
use elite_reasoning_mcp.Continuity.Failure.{failed_unmet-cons}
use elite_reasoning_mcp.Gate.{
  Host, records, has_passed, has_run_and_passed, syntax_unmet, scope_unmet, scope_terms, gate_tests,
  gate_unmet,
}
use elite_reasoning_mcp.Gate.Unmet.{elem-append}
use elite_reasoning_mcp.Gate.Prefixes.{
  Blames, syntax_unmet-Blames, tests_finding-Blames, scope_unmet-Blames,
}

-- A record of a failed outcome check.
pub record IsFailure (e : Evidence) : Type 0 where
  pub kind : e.check_kind ≡ "outcomes"
  pub failed : e.verification_status ≡ "FAIL"

due_again :
    (e : Evidence) (evidence : List Evidence) (prefix check : String)
    → IsFailure e
    → any (λ item. starts_with item prefix) e.payload.unmet ≡ true
    → str_eq "outcomes" check ≡ false
    → is_due (e ∷ evidence) prefix check ≡ true
unfolding is_due is_stale check_is_not_newer position
due_again e evidence prefix check f named other =
    let unmet = failed_unmet-cons e evidence f.kind f.failed in
    rw (unmet, named, f.kind, other) (ground arith)

any-elem :
    (p : String → Bool) (x : String) (ys : List String)
    → elem x ys ≡ true
    → p x ≡ true
    → any p ys ≡ true
unfolding elem
any-elem p x [] h k = absurd (ground arith)
any-elem p x (y ∷ ys) h k = elim (Bool-cases (str_eq y x)) [
  | inl e ↦ rw ((str_eq_iff y x).0 e, k) refl
  | inr e ↦ ground (arith, any-elem p x ys (rw e at h) k)
]

blamed :
    (prefix : String) (xs ys : List String)
    → Blames prefix xs
    → is_nil xs ≡ false
    → ((s : String) → elem s xs ≡ true → elem s ys ≡ true)
    → any (λ item. starts_with item prefix) ys ≡ true
unfolding elem
blamed prefix [] ys b n f = absurd (ground arith)
blamed prefix (x ∷ xs) ys b n f =
    any-elem (λ item. starts_with item prefix) x ys (f x (rw ((str_eq_iff x x).1 refl) refl)) b.0

due_stops :
    (rid : String) (c : Contract) (evidence : List Evidence)
    → ((is_code c && is_due evidence "syntax:" "syntax")
        || (has_kind c "scope_files" && is_due evidence "scope_files:" "diff")
        || (has_kind c "run_tests" && is_due evidence "run_tests:" "tests"))
      ≡ true
    → (continuation rid c evidence).stop_final_response ≡ true
unfolding continuation
due_stops rid c evidence h = ground arith

one_of_three :
    (s t f : List String)
    → is_nil (s ++ (t ++ f)) ≡ false
    → (is_nil s ≡ false) ⊎ ((is_nil t ≡ false) ⊎ (is_nil f ≡ false))
one_of_three (x ∷ s) t f h = inl refl
one_of_three [] (x ∷ t) f h = inr (inl refl)
one_of_three [] [] (x ∷ f) h = inr (inr refl)
one_of_three [] [] [] h = absurd (ground arith)

-- A list that is empty unless a check is asked for.
asked :
    (b : Bool) (xs : List String)
    → is_nil (if b then xs else []) ≡ false
    → (b ≡ true) × (is_nil xs ≡ false)
asked true xs h = (refl, h)
asked false xs h = absurd (ground arith)

within :
    (s t f ys : List String)
    → ((x : String) → elem x (s ++ (t ++ f)) ≡ true → elem x ys ≡ true)
    → (x : String) → (elem x s || elem x t || elem x f) ≡ true
    → elem x ys ≡ true
within s t f ys h x k =
    h x (
      elem-append x s (t ++ f) ∙ rw (elem-append x t f) (joined (elem x s) (elem x t) (elem x f) k))
  where
    joined : (a b c : Bool) → (a || b || c) ≡ true → (a || (b || c)) ≡ true
    joined a b c g = ground arith

-- The two contracts ask for the same checks.
pub record AsksAlike (c d : Contract) : Type 0 where
  pub code : is_code c ≡ is_code d
  pub tests : has_kind c "run_tests" ≡ has_kind d "run_tests"
  pub scope : has_kind c "scope_files" ≡ has_kind d "scope_files"

module _ (host : Host) (contract : Contract) (st : Store) (run_id project_root : String) where
  abbrev syntax_part : List String
  syntax_part =
      if is_code contract
      then syntax_unmet host project_root
          (first has_passed (records host contract st run_id project_root "syntax"))
      else []

  abbrev scope_part : List String
  scope_part =
      if has_kind contract "scope_files"
      then scope_unmet host project_root (scope_terms contract.constraints)
          (first has_passed (records host contract st run_id project_root "diff"))
      else []

  tests_part :
      is_nil (gate_tests host contract st run_id project_root).unmet ≡ false
      → (has_kind contract "run_tests" ≡ true)
        × Blames "run_tests:" (gate_tests host contract st run_id project_root).unmet
  unfolding gate_tests
  tests_part h = elim (Bool-cases (has_kind contract "run_tests")) [
    | inl k ↦ (
      k,
      rw k (
          tests_finding-Blames host project_root
            (first has_run_and_passed (records host contract st run_id project_root "tests"))),
    )
    | inr k ↦ absurd (ground arith)
  ]

  -- If the gate leaves a check unmet and a record of the failure, which lists what the gate found,
  -- stands first, the next directive holds the final response back.
  pub unmet_gate_stops :
      (rid : String) (stored : Contract) (e : Evidence) (evidence : List Evidence)
      → AsksAlike stored contract
      → IsFailure e
      → is_nil (gate_unmet host contract st run_id project_root) ≡ false
      → ((s : String)
          → elem s (gate_unmet host contract st run_id project_root) ≡ true
          → elem s e.payload.unmet ≡ true)
      → (continuation rid stored (e ∷ evidence)).stop_final_response ≡ true
  unfolding gate_unmet
  unmet_gate_stops rid stored e evidence alike f u lists =
      let tests = (gate_tests host contract st run_id project_root).unmet in
      let inside = within syntax_part tests scope_part e.payload.unmet lists in
      due_stops rid stored (e ∷ evidence) (elim (one_of_three syntax_part tests scope_part u) [
        | inl n ↦
            let found = first has_passed (records host contract st run_id project_root "syntax") in
            let (code, m) = asked (is_code contract) (syntax_unmet host project_root found) n in
            let named =
              blamed "syntax:" syntax_part e.payload.unmet
                (rw code (syntax_unmet-Blames host project_root found)) n
                (λ x k. inside x (rw k refl)) in
            ground (arith, alike.code, code, due_again e evidence "syntax:" "syntax" f named refl)
        | inr (inl n) ↦
            let (has_tests, b) = tests_part n in
            let named =
              blamed "run_tests:" tests e.payload.unmet b n
                (λ x k. inside x (or_middle (elem x syntax_part) (elem x scope_part) k)) in
            ground (
              arith,
              alike.tests,
              has_tests,
              due_again e evidence "run_tests:" "tests" f named refl,
            )
        | inr (inr n) ↦
            let found = first has_passed (records host contract st run_id project_root "diff") in
            let allowed = scope_terms contract.constraints in
            let (has_scope, m) =
              asked (has_kind contract "scope_files") (scope_unmet host project_root allowed found)
                n in
            let named =
              blamed "scope_files:" scope_part e.payload.unmet
                (rw has_scope (scope_unmet-Blames host project_root allowed found)) n
                (λ x k. inside x (or_last (elem x syntax_part) (elem x tests) k)) in
            ground (
              arith,
              alike.scope,
              has_scope,
              due_again e evidence "scope_files:" "diff" f named refl,
            )
      ])
    where
      or_middle : (a : Bool) {b : Bool} (c : Bool) → b ≡ true → (a || b || c) ≡ true
      or_middle a {b} c h = ground arith

      or_last : (a b : Bool) {c : Bool} → c ≡ true → (a || b || c) ≡ true
      or_last a b {c} h = ground arith
