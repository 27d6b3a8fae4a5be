-- ===== src/Continuity.antt =====
-- core/orchestration/continuity.py: the next call that a host has to make, from the evidence that
-- is stored for a workflow. The values of `required_args` are given as texts.
pub mod Ready
mod Due
pub mod Progress
pub mod Failure
mod Tests
use elite_reasoning_mcp.Prelude.{
  ℕ, zero, suc, String, Bool, true, false, not, ◌&&◌, ◌||◌, Option, none, some, List, [], ◌∷◌, ◌++◌,
  ltb, if◌then◌else◌, str_eq, starts_with, contains, lower, any, first, length,
}
use elite_reasoning_mcp.Workflow.{
  Boundary, Constraint, Contract, Run, Evidence, Store, get_workflow_run, list_workflow_evidence,
}

pub data Phase : Type 0 where
  unknown mid_work post_work final_gate complete : Phase

pub record ContinuationDirective : Type 0 where
  pub run_id : String
  pub phase : Phase
  pub checkpoint : String
  pub required_tool : String
  pub required_args : List (String × String)
  pub instruction : String
  pub stop_final_response : Bool

abbrev pub is_passing : String → Evidence → Bool
is_passing check e = str_eq e.check_kind check && str_eq e.verification_status "PASS"

-- `_passing`
abbrev pub passing : List Evidence → String → Option Evidence
passing evidence check = first (is_passing check) evidence

abbrev pub is_missing : List Evidence → String → Bool
is_missing evidence check = elim (passing evidence check) [ none ↦ true | some _ ↦ false ]

abbrev pub has_kind : Contract → String → Bool
has_kind c kind = any (λ (x : Constraint). str_eq x.kind kind) c.constraints

unfoldable pub is_code : Contract → Bool
is_code c =
    has_kind c "run_tests"
    || has_kind c "scope_files"
    || any (λ t. contains t (lower c.deliverable)) ("patch" ∷ "code" ∷ "validation log" ∷ [])

-- the index of the first element that passes the test, or the length
unfoldable pub position {ℓ} : {A : Type ℓ} → (A → Bool) → List A → ℕ
position p [] = zero
position p (x ∷ xs) = if p x then zero else suc (position p xs)

abbrev pub is_outcome : Evidence → Bool
is_outcome e = str_eq e.check_kind "outcomes"

-- The items that the latest outcome check, if it failed, found unmet.
unfoldable pub failed_unmet : List Evidence → List String
failed_unmet evidence = elim (first is_outcome evidence) [
  | none ↦ []
  | some e ↦ if str_eq e.verification_status "FAIL" then e.payload.unmet else []
]

-- `_check_is_not_newer`: `list.index` finds the latest outcome where `next` found it
unfoldable pub check_is_not_newer : List Evidence → String → Bool
unfolding position
check_is_not_newer evidence check =
    ltb (position is_outcome evidence) (position (is_passing check) evidence)

unfoldable pub is_stale : List Evidence → String → String → Bool
unfolding failed_unmet check_is_not_newer
is_stale evidence prefix check =
    any (λ item. starts_with item prefix) (failed_unmet evidence)
    && check_is_not_newer evidence check

-- A check that has to be made, or made again.
unfoldable pub is_due : List Evidence → String → String → Bool
unfolding is_stale
is_due evidence prefix check = is_missing evidence check || is_stale evidence prefix check

abbrev pub project_root : String
project_root = "<active repository root>"

unfoldable pub recover : String → ContinuationDirective
recover rid = record {
  run_id = rid;
  phase = unknown;
  checkpoint = "recover";
  required_tool = "elite_prepare";
  required_args = ("user_prompt", "<current user goal>") ∷ ("persist", "True") ∷ [];
  instruction = "The workflow is unavailable. Prepare a new durable workflow before continuing.";
  stop_final_response = true;
}

unfoldable pub verify_changed_code : String → ContinuationDirective
verify_changed_code rid = record {
  run_id = rid;
  phase = mid_work;
  checkpoint = "verify_changed_code";
  required_tool = "elite_verify";
  required_args =
      ("check", "syntax")
      ∷ ("run_id", rid)
      ∷ ("code", "<current changed code>")
      ∷ ("project_root", project_root)
      ∷ [];
  instruction =
      "After the first substantive edit, verify the current changed code. Do not wait until the final response.";
  stop_final_response = true;
}

unfoldable pub verify_repository_scope : String → ContinuationDirective
verify_repository_scope rid = record {
  run_id = rid;
  phase = mid_work;
  checkpoint = "verify_repository_scope";
  required_tool = "elite_verify";
  required_args = ("check", "diff") ∷ ("run_id", rid) ∷ ("project_root", project_root) ∷ [];
  instruction = "Verify tracked and untracked file scope after edits and before tests.";
  stop_final_response = true;
}

unfoldable pub run_tests : String → ContinuationDirective
run_tests rid = record {
  run_id = rid;
  phase = post_work;
  checkpoint = "run_tests";
  required_tool = "elite_verify";
  required_args =
      ("check", "tests")
      ∷ ("run_id", rid)
      ∷ ("command", "pytest")
      ∷ ("project_root", project_root)
      ∷ [];
  instruction = "Run independently captured tests bound to the current repository state.";
  stop_final_response = true;
}

unfoldable pub verify_outcomes : Bool → String → ContinuationDirective
verify_outcomes code rid = record {
  run_id = rid;
  phase = final_gate;
  checkpoint = "verify_outcomes";
  required_tool = "elite_verify";
  required_args =
      ("check", "outcomes")
      ∷ ("run_id", rid)
      ∷ ("draft", "<final draft>")
      ∷ (if code then ("project_root", project_root) ∷ [] else []);
  instruction = "Run the final independent outcome gate. Answer only when it returns PASS/DONE.";
  stop_final_response = true;
}

unfoldable pub done : String → ContinuationDirective
done rid = record {
  run_id = rid;
  phase = complete;
  checkpoint = "done";
  required_tool = "";
  required_args = [];
  instruction =
      "All required checkpoints have current passing evidence. The final response may be delivered.";
  stop_final_response = false;
}

unfoldable pub continuation : String → Contract → List Evidence → ContinuationDirective
unfolding verify_changed_code verify_repository_scope run_tests verify_outcomes done
continuation rid c evidence =
    if is_code c && is_due evidence "syntax:" "syntax"
    then verify_changed_code rid
    else if has_kind c "scope_files" && is_due evidence "scope_files:" "diff"
    then verify_repository_scope rid
    else if has_kind c "run_tests" && is_due evidence "run_tests:" "tests"
    then run_tests rid
    else if is_missing evidence "outcomes"
    then verify_outcomes (is_code c) rid
    else done rid

unfoldable pub next_continuation : Boundary → Store → String → ContinuationDirective
unfolding continuation recover get_workflow_run
next_continuation b st rid = elim (get_workflow_run b rid st) [
  | none ↦ recover rid
  | some (run, _) ↦ continuation rid run.task_contract (list_workflow_evidence rid "" 200 st)
]
