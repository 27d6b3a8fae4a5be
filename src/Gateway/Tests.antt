-- ===== src/Gateway/Tests.antt =====
-- Runs and instances of the model of core/tools/gateway.py.
use Prim.Native.String.{count}
use elite_reasoning_mcp.Prelude.{
  ℕ, ◌+◌, ltb, if◌then◌else◌, String, ◌≡◌, ◌⊎◌, refl, inl, true, false, some, List, [], ◌∷◌, strip,
  lower, elem, contains, take_chars, drop_chars, decimal, is_blank, words,
}
use elite_reasoning_mcp.Prelude.Nil.{is_nil}
use elite_reasoning_mcp.Prelude.Sort.{sort_by}
use elite_reasoning_mcp.Verification.{pass, value}
use elite_reasoning_mcp.GitDiff.{
  Git, verify_git_diff, material, parse_porcelain_z, has_letter, distinct, is_dependency,
}
use elite_reasoning_mcp.GitDiff.Paths.{normalize_relative_path, join}
use elite_reasoning_mcp.GitDiff.Porcelain.{plain, print}
use elite_reasoning_mcp.Workflow.{
  Payload, Contract, Run, Step, Store, get_workflow_run, update_workflow_step,
  record_workflow_evidence, list_workflow_evidence,
}
use elite_reasoning_mcp.Continuity.{is_code, next_continuation}
use elite_reasoning_mcp.Gate.{Outcome, gate_unmet, gate_outcomes, unique, repository_snapshot}
use elite_reasoning_mcp.Draft.{check_draft}
use elite_reasoning_mcp.Command.{completed, exited, restricted_environment, run_allowlisted_command}
use elite_reasoning_mcp.Command.Success.{Succeeded}
use elite_reasoning_mcp.Playbook.{verify_outcomes}
use elite_reasoning_mcp.Verifiers.{
  Server, VerifierRequest, input_error, host_of, contract_from_dict, verify_outcome, verify_tests,
  test_execution, after_command,
}
use elite_reasoning_mcp.Verifiers.Contracts.{fallback_of}
use elite_reasoning_mcp.Verifiers.TestEvidence.{
  answers_pass, PayloadIs, digest_after, verify_tests-Succeeded,
}
use elite_reasoning_mcp.Gateway.{
  Gateway, validation_error, run_verifier, evidence_record, checked_result, persist_checked_result,
  with_continuation, conclude_check, verify_check, progress, progress_error, workflow_reply,
}
use elite_reasoning_mcp.Gateway.Held.{refused_payload, gated, IsHeld, failed_gate-IsHeld}
use elite_reasoning_mcp.Gateway.Steps.{Accepts, Refuses, progress-decides}

program : Unit {0}
unfolding verify_git_diff material parse_porcelain_z has_letter distinct is_dependency
    normalize_relative_path join print sort_by is_code lower strip elem contains take_chars
    drop_chars decimal is_blank words gate_outcomes repository_snapshot value unique check_draft
    restricted_environment run_allowlisted_command verify_outcome verify_tests test_execution
    after_command contract_from_dict run_verifier evidence_record checked_result
    persist_checked_result with_continuation conclude_check verify_check next_continuation
    get_workflow_run update_workflow_step record_workflow_evidence list_workflow_evidence progress
    progress_error workflow_reply
program = tt

abbrev tree : String → Git
tree digest = record {
  repository_root = λ s. (pass, "/repo", "");
  status_z = λ root. some (print (plain " " "M" "core/a.py" ∷ []));
  content_digest = λ root path. digest;
}

abbrev contract : Contract
contract = record {
  goal = "fix the bug";
  deliverable = "a Patch";
  constraints =
      record {
        id = "c1";
        kind = "run_tests";
        description = "";
        terms = [];
        value = 0;
        pattern = "";
      }
      ∷ [];
  do_not = [];
  next_action = "none";
}

-- A payload of too many characters is cut off, and read back as empty.
abbrev size_of : List String → ℕ
size_of [] = 0
size_of (t ∷ ts) = count t + size_of ts

abbrev stored : Payload → Payload
stored p =
    if ltb 9000 (size_of p.unmet)
    then record { executed = false; repository_snapshot_digest = ""; unmet = [] }
    else p

-- A test run leaves the tree with another content.
abbrev server : Server
server = record {
  boundary = record {
    redact_text = λ s n. take_chars n s;
    prompt_storage_value = λ s. s;
    stored_payload = stored;
    stored_limitations = λ l. l;
    stored_contract = λ c. c;
  };
  subject_digest = λ kind text. text;
  repr = λ s. s;
  python = record { word = λ n. true; repr_list = λ ss. "[]" };
  system = record {
    environ = ("ELITE_ALLOW_TEST_COMMAND", "1") ∷ [];
    shlex_split = λ s. some (s ∷ []);
    run = λ l w. (completed (exited 0) "1 passed" "", tree "sha256:1");
  };
  compile = λ s. contract;
}

abbrev gateway : Gateway
gateway = record {
  server = server;
  artifact_hex = λ kind producer digest payload. "0123";
  other_checks = λ request. inl (input_error "not here");
}

abbrev run : Run
run = record {
  run_id = "wf_1";
  user_prompt = "fix the bug";
  intent = "debug";
  complexity = 2;
  budget_tier = "direct";
  status = "planned";
  confidence = 42;
  evidence_requirements = [];
  validation_gates = [];
  memory_context = [];
  task_contract = contract;
  created_at = 1;
  updated_at = 1;
}

abbrev step : ℕ → String → Step
step index status = record {
  run_id = "wf_1";
  step_index = index;
  step_name = "plan";
  action = "plan";
  status = status;
  evidence = "";
  created_at = 1;
  updated_at = 1;
}

abbrev steps : List Step
steps = step 1 "running" ∷ step 2 "pending" ∷ []

abbrev store : Store
store = record { runs = run ∷ []; steps = steps; evidence = [] }

abbrev request : String → VerifierRequest
request check = record {
  check = check;
  query = "";
  draft = "pytest passed";
  run_id = " wf_1";
  code = "";
  language = "python";
  command = "pytest";
  project_root = "/repo";
  allowed_files = [];
  forbid_dependency_changes = false;
}

gate_is_unmet :
    is_nil (
      gate_unmet
        (host_of server (tree "sha256:0"))
        (contract_from_dict server.compile contract (fallback_of (request "outcomes") contract))
        store
        " wf_1"
        "/repo")
    ≡ false
unfolding program
gate_is_unmet = refl

run_is_stored : get_workflow_run server.boundary (strip " wf_1") store ≡ some (run, steps)
unfolding program
run_is_stored = refl

named : is_blank " wf_1" ≡ false
unfolding program
named = refl

drafted : is_blank "pytest passed" ≡ false
unfolding program
drafted = refl

abbrev outcome : Outcome
outcome = gated gateway 9 (tree "sha256:0") store (request "outcomes") run steps

unmet_kept : (stored (refused_payload outcome)).unmet ≡ outcome.unmet
unfolding program verify_outcomes
unmet_kept = refl

failed_gate-IsHeld_example :
    IsHeld (verify_check gateway 9 (tree "sha256:0") store (request "outcomes")).reply
failed_gate-IsHeld_example =
    failed_gate-IsHeld gateway 9 (tree "sha256:0") store (request "outcomes") run steps refl named
      drafted run_is_stored (record { constrained = refl; deliverable = refl }) tt unmet_kept
      gate_is_unmet

tests_pass : answers_pass (verify_tests server (tree "sha256:0") (request "tests")).answer ≡ true
unfolding program
tests_pass = refl

verify_tests-Succeeded_example :
    Succeeded server.system "pytest"
      (tree "sha256:0")
      (verify_tests server (tree "sha256:0") (request "tests")).launched
      (verify_tests server (tree "sha256:0") (request "tests")).git
    × PayloadIs (verify_tests server (tree "sha256:0") (request "tests")).answer true (
        digest_after server
          (tree "sha256:0")
          (request "tests")
          (verify_tests server (tree "sha256:0") (request "tests")).git)
verify_tests-Succeeded_example =
    verify_tests-Succeeded server (tree "sha256:0") (request "tests") tests_pass

progress_run :
    ((progress gateway 9 store "wf_1" 1 " Passed " "done").1.steps
      ≡ record (step 1 "passed") { evidence = "done"; updated_at = 9 } ∷ step 2 "pending" ∷ [])
    × ((progress gateway 9 store "wf_1" 2 "passed" "done").1 ≡ store)
    × ((progress gateway 9 store "wf_1" 1 "passed" " ").1 ≡ store)
    × ((progress gateway 9 store "wf_1" 3 "running" "").0
        ≡ inl (validation_error "Workflow step was not found."))
unfolding program
progress_run = (refl, refl, refl, refl)

progress-decides_example :
    Accepts gateway 9 store "wf_1" 1 "passed" "done"
    ⊎ Refuses gateway 9 store "wf_1" 1 "passed" "done"
progress-decides_example = progress-decides gateway 9 store "wf_1" 1 "passed" "done"
