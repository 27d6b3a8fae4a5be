-- ===== src/Gate/Tests.antt =====
-- Runs and instances of the model of the outcome gate of core/verification/registry.py.
use elite_reasoning_mcp.Prelude.{
  String, ◌≡◌, ◌↔◌, refl, Bool, true, false, none, some, [], ◌∷◌, elem, lower, strip, is_blank,
  contains, take_chars, drop_chars, decimal,
}
use elite_reasoning_mcp.Prelude.Nil.{is_nil}
use elite_reasoning_mcp.Prelude.Sort.{sort_by}
use elite_reasoning_mcp.Verification.{pass, value}
use elite_reasoning_mcp.GitDiff.{
  Git, verify_git_diff, material, parse_porcelain_z, has_letter, distinct, is_dependency,
}
use elite_reasoning_mcp.GitDiff.Paths.{normalize_relative_path, join}
use elite_reasoning_mcp.GitDiff.Porcelain.{plain, print}
use elite_reasoning_mcp.Workflow.{
  Boundary, Contract, NewEvidence, Run, Evidence, Store, list_workflow_evidence,
  record_workflow_evidence,
}
use elite_reasoning_mcp.Continuity.{is_code}
use elite_reasoning_mcp.Gate.{
  Host, Outcome, worktree_digest, repository_snapshot, gate_outcomes, gate_unmet, gate_tests,
  scope_unmet, unique,
}
use elite_reasoning_mcp.Gate.Supported.{Supported, gate_outcomes-Supported}
use elite_reasoning_mcp.Gate.Policy.{forbidding_diff_unmet}
use elite_reasoning_mcp.Gate.Recorded.{IsProof, gate_tests-record}

abbrev repository : Git
repository = record {
  repository_root = λ s. (pass, "/repo", "");
  status_z = λ root. some (print (plain " " "M" "core/a.py" ∷ []));
  content_digest = λ root path. "sha256:0";
}

abbrev host : Host
host = record { git = repository; subject_digest = λ kind text. text; repr = λ s. s }

abbrev plain_boundary : Boundary
plain_boundary = record {
  redact_text = λ s n. take_chars n s;
  prompt_storage_value = λ s. s;
  stored_payload = λ p. p;
  stored_limitations = λ l. l;
  stored_contract = λ c. c;
}

abbrev contract : Contract
contract = record {
  goal = "fix the bug";
  deliverable = "a Patch";
  constraints =
      record {
        id = "c1";
        kind = "run_tests";
        description = "";
        terms = [];
        value = 0;
        pattern = "";
      }
      ∷ record {
        id = "c2";
        kind = "scope_files";
        description = "";
        terms = "core/a.py" ∷ [];
        value = 0;
        pattern = "";
      }
      ∷ [];
  do_not = [];
  next_action = "none";
}

program : Unit {0}
unfolding verify_git_diff material parse_porcelain_z has_letter distinct is_dependency
    normalize_relative_path join print sort_by list_workflow_evidence is_code lower strip elem
    contains take_chars drop_chars decimal is_blank gate_outcomes repository_snapshot value unique
program = tt

abbrev run : Run
run = record {
  run_id = "wf_1";
  user_prompt = "fix the bug";
  intent = "debug";
  complexity = 2;
  budget_tier = "direct";
  status = "planned";
  confidence = 42;
  evidence_requirements = [];
  validation_gates = [];
  memory_context = [];
  task_contract = contract;
  created_at = 1;
  updated_at = 1;
}

abbrev evidence : String → String → String → Evidence
evidence check subject digest = record {
  evidence_id = check;
  run_id = "wf_1";
  check_kind = check;
  verification_status = "PASS";
  subject_digest = subject;
  artifact_digest = "";
  producer = "host";
  payload = record { executed = true; repository_snapshot_digest = digest; unmet = [] };
  limitations = [];
  collected_at = 5;
  created_at = 5;
}

abbrev now_digest : String
now_digest = (repository_snapshot host "/repo").digest

abbrev scope_digest : Bool → String
scope_digest forbid =
    worktree_digest host (verify_git_diff repository "/repo" ("core/a.py" ∷ []) forbid)

abbrev store : Store
store = record {
  runs = run ∷ [];
  steps = [];
  evidence =
      evidence "diff" (scope_digest false) ""
      ∷ evidence "tests" "" now_digest
      ∷ evidence "syntax" "" now_digest
      ∷ [];
}

abbrev draft : Outcome
draft = record {
  passed = true;
  action = "DONE";
  unmet = [];
  instruction = "";
  evidence_gate = none;
}

gate_run :
    ((gate_outcomes host contract store " wf_1" "/repo" draft).passed ≡ true)
    × ((gate_outcomes host contract store "wf_2" "/repo" draft).action ≡ "REPEAT")
    × ((gate_outcomes host contract store "wf_1" "" draft).passed ≡ false)
    × ((gate_outcomes host contract store "" "" draft).passed ≡ true)
unfolding program
gate_run = (refl, refl, refl, refl)

named : is_blank "wf_1" ≡ false
unfolding program
named = refl

gate_outcomes-Supported_example :
    ((gate_outcomes host contract store "wf_1" "/repo" draft).passed ≡ true)
    ↔ ((draft.passed ≡ true) × Supported host contract store "wf_1" "/repo")
gate_outcomes-Supported_example =
    gate_outcomes-Supported host contract store "wf_1" "/repo" draft named

forbidding_passes : (verify_git_diff repository "/repo" ("core/a.py" ∷ []) true).status ≡ pass
unfolding program
forbidding_passes = refl

forbidding_diff_unmet_example :
    is_nil
      (scope_unmet host "/repo" ("core/a.py" ∷ []) (some (evidence "diff" (scope_digest true) "")))
    ≡ false
forbidding_diff_unmet_example =
    forbidding_diff_unmet host "/repo" ("core/a.py" ∷ []) (evidence "diff" (scope_digest true) "")
      (λ h. h) forbidding_passes refl

abbrev proof : NewEvidence
proof = record {
  id = "ev_1";
  verification_status = "PASS";
  subject_digest = "";
  artifact_digest = "";
  producer = "host";
  payload = record { executed = true; repository_snapshot_digest = now_digest; unmet = [] };
  limitations = [];
  collected_at = none;
}

proof-IsProof : IsProof plain_boundary host "/repo" proof
unfolding program
proof-IsProof = record {
  passed = refl;
  executed = refl;
  bound = refl;
  readable = refl;
  current = refl;
}

abbrev fresh_store : Store
fresh_store = record { runs = run ∷ []; steps = []; evidence = [] }

gate_tests-record_example :
    (gate_tests host contract
      (record_workflow_evidence plain_boundary 9 (strip "wf_1") "tests" proof fresh_store).1
      "wf_1"
      "/repo").accepted
    ≡ "ev_1" ∷ []
unfolding program
gate_tests-record_example =
    gate_tests-record plain_boundary host "/repo" 9 proof contract fresh_store "wf_1" refl refl refl
      tt refl refl proof-IsProof

nothing_recorded : is_nil (gate_unmet host contract fresh_store "wf_1" "/repo") ≡ false
unfolding program
nothing_recorded = refl
