-- ===== src/Workflow/Tests.antt =====
-- Runs and instances of the model of the workflow tables of core/memory/persistent_store.py.
use elite_reasoning_mcp.Prelude.{
  String, ◌≡◌, refl, false, none, some, List, [], ◌∷◌, take_chars, map,
}
use elite_reasoning_mcp.Prelude.Sort.{sort_by}
use elite_reasoning_mcp.Workflow.{
  Boundary, Contract, NewRun, NewStep, NewEvidence, Evidence, Run, Store, empty, evidence_row,
  record_workflow_run, record_workflow_evidence, list_workflow_evidence, update_workflow_step,
  workflow_status, get_workflow_run, delete_run,
}
use elite_reasoning_mcp.Workflow.Status.{StatusSound, update_workflow_step-StatusSound}
use elite_reasoning_mcp.Workflow.Recording.{record_workflow_run-StatusSound}
use elite_reasoning_mcp.Workflow.Records.{list-record_workflow_evidence}
use elite_reasoning_mcp.Workflow.Integrity.{
  KeysSound, Write, plan, attach, update, write_all, write_all-KeysSound,
}

abbrev plain : Boundary
plain = record {
  redact_text = λ s n. take_chars n s;
  prompt_storage_value = λ s. s;
  stored_payload = λ p. p;
  stored_limitations = λ l. l;
  stored_contract = λ c. c;
}

abbrev contract : Contract
contract = record {
  goal = "fix the bug";
  deliverable = "patch";
  constraints =
      record {
        id = "c1";
        kind = "run_tests";
        description = "";
        terms = [];
        value = 0;
        pattern = "";
      }
      ∷ [];
  do_not = [];
  next_action = "none";
}

abbrev planned : NewRun
planned = record {
  run_id = "wf_1";
  user_prompt = some "fix the bug";
  intent = some "debug";
  complexity = some 2;
  budget_tier = none;
  status = some "planned";
  confidence = some 42;
  evidence_requirements = [];
  validation_gates = "tests" ∷ [];
  memory_context = [];
  task_contract = contract;
  created_at = none;
}

abbrev two_steps : List NewStep
two_steps =
    record { step_name = "plan"; action = "plan it"; status = some "pending"; evidence = none }
    ∷ record { step_name = "execute"; action = "do it"; status = none; evidence = none }
    ∷ []

abbrev syntax_pass : NewEvidence
syntax_pass = record {
  id = "ev_1";
  verification_status = "PASS";
  subject_digest = "sha256:0";
  artifact_digest = "sha256:1";
  producer = "core.verification";
  payload = record { executed = false; repository_snapshot_digest = ""; unmet = [] };
  limitations = [];
  collected_at = none;
}

program : Unit {0}
unfolding record_workflow_run record_workflow_evidence list_workflow_evidence get_workflow_run
    update_workflow_step delete_run sort_by
program = tt

abbrev stored : Store
stored = record_workflow_run plain 100 planned two_steps empty

abbrev map_status : Store → List String
map_status st = map (λ (r : Run). r.status) st.runs

status_after :
    let st = (update_workflow_step plain 110 "wf_1" 1 "passed" "ok" stored).1 in
    let st' = (update_workflow_step plain 120 "wf_1" 2 "skipped" "" st).1 in
    (map_status st ≡ "planned" ∷ []) × (map_status st' ≡ "completed" ∷ [])
unfolding program
status_after = (refl, refl)

refuses_unknown_run :
    record_workflow_evidence plain 110 "wf_2" "syntax" syntax_pass stored ≡ (false, stored)
unfolding program
refuses_unknown_run = refl

update_workflow_step-StatusSound_example :
    StatusSound (update_workflow_step plain 110 "wf_1" 1 "failed" "log" stored).1
unfolding workflow_status
update_workflow_step-StatusSound_example =
    update_workflow_step-StatusSound plain 110 "wf_1" 1 "failed" "log" stored
      (record_workflow_run-StatusSound plain 100 planned two_steps empty refl tt)

abbrev finished : List String
finished = "passed" ∷ "skipped" ∷ []

list-record_workflow_evidence_example :
    (rest : List Evidence) × (list_workflow_evidence "wf_1" "syntax" 20
        (record_workflow_evidence plain 110 "wf_1" "syntax" syntax_pass stored).1
      ≡ evidence_row plain 110 "wf_1" "syntax" syntax_pass ∷ rest)
unfolding program
list-record_workflow_evidence_example =
    list-record_workflow_evidence plain 110 "wf_1" "syntax" syntax_pass stored "syntax" 20 refl refl
      refl tt refl

abbrev writes : List Write
writes =
    plan 100 planned two_steps
    ∷ attach 110 "wf_1" "syntax" syntax_pass
    ∷ attach 111 "wf_9" "syntax" syntax_pass
    ∷ update 112 "wf_1" 1 "passed" "ok"
    ∷ []

write_all-KeysSound_example : KeysSound (write_all plain writes empty)
write_all-KeysSound_example =
    write_all-KeysSound plain writes empty (record { steps = tt; evidence = tt })
