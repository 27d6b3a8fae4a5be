-- ===== src/Continuity/Tests.antt =====
-- Runs and instances of the model of core/orchestration/continuity.py.
use elite_reasoning_mcp.Prelude.{
  ℕ, String, ◌≡◌, ◌↔◌, refl, true, false, some, List, [], ◌∷◌, arith, str_eq_refl, take_chars,
  lower, contains,
}
use elite_reasoning_mcp.Prelude.Sort.{sort_by}
use elite_reasoning_mcp.Workflow.{
  Boundary, Contract, Run, Step, Evidence, Store, get_workflow_run, list_workflow_evidence,
}
use elite_reasoning_mcp.Continuity.{
  ContinuationDirective, is_passing, continuation, next_continuation, mid_work, complete, unknown,
  is_code, is_due, recover,
}
use elite_reasoning_mcp.Continuity.Ready.{IsReady, next_continuation-IsReady}
use elite_reasoning_mcp.Continuity.Progress.{required_check, follow, follow_completes}
use elite_reasoning_mcp.Continuity.Failure.{later_failure_ignored}

abbrev plain : Boundary
plain = record {
  redact_text = λ s n. take_chars n s;
  prompt_storage_value = λ s. s;
  stored_payload = λ p. p;
  stored_limitations = λ l. l;
  stored_contract = λ c. c;
}

abbrev contract : Contract
contract = record {
  goal = "fix the bug";
  deliverable = "a Patch";
  constraints =
      record {
        id = "c1";
        kind = "run_tests";
        description = "";
        terms = [];
        value = 0;
        pattern = "";
      }
      ∷ [];
  do_not = [];
  next_action = "none";
}

abbrev evidence : String → String → ℕ → List String → Evidence
evidence check status time unmet = record {
  evidence_id = check;
  run_id = "wf_1";
  check_kind = check;
  verification_status = status;
  subject_digest = "";
  artifact_digest = "";
  producer = "host";
  payload = record { executed = true; repository_snapshot_digest = ""; unmet = unmet };
  limitations = [];
  collected_at = time;
  created_at = time;
}

abbrev run : Run
run = record {
  run_id = "wf_1";
  user_prompt = "fix the bug";
  intent = "debug";
  complexity = 2;
  budget_tier = "direct";
  status = "planned";
  confidence = 42;
  evidence_requirements = [];
  validation_gates = [];
  memory_context = [];
  task_contract = contract;
  created_at = 1;
  updated_at = 1;
}

abbrev checked : List Evidence
checked =
    evidence "outcomes" "PASS" 30 []
    ∷ evidence "tests" "PASS" 20 []
    ∷ evidence "syntax" "PASS" 10 []
    ∷ []

abbrev store : Store
store = record { runs = run ∷ []; steps = []; evidence = checked }

program : Unit {0}
unfolding next_continuation continuation is_code is_due recover lower contains
    list_workflow_evidence sort_by
program = tt

abbrev Phases : ContinuationDirective → ContinuationDirective → ContinuationDirective → Type 0
Phases a b c = (a.phase ≡ complete) × (b.phase ≡ mid_work) × (c.phase ≡ unknown)

continuation_run :
    Phases
      (next_continuation plain store "wf_1")
      (continuation "wf_1" contract [])
      (next_continuation plain store "wf_2")
unfolding program
continuation_run = (refl, refl, refl)

-- A failed outcome check that names the syntax sends the host back to it.
stale_run :
    (continuation "wf_1" contract (
      evidence "outcomes" "FAIL" 40 ("syntax: repository state changed" ∷ []) ∷ checked)).checkpoint
    ≡ "verify_changed_code"
unfolding program
stale_run = refl

next_continuation-IsReady_example :
    ((next_continuation plain store "wf_1").stop_final_response ≡ false) ↔ (
      (found : Run) × (steps : List Step) × (get_workflow_run plain "wf_1" store
        ≡ some (found, steps))
      × IsReady found.task_contract (list_workflow_evidence "wf_1" "" 200 store))
next_continuation-IsReady_example = next_continuation-IsReady plain store "wf_1"

abbrev respond : ContinuationDirective → Evidence
respond d = evidence (required_check d) "PASS" 50 []

respond_passes : (d : ContinuationDirective) → is_passing (required_check d) (respond d) ≡ true
respond_passes d = ground (arith, str_eq_refl (required_check d))

follow_completes_example :
    (continuation "wf_1" contract (follow "wf_1" contract respond 4 [])).stop_final_response ≡ false
follow_completes_example = follow_completes "wf_1" contract respond (λ d s. respond_passes d) []

abbrev late_failure : Evidence
late_failure = evidence "outcomes" "FAIL" 60 ("max_words: 900 words exceed 500" ∷ [])

later_failure_ignored_example :
    (continuation "wf_1" contract (late_failure ∷ checked)).stop_final_response ≡ false
unfolding program
later_failure_ignored_example =
    later_failure_ignored "wf_1" contract checked late_failure refl refl refl refl
