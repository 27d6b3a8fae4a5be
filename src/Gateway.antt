-- ===== src/Gateway.antt =====
-- core/tools/gateway.py: the tools elite_verify and elite_memory. A call answers or raises an error,
-- and changes the workflow tables, the working tree (when a test command runs) or the memory. The
-- reports that only read (doctor, capabilities, privacy, monitoring) are given by their names; the
-- verifiers that Verifiers leaves out and the digest of an evidence record are arguments.
mod Tables
pub mod Recording
pub mod Held
pub mod Steps
mod Tests
unfoldable pub use Tables.*
use Prim.Native.String.{◌++◌ as ◌+++◌}
use elite_reasoning_mcp.Prelude.{
  ℕ, zero, suc, String, Bool, true, false, not, ◌&&◌, ◌||◌, Option, none, some, List, [], ◌∷◌, ◌++◌,
  ◌⊎◌, inl, inr, map, ltb, ◌==◌, if◌then◌else◌, str_eq, is_empty, is_blank, strip, lower, elem, any,
  all, keep, first, take_chars, decimal,
}
use elite_reasoning_mcp.Prelude.Nil.{is_nil}
use elite_reasoning_mcp.Verification.{VerificationStatus, value}
use elite_reasoning_mcp.Workflow.{
  Boundary, NewEvidence, Payload, Run, Step, Store, get_workflow_run, record_workflow_evidence,
  update_workflow_step,
}
use elite_reasoning_mcp.Continuity.{ContinuationDirective, next_continuation}
use elite_reasoning_mcp.GitDiff.{Git}
use elite_reasoning_mcp.Command.{Launch}
use elite_reasoning_mcp.Verifiers.{
  Server, VerifierRequest, VerificationExecution, CheckError, input_error, value_error, Answer,
  Checked, verify_constraints, verify_outcome, verify_tests, verify_diff,
}

abbrev pub without_launch : Git → Answer → Checked
without_launch git a = record { answer = a; launched = []; git = git }

-- `verifier_registry.verify`, for the names that the registry has
unfoldable pub run_verifier : Gateway → Git → Store → VerifierRequest → Checked
run_verifier gw git st request =
    if str_eq request.check "constraints"
    then without_launch git (verify_constraints gw.server request st)
    else if str_eq request.check "outcomes"
    then without_launch git (verify_outcome gw.server git request st)
    else if str_eq request.check "tests"
    then verify_tests gw.server git request
    else if str_eq request.check "diff"
    then without_launch git (verify_diff gw.server git request st)
    else without_launch git (gw.other_checks request)

-- `_checked_result` and `evidence_record` of core/verification/models.py
unfoldable pub evidence_record : Gateway → ℕ → VerificationExecution → NewEvidence
evidence_record gw now x =
    let digest = gw.server.subject_digest x.subject_kind x.subject in
    let artifact_hex = gw.artifact_hex x.check x.producer digest x.payload in
    record {
      id = "ev_" +++ take_chars 20 artifact_hex;
      verification_status = value x.status;
      subject_digest = digest;
      artifact_digest = "sha256:" +++ artifact_hex;
      producer = x.producer;
      payload = x.payload;
      limitations = x.limitations;
      collected_at = some now;
    }

unfoldable pub checked_result : Gateway → ℕ → VerificationExecution → VerifyResult
checked_result gw now x = record {
  check = x.check;
  verification_status = x.status;
  evidence = evidence_record gw now x;
  outcome = x.outcome;
  limitations = x.limitations;
  continuation = none;
}

-- `_persist_checked_result`
unfoldable pub persist_checked_result :
    Gateway → ℕ → Store → String → VerifyResult → (GatewayError ⊎ VerifyResult) × Store
persist_checked_result gw now st run_id result =
    let b = gw.server.boundary in
    let written = record_workflow_evidence b now (strip run_id) result.check result.evidence st in
    if is_blank run_id then (inr result, st) else elim (get_workflow_run b (strip run_id) st) [
      | none ↦ (inl (validation_error "Workflow run was not found."), st)
      | some _ ↦ if written.0 then (inr result, written.1) else (
        inl (validation_error "Verification evidence could not be persisted for the workflow run."),
        written.1,
      )
    ]

-- the call of `next_continuation`, where the run is named
unfoldable pub with_continuation :
    Gateway → String → (GatewayError ⊎ VerifyResult) × Store → GatewayError ⊎ VerifyResult
with_continuation gw run_id (inl e, st) = inl e
with_continuation gw run_id (inr result, st) = inr (
    if is_blank run_id then result else record result {
      continuation = some (next_continuation gw.server.boundary st (strip run_id));
    })

abbrev pub error_of : CheckError → GatewayError
error_of (input_error message) = validation_error message
error_of (value_error message) = raised message

-- what becomes of the answer of a verifier
unfoldable pub conclude_check :
    Gateway → ℕ → Store → String → Answer → (GatewayError ⊎ VerifyResult) × Store
conclude_check gw now st run_id (inl e) = (inl (error_of e), st)
conclude_check gw now st run_id (inr x) =
    let persisted = persist_checked_result gw now st run_id (checked_result gw now x) in
    (with_continuation gw run_id persisted, persisted.1)

-- `elite_verify`, for a check that the registry supports
unfoldable pub verify_check : Gateway → ℕ → Git → Store → VerifierRequest → Verified
verify_check gw now git st request =
    let checked = run_verifier gw git st request in
    let concluded = conclude_check gw now st request.run_id checked.answer in
    record {
      reply = concluded.0;
      store = concluded.1;
      launched = checked.launched;
      git = checked.git;
    }

-- `elite_verify`, check="status"
unfoldable pub workflow_reply : Gateway → Store → String → GatewayError ⊎ WorkflowReply
workflow_reply gw st run_id = elim (get_workflow_run gw.server.boundary run_id st) [
  | none ↦ inl (validation_error "Workflow run was not found.")
  | some (run, steps) ↦ inr (record {
    run = run;
    steps = steps;
    continuation = next_continuation gw.server.boundary st run_id;
  })
]

abbrev pub progress_statuses : List String
progress_statuses = "pending" ∷ "running" ∷ "passed" ∷ "failed" ∷ "skipped" ∷ "blocked" ∷ []

abbrev pub terminal_statuses : List String
terminal_statuses = "passed" ∷ "failed" ∷ "skipped" ∷ "blocked" ∷ []

abbrev pub done_statuses : List String
done_statuses = "passed" ∷ "skipped" ∷ []

abbrev pub is_unfinished : ℕ → Step → Bool
is_unfinished step_index s = ltb s.step_index step_index && not (elem s.status done_statuses)

-- The error that a progress update meets before anything is written, if there is one.
unfoldable pub progress_error : Gateway → Store → String → ℕ → String → String → Option String
progress_error gw st run_id step_index status query =
    if step_index == 0 || not (elem status progress_statuses)
    then some
        "For check=progress, provide step_index >= 1 and a status of pending, running, passed, failed, skipped, or blocked in the command field."
    else elim (get_workflow_run gw.server.boundary run_id st) [
      | none ↦ some "Workflow run was not found."
      | some (run, steps) ↦
          if not (any (λ (s : Step). s.step_index == step_index) steps)
          then some "Workflow step was not found."
          else if elem status terminal_statuses && is_blank query
          then some
              "Terminal workflow updates require concise evidence or a blocker rationale in the query field."
          else if elem status done_statuses && any (is_unfinished step_index) steps
          then some
              "Complete or explicitly skip earlier workflow steps before marking this step complete: "
          else none
    ]

-- `elite_verify`, check="progress"; the numbers that end the last message are left out
unfoldable pub progress :
    Gateway → ℕ → Store → String → ℕ → String → String → (GatewayError ⊎ WorkflowReply) × Store
progress gw now st run_id step_index command query =
    let status = lower (strip command) in
    let updated = update_workflow_step gw.server.boundary now run_id step_index status query st in
    elim (progress_error gw st run_id step_index status query) [
      | some message ↦ (inl (validation_error message), st)
      | none ↦
          if updated.0
          then (workflow_reply gw updated.1 run_id, updated.1)
          else (inl (validation_error "Workflow step was not found."), updated.1)
    ]
