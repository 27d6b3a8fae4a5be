-- ===== src/Verifiers.antt =====
-- The verifiers of core/verification/registry.py that decide over the workflow tables and the working
-- tree: the checks "constraints", "outcomes", "tests" and "diff". Of the dictionary `data` of an
-- execution, the keys of the outcome gate are kept.
pub mod TestEvidence
pub mod Contracts
mod Requests
unfoldable pub use Requests.*
use Prim.Native.String.{◌++◌ as ◌+++◌}
use elite_reasoning_mcp.Prelude.{
  ℕ, String, Bool, true, false, not, ◌&&◌, ◌||◌, Option, none, some, List, [], ◌∷◌, ◌++◌, ◌⊎◌, inl,
  inr, map, if◌then◌else◌, str_eq, starts_with, is_empty, is_blank, strip, contains, elem, keep,
}
use elite_reasoning_mcp.Prelude.Nil.{is_nil}
use elite_reasoning_mcp.Prelude.Text.{nul_text}
use elite_reasoning_mcp.Verification.{
  VerificationStatus, pass, fail, unknown, not_checked, status_from_bool,
}
use elite_reasoning_mcp.Workflow.{
  Boundary, Constraint, Contract, Payload, Run, Store, text_or, get_workflow_run,
}
use elite_reasoning_mcp.GitDiff.{Git, verify_git_diff}
use elite_reasoning_mcp.GitDiff.Sentences.{reason_text}
use elite_reasoning_mcp.Gate.{Host, Outcome, repository_snapshot, scope_terms, gate_outcomes}
use elite_reasoning_mcp.Draft.{Python, check_draft}
use elite_reasoning_mcp.Playbook.{verify_outcomes}
use elite_reasoning_mcp.Command.{
  System, CommandError, command_required, unbalanced_quotes, CommandResult, Launch, Ran, not_run,
  run_allowlisted_command,
}

abbrev pub no_payload : Payload
no_payload = record { executed = false; repository_snapshot_digest = ""; unmet = [] }

-- `ConstraintVerifier.verify`
unfoldable pub verify_constraints : Server → VerifierRequest → Store → Answer
verify_constraints server request st = elim (resolve_contract server request st) [
  | inl e ↦ inl e
  | inr contract ↦
      let report = check_draft server.python request.draft contract in
      inr (record {
        check = "constraints";
        status = status_from_bool report.passed;
        subject_kind = "draft";
        subject = request.draft;
        producer = "core.reasoning.constraint_check.check_draft";
        payload = record no_payload { unmet = report.unmet };
        outcome = none;
        limitations = "Lexical and format constraints inspect only the supplied draft." ∷ [];
      })
]

abbrev pub outcome_execution : VerifierRequest → Outcome → VerificationExecution
outcome_execution request data_of = record {
  check = "outcomes";
  status = status_from_bool data_of.passed;
  subject_kind = "draft";
  subject = request.draft;
  producer = "core.reasoning.playbook.verify_outcomes";
  payload = record no_payload { unmet = data_of.unmet };
  outcome = some data_of;
  limitations = "Draft checks do not prove repository state beyond attached evidence." ∷ [];
}

-- `OutcomeVerifier.verify`
unfoldable pub verify_outcome : Server → Git → VerifierRequest → Store → Answer
verify_outcome server git request st =
    if is_blank request.draft
    then inl (input_error "outcomes check needs draft.")
    else elim (resolve_contract server request st) [
      | inl e ↦ inl e
      | inr contract ↦ inr (
          outcome_execution request (
            gate_outcomes (host_of server git) contract st request.run_id request.project_root
              (verify_outcomes server.python request.draft contract)))
    ]

unfoldable pub status_of_command : CommandResult → VerificationStatus
unfolding contains
status_of_command r =
    if r.executed
    then status_from_bool r.passed
    else if starts_with r.reason "set ELITE_ALLOW_TEST_COMMAND" || contains "allowlist" r.reason
    then not_checked
    else unknown

abbrev pub unless_empty : String → List String
unless_empty s = if is_empty s then [] else s ∷ []

-- What the check "tests" makes of the result of the command, in the working tree after the run.
unfoldable pub test_execution :
    Server → VerifierRequest → String → String → CommandResult → Git → VerificationExecution
unfolding status_of_command
test_execution server request root limitation r git =
    let after = repository_snapshot (host_of server git) root in
    let digest = if is_empty root then "" else after.digest in
    let bound = if is_empty root then limitation else text_or after.limitation limitation in
    record {
      check = "tests";
      status = status_of_command r;
      subject_kind = "test_command_and_repository";
      subject = strip request.command +++ (nul_text +++ digest);
      producer = "core.verification.command.run_allowlisted_command";
      payload = record { executed = r.executed; repository_snapshot_digest = digest; unmet = [] };
      outcome = none;
      limitations =
          (if r.executed then [] else unless_empty (text_or r.reason "Command was not executed."))
          ++ unless_empty bound;
    }

pub record Checked : Type 0 where
  pub answer : Answer
  pub launched : List Launch
  pub git : Git

-- What `TestCommandVerifier.verify` makes of the call of the command.
unfoldable pub after_command : Server → VerifierRequest → String → String → Ran Git → Checked
after_command server request root limitation ran = record {
  answer = elim ran.result [
    | inl command_required ↦ inl (input_error "command is required for check=tests.")
    | inl unbalanced_quotes ↦ inl (value_error "No closing quotation")
    | inr r ↦ inr (test_execution server request root limitation r ran.tree)
  ];
  launched = ran.launched;
  git = ran.tree;
}

-- `TestCommandVerifier.verify`
unfoldable pub verify_tests : Server → Git → VerifierRequest → Checked
verify_tests server git request =
    let before = repository_snapshot (host_of server git) request.project_root in
    if not (is_blank request.project_root) && is_empty before.root
    then record {
      answer = inr (
          test_execution server request before.root before.limitation
            (not_run ("project_root is unavailable: " +++ before.limitation)
              (strip request.command))
            git);
      launched = [];
      git = git;
    }
    else after_command server request before.root before.limitation
        (run_allowlisted_command server.system request.command before.root 30 git)

-- `scope`, to which the files of the stored contract are added
abbrev pub add_new : List String → List String → List String
add_new scope [] = scope
add_new scope (path ∷ paths) =
    add_new (if elem path scope then scope else scope ++ (path ∷ [])) paths

unfoldable pub diff_execution : Server → Git → VerifierRequest → List String → VerificationExecution
unfolding verify_git_diff reason_text
diff_execution server git request scope =
    let v = verify_git_diff git request.project_root scope request.forbid_dependency_changes in
    let reason = reason_text server.repr v.reason in
    record {
      check = "diff";
      status = v.status;
      subject_kind = "git_worktree_snapshot";
      subject = v.snapshot_material;
      producer = "core.verification.git_diff.verify_git_diff";
      payload = no_payload;
      outcome = none;
      limitations = elim v.status [
        | pass ↦ []
        | fail ↦ []
        | unknown ↦ reason ∷ []
        | not_checked ↦ reason ∷ []
      ];
    }

-- `GitDiffVerifier.verify`
unfoldable pub verify_diff : Server → Git → VerifierRequest → Store → Answer
verify_diff server git request st =
    if is_blank request.run_id
    then inr (diff_execution server git request request.allowed_files)
    else elim (get_workflow_run server.boundary (strip request.run_id) st) [
      | none ↦ inl (input_error "Workflow run was not found.")
      | some (run, steps) ↦ inr (
          diff_execution server git request
            (add_new request.allowed_files (scope_terms run.task_contract.constraints)))
    ]
