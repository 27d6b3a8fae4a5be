-- ===== src/Verifiers/Requests.antt =====
-- What the verifiers of core/verification/registry.py are asked, what they answer and work with, and
-- the contract that a request is held against (`_resolve_contract`, and contract_from_dict of
-- core/reasoning/task_contract.py).
use Prim.Native.String.{◌++◌ as ◌+++◌}
use elite_reasoning_mcp.Prelude.{
  String, Bool, ◌&&◌, Option, none, some, List, [], ◌∷◌, ◌⊎◌, inl, inr, map, if◌then◌else◌,
  is_empty, is_blank, strip, elem,
}
use elite_reasoning_mcp.Prelude.Nil.{is_nil}
use elite_reasoning_mcp.Verification.{VerificationStatus}
use elite_reasoning_mcp.Workflow.{
  Boundary, Constraint, Contract, Payload, Store, text_or, get_workflow_run,
}
use elite_reasoning_mcp.GitDiff.{Git}
use elite_reasoning_mcp.Gate.{Host, Outcome}
use elite_reasoning_mcp.Draft.{Python}
use elite_reasoning_mcp.Command.{System}

pub record VerifierRequest : Type 0 where
  pub check : String
  pub query : String
  pub draft : String
  pub run_id : String
  pub code : String
  pub language : String
  pub command : String
  pub project_root : String
  pub allowed_files : List String
  pub forbid_dependency_changes : Bool

pub record VerificationExecution : Type 0 where
  pub check : String
  pub status : VerificationStatus
  pub subject_kind : String
  pub subject : String
  pub producer : String
  pub payload : Payload
  pub outcome : Option Outcome
  pub limitations : List String

-- What a check may raise: an error of the caller, or one that nothing on the way expects.
pub data CheckError : Type 0 where
  input_error : String → CheckError
  value_error : String → CheckError

abbrev pub Answer : Type 0
Answer = CheckError ⊎ VerificationExecution

-- What the verifiers work with. The working tree is what Git answers.
pub record Server : Type 0 where
  pub boundary : Boundary
  pub subject_digest : String → String → String
  pub repr : String → String
  pub python : Python
  pub system : System Git
  pub compile : String → Contract

abbrev pub host_of : Server → Git → Host
host_of server git = record {
  git = git;
  subject_digest = server.subject_digest;
  repr = server.repr;
}

abbrev pub constraint_kinds : List String
constraint_kinds =
    "must_include" ∷ "must_not" ∷ "max_words" ∷ "format" ∷ "cite_quotes" ∷ "run_tests"
    ∷ "scope_files" ∷ "answer_directly" ∷ []

abbrev pub next_actions : List String
next_actions = "none" ∷ "evidence" ∷ "verify_constraints" ∷ "verify_tests" ∷ []

unfoldable pub read_constraint : Constraint → Constraint
unfolding elem
read_constraint c = if elem c.kind constraint_kinds then c else record c { kind = "must_include" }

unfoldable pub contract_from_dict : (String → Contract) → Contract → String → Contract
unfolding read_constraint elem
contract_from_dict compile raw fallback_prompt =
    let base = compile (text_or fallback_prompt (text_or raw.goal "task")) in
    if is_nil raw.constraints then base else record {
      goal = text_or raw.goal base.goal;
      deliverable = text_or raw.deliverable base.deliverable;
      constraints = map read_constraint raw.constraints;
      do_not = if is_nil raw.do_not then base.do_not else raw.do_not;
      next_action = if elem raw.next_action next_actions then raw.next_action else base.next_action;
    }

-- `_resolve_contract`
unfoldable pub resolve_contract : Server → VerifierRequest → Store → CheckError ⊎ Contract
unfolding contract_from_dict get_workflow_run is_blank strip
resolve_contract server request st =
    if is_blank request.run_id
    then (if is_empty request.query && is_empty request.draft
        then inl (input_error (request.check +++ " check needs draft or run_id."))
        else inr (server.compile (text_or request.query request.draft)))
    else elim (get_workflow_run server.boundary (strip request.run_id) st) [
      | none ↦ inl (input_error "Workflow run was not found.")
      | some (run, steps) ↦
          let stored = run.task_contract in
          inr (
            contract_from_dict server.compile stored
              (text_or request.query (text_or request.draft (text_or stored.goal "task"))))
    ]
