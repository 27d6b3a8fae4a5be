-- ===== src/Workflow/Rows.antt =====
-- The rows of the workflow tables of core/memory/persistent_store.py, the dictionaries from which
-- they are recorded, and what a value becomes when it is stored.
use elite_reasoning_mcp.Prelude.{ℕ, String, Bool, Option, List, []}

-- A constraint of a stored task contract: the fields that the readers of the contract use.
pub record Constraint : Type 0 where
  pub id : String
  pub kind : String
  pub description : String
  pub terms : List String
  pub value : ℕ
  pub pattern : String

pub record Contract : Type 0 where
  pub goal : String
  pub deliverable : String
  pub constraints : List Constraint
  pub do_not : List String
  pub next_action : String

-- The payload of an evidence record: the keys that the readers of evidence use.
pub record Payload : Type 0 where
  pub executed : Bool
  pub repository_snapshot_digest : String
  pub unmet : List String

-- What becomes of a value that is written as redacted JSON text and read back: core/privacy.py. The
-- text is cut off at a limit, 10000 characters for a payload and 4000 for limitations, and secrets in
-- it are replaced; a text that is then no JSON any more is read back as empty.
pub record Boundary : Type 0 where
  pub redact_text : String → ℕ → String
  pub prompt_storage_value : String → String
  pub stored_payload : Payload → Payload
  pub stored_limitations : List String → List String
  pub stored_contract : Contract → Contract

pub record Run : Type 0 where
  pub run_id : String
  pub user_prompt : String
  pub intent : String
  pub complexity : ℕ
  pub budget_tier : String
  pub status : String
  pub confidence : ℕ  -- in hundredths
  pub evidence_requirements : List String
  pub validation_gates : List String
  pub memory_context : List String
  pub task_contract : Contract
  pub created_at : ℕ
  pub updated_at : ℕ

-- The `run` dictionary that is recorded; a key that may be missing is an option.
pub record NewRun : Type 0 where
  pub run_id : String
  pub user_prompt : Option String
  pub intent : Option String
  pub complexity : Option ℕ
  pub budget_tier : Option String
  pub status : Option String
  pub confidence : Option ℕ
  pub evidence_requirements : List String
  pub validation_gates : List String
  pub memory_context : List String
  pub task_contract : Contract
  pub created_at : Option ℕ

pub record Step : Type 0 where
  pub run_id : String
  pub step_index : ℕ
  pub step_name : String
  pub action : String
  pub status : String
  pub evidence : String
  pub created_at : ℕ
  pub updated_at : ℕ

pub record NewStep : Type 0 where
  pub step_name : String
  pub action : String
  pub status : Option String
  pub evidence : Option String

pub record Evidence : Type 0 where
  pub evidence_id : String
  pub run_id : String
  pub check_kind : String
  pub verification_status : String
  pub subject_digest : String
  pub artifact_digest : String
  pub producer : String
  pub payload : Payload
  pub limitations : List String
  pub collected_at : ℕ
  pub created_at : ℕ

-- The `evidence` dictionary that is recorded; "" stands for a missing text.
pub record NewEvidence : Type 0 where
  pub id : String
  pub verification_status : String
  pub subject_digest : String
  pub artifact_digest : String
  pub producer : String
  pub payload : Payload
  pub limitations : List String
  pub collected_at : Option ℕ

pub record Store : Type 0 where
  pub runs : List Run
  pub steps : List Step
  pub evidence : List Evidence

abbrev pub empty : Store
empty = record { runs = []; steps = []; evidence = [] }
