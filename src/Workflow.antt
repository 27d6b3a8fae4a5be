-- ===== src/Workflow.antt =====
-- The workflow tables of core/memory/persistent_store.py (EliteStore): `workflow_runs`,
-- `workflow_steps` and `workflow_evidence`, and the methods that read and write them.
-- A table is a list of rows. `evidence` stands newest row first, which is descending rowid; an
-- INSERT OR REPLACE drops the row with the same key and adds the new one in front. The connections
-- set foreign_keys=ON, so replacing a run deletes the steps and the evidence that refer to it.
-- A method runs to its end: an error of the database between its statements, which commit by
-- themselves, is not modelled. Times are seconds; the code's "%Y-%m-%d %H:%M:%S" texts are ordered as they are.
mod Rows
pub mod Status
pub mod Integrity
pub mod Records
pub mod Recording
mod Tests
pub use Rows.*
use elite_reasoning_mcp.Prelude.{
  ℕ, suc, ◌≤◌, String, Bool, true, false, not, ◌&&◌, ◌||◌, Option, none, some, List, [], ◌∷◌, ◌++◌,
  map, ltb, leb, ◌==◌, if◌then◌else◌, str_eq, is_empty, any, all, keep, first, take, take_chars,
  max,
}
use Prim.Native.Nat.{min}
use elite_reasoning_mcp.Prelude.Sort.{sort_by}

-- `value or default`, on texts, and `dict.get(key, default)`
abbrev pub text_or : String → String → String
text_or s d = if is_empty s then d else s

abbrev pub get_or {ℓ} : {A : Type ℓ} → Option A → A → A
get_or none d = d
get_or (some a) d = a

abbrev pub has_run : String → Store → Bool
has_run rid st = any (λ (r : Run). str_eq r.run_id rid) st.runs

-- The deletion of a run, with ON DELETE CASCADE.
unfoldable pub delete_run : String → Store → Store
delete_run rid st = record st {
  runs = keep (λ (r : Run). not (str_eq r.run_id rid)) st.runs;
  steps = keep (λ (s : Step). not (str_eq s.run_id rid)) st.steps;
  evidence = keep (λ (e : Evidence). not (str_eq e.run_id rid)) st.evidence;
}

unfoldable pub run_row : Boundary → ℕ → NewRun → Run
run_row b now run = record {
  run_id = run.run_id;
  user_prompt = b.prompt_storage_value (get_or run.user_prompt "");
  intent = get_or run.intent "general";
  complexity = get_or run.complexity 1;
  budget_tier = get_or run.budget_tier "direct";
  status = get_or run.status "planned";
  confidence = get_or run.confidence 0;
  evidence_requirements = run.evidence_requirements;
  validation_gates = run.validation_gates;
  memory_context = run.memory_context;
  task_contract = b.stored_contract run.task_contract;
  created_at = get_or run.created_at now;
  updated_at = now;
}

abbrev pub step_row : Boundary → ℕ → String → ℕ → NewStep → Step
step_row b now rid index s = record {
  run_id = rid;
  step_index = index;
  step_name = s.step_name;
  action = b.redact_text s.action 2000;
  status = get_or s.status "pending";
  evidence = b.redact_text (get_or s.evidence "") 2000;
  created_at = now;
  updated_at = now;
}

-- `for index, step in enumerate(steps, 1)`
unfoldable pub step_rows : Boundary → ℕ → String → ℕ → List NewStep → List Step
step_rows b now rid index [] = []
step_rows b now rid index (s ∷ rest) =
    step_row b now rid index s ∷ step_rows b now rid (suc index) rest

unfoldable pub record_workflow_run : Boundary → ℕ → NewRun → List NewStep → Store → Store
unfolding delete_run run_row step_rows
record_workflow_run b now run steps st =
    let rid = run.run_id in
    let replaced = delete_run rid st in
    record {
      runs = run_row b now run ∷ replaced.runs;
      steps =
          keep (λ (s : Step). not (str_eq s.run_id rid)) replaced.steps
          ++ step_rows b now rid 1 steps;
      evidence = replaced.evidence;
    }

abbrev pub step_le : Step → Step → Bool
step_le s t = leb s.step_index t.step_index

-- SELECT ... FROM workflow_steps WHERE run_id = ? ORDER BY step_index
unfoldable pub steps_of : String → Store → List Step
steps_of rid st = sort_by step_le (keep (λ (s : Step). str_eq s.run_id rid) st.steps)

abbrev pub read_step : Boundary → Step → Step
read_step b s = record s {
  action = b.redact_text s.action 2000;
  evidence = b.redact_text s.evidence 2000;
}

unfoldable pub get_workflow_run : Boundary → String → Store → Option (Run × List Step)
unfolding steps_of
get_workflow_run b rid st = elim (first (λ (r : Run). str_eq r.run_id rid) st.runs) [
  | none ↦ none
  | some r ↦ some (r, map (read_step b) (steps_of rid st))
]

unfoldable pub evidence_row : Boundary → ℕ → String → String → NewEvidence → Evidence
evidence_row b now rid kind ev = record {
  evidence_id = ev.id;
  run_id = rid;
  check_kind = kind;
  verification_status = text_or ev.verification_status "NOT_CHECKED";
  subject_digest = ev.subject_digest;
  artifact_digest = ev.artifact_digest;
  producer = text_or ev.producer "unknown";
  payload = b.stored_payload ev.payload;
  limitations = b.stored_limitations ev.limitations;
  collected_at = get_or ev.collected_at now;
  created_at = now;
}

abbrev pub same_key : Evidence → Evidence → Bool
same_key x y = str_eq x.run_id y.run_id && str_eq x.evidence_id y.evidence_id

-- INSERT OR REPLACE INTO workflow_evidence, whose key is (run_id, evidence_id)
unfoldable pub put_evidence : Evidence → List Evidence → List Evidence
put_evidence e rows = e ∷ keep (λ (x : Evidence). not (same_key x e)) rows

unfoldable pub record_workflow_evidence :
    Boundary → ℕ → String → String → NewEvidence → Store → Bool × Store
unfolding evidence_row put_evidence
record_workflow_evidence b now rid kind ev st =
    if is_empty rid
    then (false, st)
    else if is_empty ev.id
    then (false, st)
    else if not (has_run rid st)
    then (false, st)
    else (true, record st { evidence = put_evidence (evidence_row b now rid kind ev) st.evidence })

abbrev pub newer : Evidence → Evidence → Bool
newer x y = leb y.created_at x.created_at

-- max(1, min(int(limit or default), top))
abbrev pub bounded : ℕ → ℕ → ℕ → ℕ
bounded top default limit = max 1 (min (if limit == 0 then default else limit) top)

abbrev pub selects : String → String → Evidence → Bool
selects rid kind e =
    str_eq e.run_id rid && (if is_empty kind then true else str_eq e.check_kind kind)

unfoldable pub list_workflow_evidence : String → String → ℕ → Store → List Evidence
list_workflow_evidence rid kind limit st =
    take (bounded 200 50 limit) (sort_by newer (keep (selects rid kind) st.evidence))

abbrev pub run_newer : Run → Run → Bool
run_newer x y = leb y.created_at x.created_at

unfoldable pub list_workflow_runs : ℕ → String → Store → List Run
list_workflow_runs limit status st = take (bounded 100 20 limit) (
    sort_by run_newer
      (keep (λ (r : Run). if is_empty status then true else str_eq r.status status) st.runs))

-- The status of a run, computed from those of its steps.
unfoldable pub workflow_status : List String → String
workflow_status statuses =
    if any (λ s. str_eq s "failed") statuses
    then "failed"
    else if any (λ s. str_eq s "blocked") statuses
    then "blocked"
    else if any (λ s. true) statuses && all (λ s. str_eq s "passed" || str_eq s "skipped") statuses
    then "completed"
    else if any (λ s. str_eq s "running") statuses
    then "running"
    else "planned"

abbrev pub is_step : String → ℕ → Step → Bool
is_step rid index s = str_eq s.run_id rid && s.step_index == index

unfoldable pub set_step : ℕ → String → ℕ → String → String → List Step → List Step
set_step now rid index status evidence steps =
    map
      (λ (s : Step).
        if is_step rid index s
        then record s { status = status; evidence = evidence; updated_at = now }
        else s)
      steps

unfoldable pub set_run_status : ℕ → String → String → List Run → List Run
set_run_status now rid status runs =
    map
      (λ (r : Run).
        if str_eq r.run_id rid then record r { status = status; updated_at = now } else r)
      runs

abbrev pub statuses_of : String → Store → List String
statuses_of rid st = map (λ (s : Step). s.status) (steps_of rid st)

unfoldable pub update_workflow_step :
    Boundary → ℕ → String → ℕ → String → String → Store → Bool × Store
unfolding set_step set_run_status workflow_status steps_of take_chars
update_workflow_step b now rid index status evidence st =
    let safe_evidence = b.redact_text (take_chars 2000 evidence) 2000 in
    let stepped = record st { steps = set_step now rid index status safe_evidence st.steps } in
    let run_status = workflow_status (statuses_of rid stepped) in
    if any (is_step rid index) st.steps
    then (true, record stepped { runs = set_run_status now rid run_status stepped.runs })
    else (false, st)
