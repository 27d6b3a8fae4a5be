-- ===== src/Playbook.antt =====
-- core/reasoning/playbook.py: the ordered calls for a task contract, the outcomes that it expects, and
-- the gate of a draft, whose dictionary is that of the outcome gate.
pub mod Plan
mod Tests
use Prim.Native.String.{◌++◌ as ◌+++◌}
use elite_reasoning_mcp.Prelude.{
  ℕ, suc, String, Bool, true, false, not, ◌&&◌, ◌||◌, none, List, [], ◌∷◌, ◌++◌, map, if◌then◌else◌,
  str_eq, contains, lower, elem, any, take,
}
use elite_reasoning_mcp.Prelude.Nil.{is_nil}
use elite_reasoning_mcp.Workflow.{Constraint, Contract}
use elite_reasoning_mcp.Draft.{Python, check_draft}
use elite_reasoning_mcp.Gate.{Outcome}

abbrev pub core_tools : List String
core_tools = "elite_prepare" ∷ "elite_verify" ∷ "elite_memory" ∷ []

pub record PlaybookStep : Type 0 where
  pub index : ℕ
  pub tool : String
  pub args : List (String × String)
  pub required : Bool
  pub instruction : String

pub record ExpectedOutcome : Type 0 where
  pub id : String
  pub statement : String
  pub check : String
  pub required : Bool

-- A step that has no number yet; the code numbers the steps as it appends them.
abbrev pub step : String → List (String × String) → String → ℕ → PlaybookStep
step tool args instruction n = record {
  index = n;
  tool = tool;
  args = args;
  required = true;
  instruction = instruction;
}

abbrev pub number_from : ℕ → List (ℕ → PlaybookStep) → List PlaybookStep
number_from n [] = []
number_from n (s ∷ steps) = s n ∷ number_from (suc n) steps

abbrev root_arg : List (String × String)
root_arg = ("project_root", "<active repository root>") ∷ []

abbrev run_arg : String × String
run_arg = ("run_id", "<run_id from elite_prepare>")

unfoldable pub evidence_steps : Contract → List (ℕ → PlaybookStep)
evidence_steps c =
    if str_eq c.next_action "evidence"
    then step "elite_verify" (("check", "evidence") ∷ ("query", c.goal) ∷ [])
        "Fetch verbatim quotes before writing. No quote, no citation."
      ∷ []
    else []

unfoldable pub work_steps : Contract → List (ℕ → PlaybookStep)
work_steps c =
    if str_eq c.next_action "verify_tests"
    then step "host_work" [] ("Produce the deliverable: " +++ c.deliverable)
      ∷ step "elite_verify" (("check", "tests") ∷ ("command", "pytest") ∷ run_arg ∷ root_arg)
          "Run allowlisted tests and bind the result to the repository state. A prose claim that tests passed is not evidence."
      ∷ []
    else step "host_work" []
        ("Produce the deliverable: " +++ (c.deliverable +++ ". Obey every constraint."))
      ∷ []

abbrev pub is_repository_check : Constraint → Bool
is_repository_check c = str_eq c.kind "run_tests" || str_eq c.kind "scope_files"

unfoldable pub outcome_step : Contract → ℕ → PlaybookStep
outcome_step c =
    step "elite_verify"
      (("check", "outcomes")
        ∷ run_arg
        ∷ ("draft", "<your draft>")
        ∷ (if any is_repository_check c.constraints then root_arg else []))
      "Independent gate. If action=REPEAT, do not answer the user — fix unmet items and verify again."

unfoldable pub compile_playbook : Contract → List PlaybookStep
unfolding evidence_steps work_steps outcome_step
compile_playbook c =
    take 4 (number_from 1 (evidence_steps c ++ (work_steps c ++ (outcome_step c ∷ []))))

abbrev pub constraint_outcome : Constraint → ExpectedOutcome
constraint_outcome c = record {
  id = c.id;
  statement = c.description;
  check = if str_eq c.kind "run_tests" then "tests" else "constraints";
  required = true;
}

unfoldable pub compile_expected_outcomes : Contract → List ExpectedOutcome
compile_expected_outcomes c =
    let goal : ExpectedOutcome = record {
      id = "goal";
      statement = "The draft satisfies the goal: " +++ c.goal;
      check = "constraints";
      required = true;
    } in
    let deliverable : ExpectedOutcome = record {
      id = "deliverable";
      statement = "The deliverable is present: " +++ c.deliverable;
      check = "constraints";
      required = true;
    } in
    let grounded : ExpectedOutcome = record {
      id = "grounded";
      statement =
          "Factual claims have verbatim quotes and live URLs from elite_verify(check='evidence').";
      check = "grounding";
      required = true;
    } in
    take 8 (
      goal
      ∷ deliverable
      ∷ (map constraint_outcome c.constraints
          ++ (if str_eq c.next_action "evidence" then grounded ∷ [] else [])))

-- `" ".join(...)`
abbrev pub join_words : List String → String
join_words [] = ""
join_words (s ∷ []) = s
join_words (s ∷ t ∷ ss) = s +++ (" " +++ join_words (t ∷ ss))

-- the loop that keeps each core tool once
unfoldable pub core_once : List String → List String → List String
unfolding elem
core_once seen [] = seen
core_once seen (name ∷ names) =
    core_once (if not (elem name seen) && elem name core_tools then seen ++ (name ∷ []) else seen)
      names

unfoldable pub allowed_tools_for : Contract → List String
unfolding core_once contains lower
allowed_tools_for c =
    let evidence = if str_eq c.next_action "evidence" then "elite_verify" ∷ [] else [] in
    let memory =
      if contains "memory" (lower c.goal) || contains "remember" (lower (join_words c.do_not))
      then "elite_memory" ∷ []
      else [] in
    let seen = core_once [] (evidence ++ ("elite_verify" ∷ memory)) in
    if is_nil seen then "elite_verify" ∷ [] else seen

unfoldable pub verify_outcomes : Python → String → Contract → Outcome
unfolding check_draft
verify_outcomes python draft contract =
    let report = check_draft python draft contract in
    record {
      passed = report.passed;
      action = if report.passed then "DONE" else "REPEAT";
      unmet = report.unmet;
      instruction =
          if report.passed
          then "Goal met. You may answer the user."
          else "REPEAT. Do not present a final answer. Fix unmet outcomes, then call elite_verify(check='outcomes', run_id=..., draft=...) again.";
      evidence_gate = none;
    }
