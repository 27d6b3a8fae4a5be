-- ===== src/Requirements.antt =====
-- The verifiers of requirements that need no tools of Python's: core/verification/constraints.py,
-- completeness.py and test_command.py, each a Verifier of the registry. SHA-256 is the argument
-- `sha256`; processes, `shlex.split` and the name of a path are the argument `host`. Reasons and
-- durations are left out of results, and so is what a process does to the working tree.
pub mod Bound
pub mod Commands
mod Tests
use Prim.Native.String.{◌++◌ as ◌+++◌}
use elite_reasoning_mcp.Prelude.{
  ℕ, String, Bool, true, false, not, ◌&&◌, Option, none, some, List, [], ◌∷◌, map, ltb, ◌==◌,
  if◌then◌else◌, str_eq, is_empty, contains, elem, keep, length,
}
use elite_reasoning_mcp.Prelude.Nil.{is_nil}
use elite_reasoning_mcp.Prelude.Text.{words, take_chars}
use elite_reasoning_mcp.Verification.{VerificationStatus, pass, fail, unknown, not_checked}
use elite_reasoning_mcp.Command.{ReturnCode, is_success}
use elite_reasoning_mcp.Registry.{Requirement, PluginEvidence, VerificationResult, Verifier}

abbrev pub answer_with :
    Requirement → String → VerificationStatus → List String → List String → VerificationResult
answer_with requirement verifier status evidence_ids limitations = record {
  requirement_id = requirement.id;
  verifier = verifier;
  status = status;
  evidence_ids = evidence_ids;
  limitations = limitations;
}

abbrev pub judged : Requirement → Bool → VerificationResult
judged requirement ok =
    answer_with requirement "constraint_verifier" (if ok then pass else fail) [] []

-- ConstraintVerifier.verify
unfoldable pub check_requirement : Requirement → String → VerificationResult
unfolding contains words
check_requirement requirement content =
    let params = requirement.verifier_parameters in
    let missing = keep (λ term. not (contains term content)) params.required_terms in
    let present = keep (λ term. contains term content) params.forbidden_terms in
    let too_long = not (params.max_words == 0) && ltb params.max_words (length (words content)) in
    if str_eq requirement.kind "required_content"
    then judged requirement (is_nil missing)
    else if str_eq requirement.kind "forbidden_content"
    then judged requirement (is_nil present)
    else if str_eq requirement.kind "word_limit"
    then judged requirement (not too_long)
    else answer_with requirement "constraint_verifier" not_checked [] []

unfoldable pub constraint_verifier : Verifier
unfolding check_requirement
constraint_verifier = record {
  name = "constraint_verifier";
  supported_requirement_kinds =
      "required_content" ∷ "forbidden_content" ∷ "word_limit" ∷ "output_format" ∷ [];
  verify = λ requirement content evidence. some (check_requirement requirement content);
}

abbrev pub is_bound : String → PluginEvidence → Bool
is_bound digest ev = str_eq ev.subject_digest digest

-- EvidenceCompletenessVerifier.verify
unfoldable pub check_evidence :
    (String → String) → Requirement → String → List PluginEvidence → VerificationResult
check_evidence sha256 requirement content evidence =
    let current_digest = sha256 content in
    let stale = keep (λ ev. not (is_bound current_digest ev)) evidence in
    let valid = keep (is_bound current_digest) evidence in
    let name : String = "evidence_completeness_verifier" in
    if is_nil evidence
    then answer_with requirement name fail [] []
    else if not (is_nil stale)
    then answer_with requirement name fail []
        ("PluginEvidence replay or subject modification detected" ∷ [])
    else answer_with requirement name pass (map (λ (ev : PluginEvidence). ev.id) valid) []

unfoldable pub completeness_verifier : (String → String) → Verifier
unfolding check_evidence
completeness_verifier sha256 = record {
  name = "evidence_completeness_verifier";
  supported_requirement_kinds = "security" ∷ "compatibility" ∷ [];
  verify =
      λ requirement content evidence. some (check_evidence sha256 requirement content evidence);
}

abbrev pub allowlisted_executables : List String
allowlisted_executables = "pytest" ∷ "python" ∷ "python3" ∷ "uv" ∷ "ruff" ∷ []

-- What `subprocess.run` does: it returns with a code and an output, takes too long, or raises.
pub data Finished : Type 0 where
  returned : ReturnCode → String → Finished
  expired : Finished
  raised : Finished

-- The arguments of `subprocess.run`; `none` stands for the current directory.
pub record Started : Type 0 where
  pub argv : List String
  pub cwd : Option String
  pub timeout : ℕ

-- `split` raises on a text with an open quote; `tail` is the slice `[-4096:]`.
pub record CommandHost : Type 0 where
  pub split : String → Option (List String)
  pub base_name : String → String
  pub run : Started → Finished
  pub sha256 : String → String
  pub tail : String → String

-- What the call did: the processes that it started, and its result, or that it raised.
pub record CommandCheck : Type 0 where
  pub started : List Started
  pub result : Option VerificationResult

abbrev pub command_answer :
    Requirement → VerificationStatus → List String → List String → VerificationResult
command_answer requirement = answer_with requirement "test_command_verifier"

unfoldable pub evidence_id : CommandHost → String → String → List String
unfolding take_chars
evidence_id host content output =
    let subject = if is_empty content then host.tail output else content in
    ("EV-CMD-" +++ take_chars 8 (host.sha256 subject)) ∷ []

unfoldable pub finish : CommandHost → Requirement → String → Finished → VerificationResult
unfolding evidence_id
finish host requirement content (returned exit_code output) =
    command_answer requirement (if is_success exit_code then pass else fail)
      (evidence_id host content output) []
finish host requirement content expired =
    command_answer requirement unknown [] ("Execution timeout exceeded" ∷ [])
finish host requirement content raised =
    command_answer requirement unknown [] ("Subprocess launch failure" ∷ [])

abbrev pub not_started : VerificationResult → CommandCheck
not_started r = record { started = []; result = some r }

-- TestCommandVerifier.verify, from the arguments of the command on
unfoldable pub check_argv : CommandHost → Requirement → String → List String → CommandCheck
check_argv host requirement content [] = not_started (command_answer requirement unknown [] [])
check_argv host requirement content (exe ∷ rest) =
    let launch : Started = record {
      argv = exe ∷ rest;
      cwd = requirement.verifier_parameters.cwd;
      timeout = requirement.verifier_parameters.timeout_sec;
    } in
    if elem (host.base_name exe) allowlisted_executables
    then record {
      started = launch ∷ [];
      result = some (finish host requirement content (host.run launch));
    }
    else not_started
        (command_answer requirement fail [] ("Security gate blocked unallowlisted binary" ∷ []))

-- TestCommandVerifier.verify
unfoldable pub check_command : CommandHost → Requirement → String → CommandCheck
unfolding check_argv
check_command host requirement content =
    if is_empty requirement.verifier_parameters.command
    then not_started (command_answer requirement unknown [] [])
    else elim (host.split requirement.verifier_parameters.command) [
      | none ↦ record { started = []; result = none }
      | some argv ↦ check_argv host requirement content argv
    ]

unfoldable pub test_command_verifier : CommandHost → Verifier
unfolding check_command
test_command_verifier host = record {
  name = "test_command_verifier";
  supported_requirement_kinds = "test_command" ∷ [];
  verify = λ requirement content evidence. (check_command host requirement content).result;
}
