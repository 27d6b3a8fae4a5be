-- ===== src/Requirements/Tests.antt =====
-- Runs of the verifiers of requirements, and the examples of the theorems.
use elite_reasoning_mcp.Prelude.{
  ◌≤◌, ◌≡◌, ◌↔◌, refl, ◌⊎◌, String, true, false, All, none, some, [], ◌∷◌, elem, contains, length,
}
use elite_reasoning_mcp.Prelude.Nil.{is_nil}
use elite_reasoning_mcp.Prelude.Text.{words, take_chars}
use elite_reasoning_mcp.Verification.{pass, fail, not_checked}
use elite_reasoning_mcp.Command.{exited}
use elite_reasoning_mcp.Registry.{Requirement, PluginEvidence, VerificationResult, check}
use elite_reasoning_mcp.Requirements.{
  check_requirement, constraint_verifier, check_evidence, completeness_verifier, CommandHost,
  returned, finish, evidence_id, check_argv, check_command, test_command_verifier,
}
use elite_reasoning_mcp.Requirements.Bound.{
  of_kind, completeness_verifier-Bound, constraint_verifier-Met,
}
use elite_reasoning_mcp.Requirements.Commands.{Succeeded, check_command-Succeeded}

program : Unit {0}
unfolding check check_requirement constraint_verifier check_evidence completeness_verifier finish
    evidence_id check_argv check_command test_command_verifier words contains take_chars elem
program = tt

abbrev requirement : Requirement
requirement = record {
  id = "r1";
  kind = "test_command";
  verifier = "";
  verifier_parameters = record {
    required_terms = "tea" ∷ [];
    forbidden_terms = "milk" ∷ [];
    max_words = 3;
    command = "/tmp/x/pytest -q";
    cwd = none;
    timeout_sec = 30;
  };
}

abbrev host : CommandHost
host = record {
  split = λ s. some (words s);
  base_name = λ s. "pytest";
  run = λ s. returned (exited 0) "1 passed";
  sha256 = λ s. s;
  tail = λ s. s;
}

abbrev about : String → PluginEvidence
about digest = record { id = digest; kind = "log"; producer = "host"; subject_digest = digest }

-- An executable of any folder is started if its name is on the list.
requirement_run :
    ((check
        (of_kind "required_content" requirement)
        "tea at four"
        []
        (some constraint_verifier)).status
      ≡ pass)
    × ((check
          (of_kind "word_limit" requirement)
          "tea at four sharp"
          []
          (some constraint_verifier)).status
        ≡ fail)
    × ((check requirement "a"
          (about "a" ∷ about "b" ∷ [])
          (some (completeness_verifier (λ s. s)))).status
        ≡ fail)
    × ((check requirement "a" (about "a" ∷ []) (some (completeness_verifier (λ s. s)))).evidence_ids
        ≡ "a" ∷ [])
    × ((check_command host requirement "a").started
        ≡ record { argv = "/tmp/x/pytest" ∷ "-q" ∷ []; cwd = none; timeout = 30 } ∷ [])
unfolding program
requirement_run = (refl, refl, refl, refl, refl)

completeness_verifier-Bound_example :
    ((check requirement "a" (about "a" ∷ []) (some (completeness_verifier (λ s. s)))).status ≡ pass)
    ↔ ((is_nil (about "a" ∷ []) ≡ false) × All (λ ev. ev.subject_digest ≡ "a") (about "a" ∷ []))
completeness_verifier-Bound_example =
    completeness_verifier-Bound (λ s. s) requirement "a" (about "a" ∷ [])

constraint_verifier-Met_example :
    (((check (of_kind "required_content" requirement) "tea" [] (some constraint_verifier)).status
        ≡ pass)
      ↔ All (λ term. contains term "tea" ≡ true) ("tea" ∷ []))
    × (((check (of_kind "forbidden_content" requirement) "tea" [] (some constraint_verifier)).status
          ≡ pass)
        ↔ All (λ term. contains term "tea" ≡ false) ("milk" ∷ []))
    × (((check (of_kind "word_limit" requirement) "tea" [] (some constraint_verifier)).status
          ≡ pass)
        ↔ ((requirement.verifier_parameters.max_words ≡ 0)
            ⊎ (length (words "tea") ≤ requirement.verifier_parameters.max_words)))
    × ((check (of_kind "output_format" requirement) "tea" [] (some constraint_verifier)).status
        ≡ not_checked)
constraint_verifier-Met_example = constraint_verifier-Met requirement "tea" []

abbrev passed_command : VerificationResult
passed_command = record {
  requirement_id = "r1";
  verifier = "test_command_verifier";
  status = pass;
  evidence_ids = "EV-CMD-a" ∷ [];
  limitations = [];
}

command_passes : (check_command host requirement "a").result ≡ some passed_command
unfolding program
command_passes = refl

check_command-Succeeded_example : Succeeded host requirement (check_command host requirement "a")
check_command-Succeeded_example =
    check_command-Succeeded host requirement "a" passed_command command_passes refl
