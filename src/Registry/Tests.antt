-- ===== src/Registry/Tests.antt =====
-- Runs and instances of the model of `VerifierRegistry` of core/verification/registry.py.
use elite_reasoning_mcp.Prelude.{
  String, ◌≡◌, refl, true, false, inl, inr, none, some, List, [], ◌∷◌,
}
use elite_reasoning_mcp.Verification.{pass, unknown, not_checked}
use elite_reasoning_mcp.Registry.{
  Parameters, Requirement, VerificationResult, Verifier, Registry, already_registered, register,
  find_verifier, check, verify_requirement, ensure_builtins,
}
use elite_reasoning_mcp.Registry.Kinds.{Registration, attempt_all}
use elite_reasoning_mcp.Registry.Results.{Vouched, verify_requirement-Vouched}

abbrev no_parameters : Parameters
no_parameters = record {
  required_terms = [];
  forbidden_terms = [];
  max_words = 0;
  command = "";
  cwd = none;
  timeout_sec = 30;
}

abbrev passed : VerificationResult
passed = record {
  requirement_id = "r1";
  verifier = "syntax";
  status = pass;
  evidence_ids = [];
  limitations = [];
}

abbrev syntax : Verifier
syntax = record {
  name = " Syntax ";
  supported_requirement_kinds = "syntax" ∷ [];
  verify = λ requirement content evidence. some passed;
}

abbrev crash : Verifier
crash = record {
  name = "crash";
  supported_requirement_kinds = "syntax" ∷ "tests" ∷ [];
  verify = λ requirement content evidence. none;
}

abbrev fresh : Registry
fresh = record { verifiers = []; kind_mapping = []; builtins_loaded = false }

abbrev builtins : List Verifier
builtins = syntax ∷ crash ∷ []

program : Unit {0}
unfolding verify_requirement attempt_all register
program = tt

abbrev of_kind : String → Requirement
of_kind kind = record { id = "r1"; kind = kind; verifier = ""; verifier_parameters = no_parameters }

abbrev loaded : Registry
loaded = record {
  verifiers = ("syntax", syntax) ∷ ("crash", crash) ∷ [];
  kind_mapping = ("syntax", "syntax") ∷ ("tests", "crash") ∷ [];
  builtins_loaded = true;
}

registry_run :
    (ensure_builtins builtins fresh ≡ inr loaded)
    × ((check (of_kind "tests") "" [] (find_verifier (of_kind "tests") loaded)).status ≡ unknown)
    × ((check (of_kind "scope") "" [] (find_verifier (of_kind "scope") loaded)).status
        ≡ not_checked)
    × (register syntax none false loaded ≡ inl already_registered)
unfolding program
registry_run = (refl, refl, refl, refl)

abbrev registrations : List Registration
registrations =
    record { verifier = syntax; default_for_kinds = none; allow_replace = false }
    ∷ record { verifier = crash; default_for_kinds = some ("syntax" ∷ []); allow_replace = false }
    ∷ record { verifier = syntax; default_for_kinds = none; allow_replace = false }
    ∷ []

syntax_passes :
    verify_requirement builtins (of_kind "syntax") "x = 1" [] fresh ≡ inr (loaded, passed)
unfolding program
syntax_passes = refl

verify_requirement-Vouched_example :
    Vouched (of_kind "syntax") "x = 1" [] (find_verifier (of_kind "syntax") loaded) passed
verify_requirement-Vouched_example =
    verify_requirement-Vouched builtins (of_kind "syntax") "x = 1" [] fresh loaded passed
      syntax_passes refl
