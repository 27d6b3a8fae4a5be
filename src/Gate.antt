-- ===== src/Gate.antt =====
-- The outcome gate of core/verification/registry.py: `_repository_snapshot` and `_gate_outcomes`,
-- over the workflow tables and the verification of the working tree. The digest of a checked
-- subject (core/verification/models.py, `subject_digest`) and Python's `repr` are arguments.
pub mod Checks
pub mod Supported
pub mod Policy
pub mod Recorded
pub mod Unmet
pub mod Prefixes
pub mod Held
mod Tests
use Prim.Native.String.{◌++◌ as ◌+++◌}
use elite_reasoning_mcp.Prelude.{
  String, Bool, true, false, not, ◌&&◌, ◌||◌, Option, none, some, List, [], ◌∷◌, ◌++◌,
  if◌then◌else◌, str_eq, starts_with, is_empty, is_blank, strip, elem, first, keep,
}
use elite_reasoning_mcp.Prelude.Nil.{is_nil}
use elite_reasoning_mcp.Verification.{VerificationStatus, pass, fail, unknown, not_checked, is_pass}
use elite_reasoning_mcp.GitDiff.{Git, GitDiffVerification, verify_git_diff}
use elite_reasoning_mcp.GitDiff.Sentences.{reason_text}
use elite_reasoning_mcp.Workflow.{Constraint, Contract, Evidence, Store, list_workflow_evidence}
use elite_reasoning_mcp.Continuity.{has_kind, is_code}

pub record Host : Type 0 where
  pub git : Git
  pub subject_digest : String → String → String
  pub repr : String → String

pub record Snapshot : Type 0 where
  pub root : String
  pub digest : String
  pub limitation : String

abbrev pub worktree_digest : Host → GitDiffVerification → String
worktree_digest host v = host.subject_digest "git_worktree_snapshot" v.snapshot_material

unfoldable pub is_unavailable : String → VerificationStatus → Bool
is_unavailable reason unknown = true
is_unavailable reason not_checked = not (starts_with reason "no allowed_files policy")
is_unavailable reason pass = false
is_unavailable reason fail = false

unfoldable pub repository_snapshot : Host → String → Snapshot
unfolding is_unavailable verify_git_diff is_blank reason_text
repository_snapshot host project_root =
    let v = verify_git_diff host.git project_root [] false in
    let reason = reason_text host.repr v.reason in
    if is_blank project_root
    then record {
      root = "";
      digest = "";
      limitation = "No project_root was supplied; evidence is not bound to repository state.";
    }
    else if is_unavailable reason v.status
    then record { root = ""; digest = ""; limitation = reason }
    else record { root = v.repository_root; digest = worktree_digest host v; limitation = "" }

abbrev pub snapshot_digest : Evidence → String
snapshot_digest e = e.payload.repository_snapshot_digest

abbrev pub has_passed : Evidence → Bool
has_passed e = str_eq e.verification_status "PASS"

abbrev pub has_run_and_passed : Evidence → Bool
has_run_and_passed e = str_eq e.verification_status "PASS" && e.payload.executed

-- What a check of the gate finds: the unmet items, the evidence it accepts, and the current digest.
pub record Finding : Type 0 where
  pub unmet : List String
  pub accepted : List String
  pub current : String

abbrev pub complaint : String → Finding
complaint item = record { unmet = item ∷ []; accepted = []; current = "" }

abbrev pub unmet_if : Bool → String → List String
unmet_if true item = item ∷ []
unmet_if false item = []

-- The checks of the evidence that was found, given whether the project root is blank and the
-- present snapshot of the repository.
unfoldable pub syntax_of : Bool → Snapshot → Evidence → List String
syntax_of blank now e =
    if blank
    then []
    else if is_empty (snapshot_digest e)
    then "syntax: evidence is not bound to a repository snapshot" ∷ []
    else unmet_if (not (is_empty now.limitation) || not (str_eq now.digest (snapshot_digest e)))
        "syntax: repository state changed after syntax verification"

unfoldable pub tests_of : Bool → Snapshot → Evidence → Finding
tests_of blank now e =
    if is_empty (snapshot_digest e)
    then complaint "run_tests: passing test evidence is not bound to a repository snapshot"
    else if blank
    then complaint
        "run_tests: project_root is required to prove the tested repository state is still current"
    else if not (is_empty now.limitation)
    then record {
      unmet =
          ("run_tests: current repository state is unavailable (" +++ (now.limitation +++ ")"))
          ∷ [];
      accepted = [];
      current = now.digest;
    }
    else if not (str_eq now.digest (snapshot_digest e))
    then record {
      unmet =
          "run_tests: repository state changed after the passing test evidence was collected" ∷ [];
      accepted = [];
      current = now.digest;
    }
    else record { unmet = []; accepted = e.evidence_id ∷ []; current = now.digest }

unfoldable pub scope_of : String → Option Evidence → List String
scope_of digest none =
    "scope_files: no passing mid-work Git scope evidence is attached to this workflow" ∷ []
scope_of digest (some e) =
    unmet_if (not (str_eq e.subject_digest digest))
      "scope_files: repository state changed after Git scope verification"

module _ (host : Host) (project_root : String) where
  unfoldable pub syntax_unmet : Option Evidence → List String
  unfolding syntax_of repository_snapshot is_blank
  syntax_unmet none =
      "syntax: no passing mid-work syntax evidence is attached to this workflow" ∷ []
  syntax_unmet (some e) =
      syntax_of (is_blank project_root) (repository_snapshot host project_root) e

  unfoldable pub tests_finding : Option Evidence → Finding
  unfolding tests_of repository_snapshot is_blank
  tests_finding none =
      complaint
        "run_tests: no independently executed passing test evidence is attached to this workflow"
  tests_finding (some e) =
      tests_of (is_blank project_root) (repository_snapshot host project_root) e

  unfoldable pub scope_unmet : List String → Option Evidence → List String
  unfolding scope_of verify_git_diff reason_text is_blank
  scope_unmet allowed found =
      let v = verify_git_diff host.git project_root allowed false in
      if is_blank project_root
      then "scope_files: project_root is required for Git scope verification" ∷ []
      else unmet_if (not (is_pass v.status)) ("scope_files: " +++ reason_text host.repr v.reason)
        ++ scope_of (worktree_digest host v) found

unfoldable pub scope_terms : List Constraint → List String
scope_terms [] = []
scope_terms (c ∷ cs) =
    let rest = scope_terms cs in if str_eq c.kind "scope_files" then c.terms ++ rest else rest

-- `dict.fromkeys`, after the texts that were seen
unfoldable pub unique : List String → List String → List String
unfolding elem
unique seen [] = []
unique seen (s ∷ ss) = if elem s seen then unique seen ss else s ∷ unique (s ∷ seen) ss

pub record EvidenceGate : Type 0 where
  pub passed : Bool
  pub accepted_evidence_ids : List String
  pub current_repository_snapshot_digest : String
  pub unmet : List String

-- The dictionary of `verify_outcomes`: the keys that the gate reads or writes.
pub record Outcome : Type 0 where
  pub passed : Bool
  pub action : String
  pub unmet : List String
  pub instruction : String
  pub evidence_gate : Option EvidenceGate

abbrev pub no_finding : Finding
no_finding = record { unmet = []; accepted = []; current = "" }

module _ (host : Host) (contract : Contract) (st : Store) (run_id project_root : String) where
  abbrev pub records : String → List Evidence
  records kind = list_workflow_evidence (strip run_id) kind 20 st

  unfoldable pub gate_tests : Finding
  unfolding tests_finding list_workflow_evidence strip
  gate_tests =
      if has_kind contract "run_tests"
      then tests_finding host project_root (first has_run_and_passed (records "tests"))
      else no_finding

  unfoldable pub gate_unmet : List String
  unfolding gate_tests syntax_unmet scope_unmet scope_terms is_code
  gate_unmet =
      (if is_code contract
        then syntax_unmet host project_root (first has_passed (records "syntax"))
        else [])
      ++ (gate_tests.unmet
          ++ (if has_kind contract "scope_files"
              then scope_unmet host project_root (scope_terms contract.constraints)
                  (first has_passed (records "diff"))
              else []))

  unfoldable pub gate_outcomes : Outcome → Outcome
  unfolding gate_unmet unique is_blank
  gate_outcomes outcome =
      let gate : EvidenceGate = record {
        passed = is_nil gate_unmet;
        accepted_evidence_ids = gate_tests.accepted;
        current_repository_snapshot_digest = gate_tests.current;
        unmet = gate_unmet;
      } in
      if is_blank run_id
      then outcome
      else if is_nil gate_unmet
      then record outcome { evidence_gate = some gate }
      else record {
        passed = false;
        action = "REPEAT";
        unmet = unique [] (outcome.unmet ++ gate_unmet);
        instruction =
            "REPEAT. Do not present a final answer. Collect fresh command and repository evidence, then verify again.";
        evidence_gate = some gate;
      }
