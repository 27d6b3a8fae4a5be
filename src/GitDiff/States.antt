-- ===== src/GitDiff/States.antt =====
-- What core/verification/git_diff.py works on: the states of changed files, the answers of Git and
-- of the file system, and the verification that is returned.
use elite_reasoning_mcp.Prelude.{ℕ, String, Option, List, [], ◌∷◌}
use elite_reasoning_mcp.Verification.{VerificationStatus}

abbrev pub max_changed_files : ℕ
max_changed_files = 1000

abbrev pub dependency_manifests : List String
dependency_manifests =
    "cargo.lock" ∷ "cargo.toml" ∷ "composer.json" ∷ "composer.lock" ∷ "go.mod" ∷ "go.sum"
    ∷ "package-lock.json" ∷ "package.json" ∷ "pnpm-lock.yaml" ∷ "poetry.lock" ∷ "pyproject.toml"
    ∷ "requirements.txt" ∷ "uv.lock" ∷ "yarn.lock" ∷ []

pub record GitFileState : Type 0 where
  pub path : String
  pub status : String
  pub content_digest : String

-- The sentences of the code, with what it puts into them.
pub data SnapshotError : Type 0 where
  unusable : String → SnapshotError
  unsettled : String → String → SnapshotError
  over_budget : ℕ → SnapshotError

pub data Reason : Type 0 where
  invalid_path : String → Reason
  discovery : String → Reason
  status_failed : Reason
  too_many : ℕ → Reason
  incomplete : SnapshotError → Reason
  no_policy : Reason
  outside : ℕ → Reason
  dependencies : ℕ → Reason
  satisfied : Reason

pub record GitDiffVerification : Type 0 where
  pub status : VerificationStatus
  pub repository_root : String
  pub changed_files : List GitFileState
  pub allowed_files : List String
  pub out_of_scope : List String
  pub dependency_changes : List String
  pub reason : Reason
  pub snapshot_material : String
  pub snapshot_errors : List SnapshotError

-- What the functions that run Git and read files return: `_repository_root`, the output of
-- `git status --porcelain=v1 -z` (`none` if it failed or timed out) and `_content_digest`.
pub record Git : Type 0 where
  pub repository_root : String → VerificationStatus × String × String
  pub status_z : String → Option String
  pub content_digest : String → String → String
