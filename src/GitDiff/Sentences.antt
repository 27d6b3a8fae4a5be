-- ===== src/GitDiff/Sentences.antt =====
-- The sentences of core/verification/git_diff.py in which a reason or a snapshot error is given.
-- Python's `repr` of a text is the argument `repr`.
use Prim.Native.String.{◌++◌ as ◌+++◌}
use elite_reasoning_mcp.Prelude.{String, decimal}
use elite_reasoning_mcp.GitDiff.{
  Reason, SnapshotError, unusable, unsettled, over_budget, invalid_path, discovery, status_failed,
  too_many, incomplete, no_policy, outside, dependencies, satisfied, budget_text,
}

module _ (repr : String → String) where
  unfoldable pub error_text : SnapshotError → String
  error_text (unusable path) = "invalid path: " +++ repr path
  error_text (unsettled path digest) = path +++ (": " +++ digest)
  error_text (over_budget n) = budget_text n

  unfoldable pub reason_text : Reason → String
  unfolding error_text decimal
  reason_text (invalid_path item) = "invalid repository-relative path: " +++ repr item
  reason_text (discovery reason) = reason
  reason_text status_failed = "git status failed or timed out"
  reason_text (too_many n) = budget_text n
  reason_text (incomplete e) = "repository snapshot is incomplete: " +++ error_text e
  reason_text no_policy =
      "no allowed_files policy was supplied; repository state was recorded but scope was not checked"
  reason_text (outside n) = decimal n +++ " changed path(s) are outside the allowed scope"
  reason_text (dependencies n) = decimal n +++ " dependency manifest change(s) are forbidden"
  reason_text satisfied = "all changed paths satisfy the supplied scope policy"
