-- ===== src/GitDiff.antt =====
-- core/verification/git_diff.py: the verification of the working tree of a repository against a
-- list of allowed files. What the code reads from Git and from the files is the argument `git`.
mod States
mod Entries
pub mod Paths
pub mod Tampering
pub mod Judge
pub mod Scope
pub mod Porcelain
pub mod Inside
pub mod Aliases
pub mod Sentences
pub mod Materials
mod Tests
pub use States.*
unfoldable pub use Entries.*
use Prim.Native.Char.{Char, code, nul}
use Prim.Native.Nat.{Ordering}
use Prim.Native.String.{◌++◌ as ◌+++◌, compare}
use elite_reasoning_mcp.Prelude.{
  ℕ, String, Bool, true, false, not, ◌&&◌, ◌||◌, Option, none, some, List, [], ◌∷◌, ◌++◌, map, ltb,
  ◌==◌, if◌then◌else◌, str_eq, is_empty, lower, take_chars, drop_chars, elem, any, decimal, keep,
  length, ◌⊎◌, inl, inr,
}
use elite_reasoning_mcp.Prelude.Sort.{sort_by}
use elite_reasoning_mcp.Prelude.Text.{nul_text, text_le}
use elite_reasoning_mcp.Prelude.Nil.{is_nil}
use elite_reasoning_mcp.Verification.{
  VerificationStatus, pass, fail, unknown, not_checked, is_pass, value,
}
use elite_reasoning_mcp.GitDiff.Paths.{normalize_relative_path, split_on, parts, join}

-- The allowlist, normalised and without repetitions, or the path of it that is invalid.
unfoldable pub normalize_allowed : List String → List String → String ⊎ List String
unfolding elem
normalize_allowed done [] = inr done
normalize_allowed done (item ∷ items) = elim (normalize_relative_path item) [
  | none ↦ inl item
  | some p ↦ normalize_allowed (if elem p done then done else done ++ p ∷ []) items
]

-- the order of the pairs (path, status)
abbrev pub state_le : GitFileState → GitFileState → Bool
state_le x y = if str_eq x.path y.path then text_le x.status y.status else text_le x.path y.path

unfoldable pub valid_states : (String → String) → List (String × String) → List GitFileState
valid_states digest [] = []
valid_states digest ((code, raw) ∷ rest) =
    let states = valid_states digest rest in
    elim (normalize_relative_path raw) [
      | none ↦ states
      | some p ↦ record { path = p; status = code; content_digest = digest p } ∷ states
    ]

unfoldable pub invalid_paths : List (String × String) → List String
invalid_paths [] = []
invalid_paths ((code, raw) ∷ rest) =
    let invalid = invalid_paths rest in
    elim (normalize_relative_path raw) [ none ↦ raw ∷ invalid | some p ↦ invalid ]

abbrev pub is_unsettled : GitFileState → Bool
is_unsettled s = elem s.content_digest ("oversized" ∷ "unreadable" ∷ "unstable" ∷ [])

-- `set`, as a list
unfoldable pub distinct : List String → List String
distinct [] = []
distinct (s ∷ ss) = if elem s ss then distinct ss else s ∷ distinct ss

unfoldable pub last_part : List String → String
last_part [] = ""
last_part (t ∷ []) = t
last_part (t ∷ u ∷ ts) = last_part (u ∷ ts)

-- PurePosixPath(path).name.lower() in DEPENDENCY_MANIFESTS
unfoldable pub is_dependency : String → Bool
unfolding last_part parts lower elem
is_dependency path = elem (lower (last_part (parts path))) dependency_manifests

abbrev pub snapshot_line : GitFileState → String
snapshot_line s = s.status +++ (nul_text +++ (s.path +++ (nul_text +++ s.content_digest)))

unfoldable pub material : String → List String → Bool → List GitFileState → String
unfolding join
material root allowed forbid states = join "\n" (
    ("root=" +++ root)
    ∷ ("policy=" +++ join "," allowed)
    ∷ ("forbid_deps=" +++ (if forbid then "True" else "False"))
    ∷ map snapshot_line states)

abbrev failed_verification :
    VerificationStatus
    → String
    → List String
    → Reason
    → String
    → List SnapshotError
    → GitDiffVerification
failed_verification status root allowed reason material errors = record {
  status = status;
  repository_root = root;
  changed_files = [];
  allowed_files = allowed;
  out_of_scope = [];
  dependency_changes = [];
  reason = reason;
  snapshot_material = material;
  snapshot_errors = errors;
}

unfoldable pub snapshot_errors_of : List String → List GitFileState → List SnapshotError
snapshot_errors_of invalid states =
    map unusable invalid
    ++ map (λ (s : GitFileState). unsettled s.path s.content_digest) (keep is_unsettled states)

abbrev pub changed_paths : List GitFileState → List String
changed_paths states = distinct (map (λ (s : GitFileState). s.path) states)

unfoldable pub out_of_scope_of : List String → List String → List GitFileState → List String
unfolding distinct elem
out_of_scope_of allowed invalid states =
    sort_by text_le
      (keep (λ p. not (is_nil allowed) && not (elem p allowed)) (changed_paths states))
    ++ map (λ p. "invalid:" +++ p) invalid

unfoldable pub dependency_changes_of : List GitFileState → List String
unfolding distinct is_dependency
dependency_changes_of states = sort_by text_le (keep is_dependency (changed_paths states))

-- the chain of conditions that sets the status and the reason
unfoldable pub judge :
    List SnapshotError
    → List String
    → List String
    → Bool
    → List String
    → VerificationStatus × Reason
judge [] [] out forbid deps = (not_checked, no_policy)
judge [] (a ∷ allowed) out forbid deps =
    if not (is_nil out)
    then (fail, Reason.outside (length out))
    else if forbid && not (is_nil deps)
    then (fail, dependencies (length deps))
    else (pass, satisfied)
judge (e ∷ errors) allowed out forbid deps = (unknown, incomplete e)

-- what is left to do once `git status` has been read
unfoldable pub verify_states :
    String → List String → Bool → List String → List GitFileState → GitDiffVerification
unfolding judge snapshot_errors_of out_of_scope_of dependency_changes_of material
verify_states root allowed forbid invalid states =
    let errors = snapshot_errors_of invalid states in
    let out = out_of_scope_of allowed invalid states in
    let deps = dependency_changes_of states in
    record {
      status = (judge errors allowed out forbid deps).0;
      repository_root = root;
      changed_files = states;
      allowed_files = allowed;
      out_of_scope = out;
      dependency_changes = deps;
      reason = (judge errors allowed out forbid deps).1;
      snapshot_material = material root allowed forbid states;
      snapshot_errors = errors;
    }

abbrev pub budget_text : ℕ → String
budget_text n =
    "changed-file count exceeds safety budget ("
    +++ (decimal n +++ (" > " +++ (decimal max_changed_files +++ ")")))

unfoldable pub verify_entries :
    (String → String) → String → List String → Bool → List (String × String) → GitDiffVerification
unfolding verify_states valid_states invalid_paths sort_by decimal
verify_entries digest root allowed forbid entries =
    if ltb max_changed_files (length entries)
    then failed_verification unknown root allowed (too_many (length entries))
        ("UNKNOWN" +++ (nul_text +++ (root +++ (nul_text +++ budget_text (length entries)))))
        (over_budget (length entries) ∷ [])
    else verify_states root allowed forbid (invalid_paths entries)
        (sort_by state_le (valid_states digest entries))

unfoldable pub verify_root : Git → String → List String → Bool → GitDiffVerification
unfolding verify_entries parse_porcelain_z
verify_root git root allowed forbid = elim (git.status_z root) [
  | none ↦
      failed_verification unknown root allowed status_failed
        ("UNKNOWN" +++ (nul_text +++ (root +++ (nul_text +++ "git status failed or timed out")))) []
  | some output ↦
      verify_entries (git.content_digest root) root allowed forbid (parse_porcelain_z output)
]

unfoldable pub verify_allowed : Git → String → List String → Bool → GitDiffVerification
unfolding verify_root
verify_allowed git project_root allowed forbid =
    let found = git.repository_root project_root in
    if is_pass found.0
    then verify_root git found.1 allowed forbid
    else failed_verification found.0 found.1 allowed (discovery found.2)
        (value found.0 +++ (nul_text +++ (found.1 +++ (nul_text +++ found.2)))) []

unfoldable pub verify_git_diff : Git → String → List String → Bool → GitDiffVerification
unfolding verify_allowed normalize_allowed
verify_git_diff git project_root allowed_files forbid = elim (normalize_allowed [] allowed_files) [
  | inl item ↦ failed_verification not_checked "" [] (invalid_path item) "invalid-allowlist" []
  | inr allowed ↦ verify_allowed git project_root allowed forbid
]
