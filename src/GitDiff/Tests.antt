-- ===== src/GitDiff/Tests.antt =====
-- Runs and instances of the model of core/verification/git_diff.py.
use elite_reasoning_mcp.Prelude.{
  ◌≡◌, ◌↔◌, refl, true, false, none, some, List, [], ◌∷◌, All, elem, decimal, lower, ends_with,
  contains, take_chars, drop_chars, strip,
}
use elite_reasoning_mcp.Prelude.Sort.{sort_by}
use elite_reasoning_mcp.Verification.{pass, not_checked}
use elite_reasoning_mcp.GitDiff.{
  Git, verify_git_diff, parse_porcelain_z, has_letter, distinct, is_dependency,
}
use elite_reasoning_mcp.GitDiff.Paths.{normalize_relative_path, parts, is_absolute, join}
use elite_reasoning_mcp.GitDiff.Scope.{Verified, verify_git_diff-Verified}
use elite_reasoning_mcp.GitDiff.Porcelain.{
  Change, plain, moved, IsWritten, is_plain, is_moved, print, paths_of, parse-print,
}
use elite_reasoning_mcp.GitDiff.Inside.{normalize_relative_path-inside}
use elite_reasoning_mcp.GitDiff.Tampering.{is_test_file, check_test_tampering}

abbrev changes : List Change
changes = plain " " "M" "core/a.py" ∷ moved "R" " " "core/b.py" "core/c.py" ∷ []

program : Unit {0}
unfolding verify_git_diff parse_porcelain_z has_letter distinct is_dependency
    normalize_relative_path print paths_of sort_by decimal take_chars drop_chars strip lower elem
    join is_test_file ends_with contains check_test_tampering
program = tt

abbrev repository : Git
repository = record {
  repository_root = λ s. (pass, "/repo", "");
  status_z = λ root. some (print changes);
  content_digest = λ root path. "sha256:0";
}

normalize_run :
    (normalize_relative_path " ./core\\a.py " ≡ some "core/a.py")
    × (normalize_relative_path "core/../../etc" ≡ none)
    × (normalize_relative_path "a//./b/" ≡ some "a/b")
    × (normalize_relative_path "." ≡ some ".")
unfolding program
normalize_run = (refl, refl, refl, refl)

verify_run :
    ((verify_git_diff repository "" ("core/a.py" ∷ "core/b.py" ∷ "core/c.py" ∷ []) true).status
      ≡ pass)
    × ((verify_git_diff repository "" ("core/a.py" ∷ "core/b.py" ∷ []) true).out_of_scope
        ≡ "core/c.py" ∷ [])
    × ((verify_git_diff repository "" [] true).status ≡ not_checked)
    × ((verify_git_diff repository "" ("../x" ∷ []) true).snapshot_material ≡ "invalid-allowlist")
unfolding program
verify_run = (refl, refl, refl, refl)

decimal_run : (decimal 1203 ≡ "1203") × (decimal 0 ≡ "0")
unfolding decimal
decimal_run = (refl, refl)

verify_git_diff-Verified_example :
    ((verify_git_diff repository "" ("core/a.py" ∷ []) false).status ≡ pass)
    ↔ Verified repository "" ("core/a.py" ∷ []) false
verify_git_diff-Verified_example = verify_git_diff-Verified repository "" ("core/a.py" ∷ []) false

changes-IsWritten : All IsWritten changes
unfolding program
changes-IsWritten = (
  is_plain (record { no_nul = refl; some_path = refl }) refl,
  (is_moved (record { no_nul = refl; some_path = refl }) refl refl refl, tt),
)

parse-print_example : parse_porcelain_z (print changes) ≡ paths_of changes
parse-print_example = parse-print changes changes-IsWritten

a_path : normalize_relative_path " ./core\\a.py " ≡ some "core/a.py"
unfolding program
a_path = refl

normalize_relative_path-inside_example :
    (is_absolute "core/a.py" ≡ false) × (elem ".." (parts "core/a.py") ≡ false)
normalize_relative_path-inside_example =
    normalize_relative_path-inside " ./core\\a.py " "core/a.py" a_path
