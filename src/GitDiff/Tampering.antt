-- ===== src/GitDiff/Tampering.antt =====
-- `check_test_tampering` of core/verification/git_diff.py: changed test files in a bug fix.
use elite_reasoning_mcp.Prelude.{
  String, ◌≡◌, ◌↔◌, refl, Bool, false, not, ◌||◌, Option, none, List, [], ◌∷◌, arith, if◌then◌else◌,
  str_eq, starts_with, ends_with, contains, lower, first, All, Bool-cases, inl, inr,
}

unfoldable pub is_test_file : String → Bool
unfolding lower ends_with contains
is_test_file path =
    let lowered = lower path in
    starts_with lowered "tests/"
    || starts_with lowered "test/"
    || ends_with lowered "_test.py"
    || contains "/test_" lowered

-- `none` where the check passes, otherwise the file that is named
unfoldable pub check_test_tampering : List String → String → Bool → Option String
unfolding is_test_file
check_test_tampering changed_files task_type allow_test_edits =
    if allow_test_edits || not (str_eq task_type "bug_fix")
    then none
    else first is_test_file changed_files

first-none :
    (p : String → Bool) (xs : List String) → (first p xs ≡ none) ↔ All (λ x. p x ≡ false) xs
first-none p [] = ((λ h. tt), (λ h. refl))
first-none p (x ∷ xs) = elim (Bool-cases (p x)) [
  | inl e ↦ rw e ((λ h. absurd (ground arith)), (λ h. absurd (ground arith)))
  | inr e ↦ rw e ((λ h. (refl, (first-none p xs).0 h)), (λ h. (first-none p xs).1 h.1))
]

-- In a bug fix without leave to edit the tests the check passes exactly when none of the changed
-- files is a test file.
pub check_test_tampering-none :
    (changed_files : List String)
    → (check_test_tampering changed_files "bug_fix" false ≡ none)
      ↔ All (λ f. is_test_file f ≡ false) changed_files
unfolding check_test_tampering
check_test_tampering-none changed_files = first-none is_test_file changed_files
