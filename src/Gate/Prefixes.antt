-- ===== src/Gate/Prefixes.antt =====
-- How the unmet items of the outcome gate of core/verification/registry.py begin: with the check that
-- they blame, which is what core/orchestration/continuity.py looks for.
use Prim.Native.String.{◌++◌ as ◌+++◌}
use text.Mathlib.TextPositions.{starts_with-append}
use text.Mathlib.TextLemmas.{append_assoc}
use elite_reasoning_mcp.Prelude.{
  String, ◌≡◌, refl, Bool, true, false, not, ◌||◌, Option, none, some, List, ◌++◌, All, All-append,
  starts_with, str_eq, Bool-cases, inl, inr, is_empty, is_blank,
}
use elite_reasoning_mcp.Workflow.{Evidence}
use elite_reasoning_mcp.Verification.{is_pass}
use elite_reasoning_mcp.GitDiff.{verify_git_diff}
use elite_reasoning_mcp.GitDiff.Sentences.{reason_text}
use elite_reasoning_mcp.Gate.{
  Host, Snapshot, snapshot_digest, repository_snapshot, worktree_digest, Finding, unmet_if,
  syntax_of, tests_of, scope_of, syntax_unmet, tests_finding, scope_unmet,
}

abbrev pub Blames : String → List String → Type 0
Blames prefix = All (λ item. starts_with item prefix ≡ true)

unmet_if-Blames :
    (prefix : String) (b : Bool) (item : String)
    → starts_with item prefix ≡ true
    → Blames prefix (unmet_if b item)
unmet_if-Blames prefix true item h = (h, tt)
unmet_if-Blames prefix false item h = tt

-- A text that was put together from a prefix of three parts begins with the first.
starts_with-parts : (s t u : String) → starts_with ((s +++ t) +++ u) s ≡ true
starts_with-parts s t u = rw (append_assoc s t u) (starts_with-append s (t +++ u))

syntax_of-Blames :
    (blank : Bool) (now : Snapshot) (e : Evidence) → Blames "syntax:" (syntax_of blank now e)
unfolding syntax_of
syntax_of-Blames true now e = tt
syntax_of-Blames false now e = elim (Bool-cases (is_empty (snapshot_digest e))) [
  | inl k ↦ rw k (refl, tt)
  | inr k ↦ rw k (
      unmet_if-Blames "syntax:"
        (not (is_empty now.limitation) || not (str_eq now.digest (snapshot_digest e)))
        "syntax: repository state changed after syntax verification" refl)
]

pub syntax_unmet-Blames :
    (host : Host) (project_root : String) (found : Option Evidence)
    → Blames "syntax:" (syntax_unmet host project_root found)
unfolding syntax_unmet
syntax_unmet-Blames host project_root none = (refl, tt)
syntax_unmet-Blames host project_root (some e) =
    syntax_of-Blames (is_blank project_root) (repository_snapshot host project_root) e

abbrev TestsBlamed : Finding → Type 0
TestsBlamed f = Blames "run_tests:" f.unmet

tests_of-Blames :
    (blank : Bool) (now : Snapshot) (e : Evidence) → TestsBlamed (tests_of blank now e)
unfolding tests_of
tests_of-Blames blank now e = elim (Bool-cases (is_empty (snapshot_digest e))) [
  | inl k ↦ rw k (refl, tt)
  | inr k ↦ rw k (elim (Bool-cases blank) [
    | inl b ↦ rw b (refl, tt)
    | inr b ↦ rw b (elim (Bool-cases (not (is_empty now.limitation))) [
      | inl l ↦ rw l (
        starts_with-parts "run_tests:" " current repository state is unavailable ("
            (now.limitation +++ ")"),
        tt,
      )
      | inr l ↦ rw l (elim (Bool-cases (not (str_eq now.digest (snapshot_digest e)))) [
        | inl d ↦ rw d (refl, tt)
        | inr d ↦ rw d tt
      ])
    ])
  ])
]

pub tests_finding-Blames :
    (host : Host) (project_root : String) (found : Option Evidence)
    → Blames "run_tests:" (tests_finding host project_root found).unmet
unfolding tests_finding
tests_finding-Blames host project_root none = (refl, tt)
tests_finding-Blames host project_root (some e) =
    tests_of-Blames (is_blank project_root) (repository_snapshot host project_root) e

scope_of-Blames :
    (digest : String) (found : Option Evidence) → Blames "scope_files:" (scope_of digest found)
unfolding scope_of
scope_of-Blames digest none = (refl, tt)
scope_of-Blames digest (some e) =
    unmet_if-Blames "scope_files:" (not (str_eq e.subject_digest digest))
      "scope_files: repository state changed after Git scope verification" refl

scope_judged-Blames :
    (failed : Bool) (reason digest : String) (found : Option Evidence)
    → Blames "scope_files:" (unmet_if failed ("scope_files: " +++ reason) ++ scope_of digest found)
scope_judged-Blames failed reason digest found =
    All-append (λ item. starts_with item "scope_files:" ≡ true)
      (unmet_if failed ("scope_files: " +++ reason)) (scope_of digest found)
      (unmet_if-Blames "scope_files:" failed ("scope_files: " +++ reason)
        (starts_with-parts "scope_files:" " " reason))
      (scope_of-Blames digest found)

pub scope_unmet-Blames :
    (host : Host) (project_root : String) (allowed : List String) (found : Option Evidence)
    → Blames "scope_files:" (scope_unmet host project_root allowed found)
unfolding scope_unmet
scope_unmet-Blames host project_root allowed found = elim (Bool-cases (is_blank project_root)) [
  | inl k ↦ rw k (refl, tt)
  | inr k ↦
      let v = verify_git_diff host.git project_root allowed false in
      rw k (
        scope_judged-Blames (not (is_pass v.status)) (reason_text host.repr v.reason)
          (worktree_digest host v) found)
]
