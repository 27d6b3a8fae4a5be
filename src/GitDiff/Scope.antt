-- ===== src/GitDiff/Scope.antt =====
-- When `verify_git_diff` of core/verification/git_diff.py passes.
use elite_reasoning_mcp.Prelude.{
  ◌≤◌, String, ◌≡◌, ◌≢◌, ◌↔◌, refl, inl, inr, Bool, false, none, some, List, [], ◌∷◌, arith, ltb,
  All, length, Bool-cases, Option-cases, Sum-cases,
}
use elite_reasoning_mcp.Prelude.Sort.{All-sort_by}
use elite_reasoning_mcp.Prelude.Nil.{is_nil, sort_by-All}
use elite_reasoning_mcp.Verification.{pass, unknown, not_checked, is_pass_iff}
use elite_reasoning_mcp.GitDiff.{
  Git, state_le, valid_states, invalid_paths, verify_entries, verify_root, verify_allowed,
  verify_git_diff, normalize_allowed, parse_porcelain_z, max_changed_files,
}
use elite_reasoning_mcp.GitDiff.Paths.{normalize_relative_path}
use elite_reasoning_mcp.GitDiff.Judge.{InScope, verify_states-pass}

-- What an entry of `git status` has to be: a valid path whose file is in scope.
pub record EntryInScope (digest : String → String) (allowed : List String) (forbid : Bool)
    (entry : String × String) : Type 0 where
  pub path : String
  pub valid : normalize_relative_path entry.1 ≡ some path
  pub scope :
      InScope allowed forbid
        (record { path = path; status = entry.0; content_digest = digest path })

module _ (digest : String → String) (allowed : List String) (forbid : Bool) where
  EntryInScope-of :
      (entries : List (String × String))
      → invalid_paths entries ≡ []
      → All (InScope allowed forbid) (valid_states digest entries)
      → All (EntryInScope digest allowed forbid) entries
  unfolding invalid_paths valid_states
  EntryInScope-of [] i h = tt
  EntryInScope-of ((code, raw) ∷ entries) i h = elim (Option-cases (normalize_relative_path raw)) [
    | inl e ↦
        let k : raw ∷ invalid_paths entries ≡ [] = rw (e, invalid_paths) at i in
        absurd (ground arith)
    | inr (p, e) ↦
        let k : invalid_paths entries ≡ [] = rw (e, invalid_paths) at i in
        let g : All (InScope allowed forbid) (
            record { path = p; status = code; content_digest = digest p }
            ∷ valid_states digest entries) =
          rw (e, valid_states) at h in
        (record { path = p; valid = e; scope = g.0 }, EntryInScope-of entries k g.1)
  ]

  of-EntryInScope :
      (entries : List (String × String))
      → All (EntryInScope digest allowed forbid) entries
      → (invalid_paths entries ≡ []) × All (InScope allowed forbid) (valid_states digest entries)
  unfolding invalid_paths valid_states
  of-EntryInScope [] h = (refl, tt)
  of-EntryInScope ((code, raw) ∷ entries) h =
      let k = of-EntryInScope entries h.1 in
      (rw (h.0.valid, invalid_paths) k.0, rw (h.0.valid, valid_states) (h.0.scope, k.1))

  verify_entries-pass :
      (root : String) (entries : List (String × String))
      → ((verify_entries digest root allowed forbid entries).status ≡ pass) ↔ (
          (length entries ≤ max_changed_files)
          × (is_nil allowed ≡ false)
          × All (EntryInScope digest allowed forbid) entries)
  unfolding verify_entries
  verify_entries-pass root entries = elim (Bool-cases (ltb max_changed_files (length entries))) [
    | inl e ↦ ((λ h. absurd (ground arith)), (λ h. absurd (ground arith)))
    | inr e ↦ rw e (
      (λ h.
          let v = (verify_states-pass allowed forbid root _ _).0 h in
          (
            ground arith,
            v.0,
            EntryInScope-of entries v.1 (sort_by-All state_le _ (valid_states digest entries) v.2),
          )),
      (λ (n, a, all).
          let o = of-EntryInScope entries all in
          (verify_states-pass allowed forbid root _ _).1
            (a, o.0, All-sort_by state_le _ (valid_states digest entries) o.1)),
    )
  ]

module _ (allowed : List String) (forbid : Bool) where
  pub verify_root-answered :
      (git : Git) (root output : String)
      → git.status_z root ≡ some output
      → verify_root git root allowed forbid
        ≡ verify_entries (git.content_digest root) root allowed forbid (parse_porcelain_z output)
  unfolding verify_root
  verify_root-answered git root output e = rw (e, verify_root) refl

  verify_root-silent :
      (git : Git) (root : String)
      → git.status_z root ≡ none
      → (verify_root git root allowed forbid).status ≢ pass
  unfolding verify_root
  verify_root-silent git root e h =
      let k : unknown ≡ pass = rw (e, verify_root) at h in ground arith

  verify_allowed-pass :
      (git : Git) (project_root : String)
      → ((verify_allowed git project_root allowed forbid).status ≡ pass) ↔ (
          ((git.repository_root project_root).0 ≡ pass)
          × ((verify_root git (git.repository_root project_root).1 allowed forbid).status ≡ pass))
  unfolding verify_allowed
  verify_allowed-pass git project_root =
      ground (arith, is_pass_iff (git.repository_root project_root).0)

-- How `verify_git_diff` comes to a status of its own: the allowlist is valid, the repository is
-- found, `git status` answers with at most 1000 entries, and each of them is in scope.
pub record Verified (git : Git) (project_root : String) (allowed_files : List String)
    (forbid : Bool) : Type 0 where
  pub allowed : List String
  pub output : String
  pub normalized : normalize_allowed [] allowed_files ≡ inr allowed
  pub restricted : is_nil allowed ≡ false
  pub found : (git.repository_root project_root).0 ≡ pass
  pub answered : git.status_z (git.repository_root project_root).1 ≡ some output
  pub bounded : length (parse_porcelain_z output) ≤ max_changed_files
  pub entries :
      All
        (EntryInScope (git.content_digest (git.repository_root project_root).1) allowed forbid)
        (parse_porcelain_z output)

pub verify_git_diff-normal :
    (git : Git) (project_root : String) (allowed_files allowed : List String) (forbid : Bool)
    → normalize_allowed [] allowed_files ≡ inr allowed
    → verify_git_diff git project_root allowed_files forbid
      ≡ verify_allowed git project_root allowed forbid
unfolding verify_git_diff
verify_git_diff-normal git project_root allowed_files allowed forbid e =
    rw (e, verify_git_diff) refl

verify_git_diff-invalid :
    (git : Git) (project_root item : String) (allowed_files : List String) (forbid : Bool)
    → normalize_allowed [] allowed_files ≡ inl item
    → (verify_git_diff git project_root allowed_files forbid).status ≢ pass
unfolding verify_git_diff
verify_git_diff-invalid git project_root item allowed_files forbid e h =
    let k : not_checked ≡ pass = rw (e, verify_git_diff) at h in ground arith

Verified-of :
    (git : Git) (project_root : String) (allowed_files allowed : List String) (forbid : Bool)
    → normalize_allowed [] allowed_files ≡ inr allowed
    → (verify_allowed git project_root allowed forbid).status ≡ pass
    → Verified git project_root allowed_files forbid
Verified-of git project_root allowed_files allowed forbid n h =
    let (found, r) = (verify_allowed-pass allowed forbid git project_root).0 h in
    let root = (git.repository_root project_root).1 in
    elim (Option-cases (git.status_z root)) [
      | inl e ↦ absurd (verify_root-silent allowed forbid git root e r)
      | inr (output, e) ↦
          let k =
            (verify_entries-pass (git.content_digest root) allowed forbid root _).0
              (rw (verify_root-answered allowed forbid git root output e) at r) in
          record {
            allowed = allowed;
            output = output;
            normalized = n;
            restricted = k.1;
            found = found;
            answered = e;
            bounded = k.0;
            entries = k.2;
          }
    ]

-- The verification passes exactly when every path of the allowlist is valid and there is one, the
-- repository is found, `git status` answers with at most 1000 entries, and the path of each entry
-- is valid, in the allowlist, with a settled content digest, and no dependency manifest if changes
-- of these are forbidden.
pub verify_git_diff-Verified :
    (git : Git) (project_root : String) (allowed_files : List String) (forbid : Bool)
    → ((verify_git_diff git project_root allowed_files forbid).status ≡ pass)
      ↔ Verified git project_root allowed_files forbid
verify_git_diff-Verified git project_root allowed_files forbid = (
  (λ h. elim (Sum-cases (normalize_allowed [] allowed_files)) [
    | inl (item, e) ↦
        absurd (verify_git_diff-invalid git project_root item allowed_files forbid e h)
    | inr (allowed, e) ↦
        Verified-of git project_root allowed_files allowed forbid e
          (rw (verify_git_diff-normal git project_root allowed_files allowed forbid e) at h)
  ]),
  (λ v. rw (verify_git_diff-normal git project_root allowed_files v.allowed forbid v.normalized) (
      (verify_allowed-pass v.allowed forbid git project_root).1 (
        v.found,
        rw
            (verify_root-answered v.allowed forbid git (git.repository_root project_root).1 v.output
              v.answered)
            ((verify_entries-pass _ v.allowed forbid _ _).1 (v.bounded, v.restricted, v.entries)),
      ))),
)
