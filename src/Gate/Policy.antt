-- ===== src/Gate/Policy.antt =====
-- Scope evidence that forbids dependency changes, at the outcome gate of
-- core/verification/registry.py, which verifies the scope without that policy.
use elite_reasoning_mcp.Prelude.{
  String, ◌≡◌, ◌≢◌, sym, ◌∙◌, Bool, true, false, some, List, arith, Bool-cases, inl, inr, ap,
}
use elite_reasoning_mcp.Prelude.Nil.{is_nil}
use elite_reasoning_mcp.Verification.{pass}
use elite_reasoning_mcp.Workflow.{Evidence}
use elite_reasoning_mcp.GitDiff.{verify_git_diff}
use elite_reasoning_mcp.GitDiff.Scope.{Verified, verify_git_diff-Verified}
use elite_reasoning_mcp.GitDiff.Materials.{material-forbid, verify_git_diff-material}
use elite_reasoning_mcp.Gate.{Host, worktree_digest, scope_unmet}
use elite_reasoning_mcp.Gate.Supported.{scope_unmet-ScopeSupport}

module _ (host : Host) (project_root : String) (allowed_files : List String) where
  policies_differ :
      (v : Verified host.git project_root allowed_files true)
      (w : Verified host.git project_root allowed_files false)
      → (verify_git_diff host.git project_root allowed_files true).snapshot_material
        ≢ (verify_git_diff host.git project_root allowed_files false).snapshot_material
  policies_differ v w h =
      let same : v.allowed ≡ w.allowed = ground (arith, v.normalized, w.normalized) in
      let m =
        sym (verify_git_diff-material host.git project_root allowed_files true v)
        ∙ h
        ∙ verify_git_diff-material host.git project_root allowed_files false w in
      material-forbid (host.git.repository_root project_root).1 w.allowed _ _ (rw same at m)

  abbrev pub material_of : Bool → String
  material_of forbids =
      (verify_git_diff host.git project_root allowed_files forbids).snapshot_material

  -- While Git answers the same, and for the same list of allowed files: if the diff check also with
  -- dependency changes forbidden passes, and the texts that it and the gate compute of the working tree
  -- have different digests unless they are equal, its evidence does not satisfy the scope check of the
  -- gate, although nothing has changed.
  pub forbidding_diff_unmet :
      (e : Evidence)
      → (host.subject_digest "git_worktree_snapshot" (material_of true)
            ≡ host.subject_digest "git_worktree_snapshot" (material_of false)
          → material_of true ≡ material_of false)
      → (verify_git_diff host.git project_root allowed_files true).status ≡ pass
      → e.subject_digest
        ≡ worktree_digest host (verify_git_diff host.git project_root allowed_files true)
      → is_nil (scope_unmet host project_root allowed_files (some e)) ≡ false
  forbidding_diff_unmet e distinct passed bound =
      elim (Bool-cases (is_nil (scope_unmet host project_root allowed_files (some e)))) [
        | inr n ↦ n
        | inl n ↦
            let s = (scope_unmet-ScopeSupport host project_root allowed_files (some e)).0 n in
            let same : e ≡ s.latest = ground (arith, s.is_latest) in
            absurd (
              policies_differ
                ((verify_git_diff-Verified host.git project_root allowed_files true).0 passed)
                ((verify_git_diff-Verified host.git project_root allowed_files false).0 s.in_scope)
                (distinct (sym bound ∙ ap (λ (x : Evidence). x.subject_digest) same ∙ s.current)))
      ]
