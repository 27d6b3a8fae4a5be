-- ===== src/GitDiff/Materials.antt =====
-- The text that core/verification/git_diff.py binds evidence to, and the policy that it names.
use Prim.Native.Char.{Char}
use Prim.Native.String.{◌++◌ as ◌+++◌}
use Prim.Native.String.append
use elite_reasoning_mcp.Prelude.{
  ℕ, ◌≤◌, String, ◌≡◌, ◌≢◌, refl, sym, ◌∙◌, Bool, true, false, ap, arith, zero, suc, take_chars,
  str_eq_iff, [], List, ◌∷◌, map, length, ltb,
}
use elite_reasoning_mcp.Prelude.Sort.{sort_by}
use elite_reasoning_mcp.Verification.{pass}
use elite_reasoning_mcp.GitDiff.{
  Git, GitFileState, state_le, valid_states, material, verify_states, verify_entries, verify_root,
  verify_allowed, verify_git_diff, parse_porcelain_z, max_changed_files, snapshot_line,
}
use elite_reasoning_mcp.GitDiff.Paths.{join}
use elite_reasoning_mcp.GitDiff.Scope.{Verified, verify_git_diff-normal, verify_root-answered}

cons_tail : {c d : Char} {s t : String} → String.◌∷◌ c s ≡ String.◌∷◌ d t → s ≡ t
cons_tail h = cc

append_cancel : (s t u : String) → s +++ t ≡ s +++ u → t ≡ u
append_cancel String.[] t u h = sym (append.nil t) ∙ h ∙ append.nil u
append_cancel (String.◌∷◌ c s) t u h =
    append_cancel s t u (cons_tail (sym (append.cons c s t) ∙ h ∙ append.cons c s u))

append_nil : (s : String) → s +++ "" ≡ s
append_nil String.[] = append.nil ""
append_nil (String.◌∷◌ c s) = append.cons c s "" ∙ ap (String.◌∷◌ c) (append_nil s)

-- A joined list begins with its first text.
join-first : (t : String) (ts : List String) → (rest : String) × (join "\n" (t ∷ ts) ≡ t +++ rest)
unfolding join
join-first t [] = ("", sym (append_nil t))
join-first t (u ∷ ts) = ("\n" +++ join "\n" (u ∷ ts), refl)

abbrev chars : String → ℕ
chars String.[] = 0
chars (String.◌∷◌ c s) = suc (chars s)

take_chars-append : (n : ℕ) (s t : String) → n ≤ chars s → take_chars n (s +++ t) ≡ take_chars n s
unfolding take_chars
take_chars-append zero s t h = refl
take_chars-append (suc n) String.[] t h = absurd (ground arith)
take_chars-append (suc n) (String.◌∷◌ c s) t h =
    rw (append.cons c s t) (ap (String.◌∷◌ c) (take_chars-append n s t (ground arith)))

flags_differ :
    (xs ys : List String)
    → join "\n" ("forbid_deps=True" ∷ xs) ≢ join "\n" ("forbid_deps=False" ∷ ys)
unfolding take_chars
flags_differ xs ys h =
    let (r, e) = join-first "forbid_deps=True" xs in
    let (q, f) = join-first "forbid_deps=False" ys in
    let k : ◌≡◌ {A = String} "forbid_deps=T" "forbid_deps=F" =
      sym (take_chars-append 13 "forbid_deps=True" r (omega arith))
      ∙ ap (take_chars 13) (sym e ∙ h ∙ f)
      ∙ take_chars-append 13 "forbid_deps=False" q (omega arith) in
    ground (arith, str_eq_iff "forbid_deps=T" "forbid_deps=F")

-- Two texts that name different policies on dependency changes are different.
pub material-forbid :
    (root : String) (allowed : List String) (xs ys : List GitFileState)
    → material root allowed true xs ≢ material root allowed false ys
unfolding material join
material-forbid root allowed xs ys h = flags_differ (map snapshot_line xs) (map snapshot_line ys) (
    append_cancel "\n" _ _ (
      append_cancel ("policy=" +++ join "," allowed) _ _
        (append_cancel "\n" _ _ (append_cancel ("root=" +++ root) _ _ h))))

-- The text of a verification that passes.
module _ (git : Git) (project_root : String) (allowed_files : List String) (forbid : Bool) where
  abbrev root : String
  root = (git.repository_root project_root).1

  verify_allowed-found :
      (allowed : List String)
      → (git.repository_root project_root).0 ≡ pass
      → verify_allowed git project_root allowed forbid ≡ verify_root git root allowed forbid
  unfolding verify_allowed
  verify_allowed-found allowed h = rw h refl

  verify_entries-material :
      (digest : String → String) (allowed : List String) (entries : List (String × String))
      → length entries ≤ max_changed_files
      → (verify_entries digest root allowed forbid entries).snapshot_material
        ≡ material root allowed forbid (sort_by state_le (valid_states digest entries))
  unfolding verify_entries verify_states
  verify_entries-material digest allowed entries h =
      let e : ltb max_changed_files (length entries) ≡ false = ground arith in rw e refl

  pub verify_git_diff-material :
      (v : Verified git project_root allowed_files forbid)
      → (verify_git_diff git project_root allowed_files forbid).snapshot_material
        ≡ material root v.allowed forbid
            (sort_by state_le (valid_states (git.content_digest root) (parse_porcelain_z v.output)))
  verify_git_diff-material v =
      ap (λ x. x.snapshot_material)
        (verify_git_diff-normal git project_root allowed_files v.allowed forbid v.normalized
          ∙ verify_allowed-found v.allowed v.found
          ∙ verify_root-answered v.allowed forbid git root v.output v.answered)
      ∙ verify_entries-material _ v.allowed _ v.bounded
