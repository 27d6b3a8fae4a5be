-- ===== src/GitDiff/Judge.antt =====
-- When the last part of `verify_git_diff` of core/verification/git_diff.py passes: the judgement of
-- the states of the changed files.
use elite_reasoning_mcp.Prelude.{
  String, ◌≡◌, ◌↔◌, refl, inl, inr, Bool, true, false, not, ◌&&◌, List, [], ◌∷◌, map, arith, elem,
  keep, All, All-imp, Bool-cases,
}
use elite_reasoning_mcp.Prelude.Sort.{sort_by}
use elite_reasoning_mcp.Prelude.Nil.{
  is_nil, is_nil_iff, is_nil-append, is_nil-keep, is_nil-sort_by, is_nil-map, All-map, All-elem,
}
use elite_reasoning_mcp.Prelude.Text.{text_le}
use elite_reasoning_mcp.Verification.{pass}
use elite_reasoning_mcp.GitDiff.{
  GitFileState, SnapshotError, unusable, unsettled, is_unsettled, distinct, is_dependency, judge,
  snapshot_errors_of, out_of_scope_of, dependency_changes_of, changed_paths, verify_states,
}

All-distinct {ℓ} : (P : String → Type ℓ) (ss : List String) → All P (distinct ss) ↔ All P ss
unfolding distinct
All-distinct P [] = ((λ h. tt), (λ h. tt))
All-distinct P (s ∷ ss) = elim (Bool-cases (elem s ss)) [
  | inl e ↦ rw e (
    (λ h. let k = (All-distinct P ss).0 h in (All-elem P s ss e k, k)),
    (λ h. (All-distinct P ss).1 h.1),
  )
  | inr e ↦ rw e ((λ h. (h.0, (All-distinct P ss).0 h.1)), (λ h. (h.0, (All-distinct P ss).1 h.1)))
]

judge-pass :
    (errors : List SnapshotError) (allowed out : List String) (forbid : Bool) (deps : List String)
    → ((judge errors allowed out forbid deps).0 ≡ pass) ↔ (
        (is_nil errors ≡ true)
        × (is_nil allowed ≡ false)
        × (is_nil out ≡ true)
        × (forbid ≡ true → is_nil deps ≡ true))
unfolding judge
judge-pass [] [] out forbid deps = ground arith
judge-pass [] (a ∷ allowed) out forbid deps = ground arith
judge-pass (e ∷ errors) allowed out forbid deps = ground arith

-- What a changed file has to be: of settled content, listed, and no dependency manifest if these
-- are forbidden.
pub record InScope (allowed : List String) (forbid : Bool) (s : GitFileState) : Type 0 where
  pub settled : is_unsettled s ≡ false
  pub listed : elem s.path allowed ≡ true
  pub independent : forbid ≡ true → is_dependency s.path ≡ false

module _ (p : String → Bool) (states : List GitFileState) where
  -- a list computed from the changed paths
  is_nil-changed_paths :
      (is_nil (sort_by text_le (keep p (changed_paths states))) ≡ true)
      ↔ All (λ (s : GitFileState). p s.path ≡ false) states
  is_nil-changed_paths = rw (is_nil-sort_by text_le (keep p (changed_paths states))) (
    (λ h.
        (All-map (λ (s : GitFileState). s.path) (λ q. p q ≡ false) states).0
          ((All-distinct (λ q. p q ≡ false) _).0 ((is_nil-keep p (changed_paths states)).0 h))),
    (λ h. (is_nil-keep p (changed_paths states)).1 (
        (All-distinct (λ q. p q ≡ false) _).1
          ((All-map (λ (s : GitFileState). s.path) (λ q. p q ≡ false) states).1 h))),
  )

module _ (allowed : List String) (forbid : Bool) where
  settled_iff :
      (invalid : List String) (states : List GitFileState)
      → (is_nil (snapshot_errors_of invalid states) ≡ true)
        ↔ ((is_nil invalid ≡ true) × All (λ s. is_unsettled s ≡ false) states)
  unfolding snapshot_errors_of
  settled_iff invalid states = ground (
    arith,
    is_nil-append (map unusable invalid)
        (map (λ (s : GitFileState). unsettled s.path s.content_digest) (keep is_unsettled states)),
    is_nil-map unusable invalid,
    is_nil-map (λ (s : GitFileState). unsettled s.path s.content_digest) (keep is_unsettled states),
    is_nil-keep is_unsettled states,
  )

  abbrev is_outside : String → Bool
  is_outside p = not (is_nil allowed) && not (elem p allowed)

  outside_nil :
      (states : List GitFileState)
      → (is_nil (out_of_scope_of allowed [] states) ≡ true)
        ↔ (is_nil (sort_by text_le (keep is_outside (changed_paths states))) ≡ true)
  unfolding out_of_scope_of
  outside_nil states =
      ground (arith, is_nil-append (sort_by text_le (keep is_outside (changed_paths states))) [])

  listed_iff :
      (states : List GitFileState)
      → is_nil allowed ≡ false
      → (is_nil (out_of_scope_of allowed [] states) ≡ true)
        ↔ All (λ (s : GitFileState). elem s.path allowed ≡ true) states
  unfolding out_of_scope_of
  listed_iff states k = (
    (λ h.
        All-imp _ _ states (λ s e. ground arith)
          ((is_nil-changed_paths is_outside states).0 (ground (arith, outside_nil states)))),
    (λ h.
        (outside_nil states).1 (
          (is_nil-changed_paths is_outside states).1 (All-imp _ _ states (λ s e. ground arith) h))),
  )

  independent_iff :
      (states : List GitFileState)
      → (is_nil (dependency_changes_of states) ≡ true)
        ↔ All (λ (s : GitFileState). is_dependency s.path ≡ false) states
  unfolding dependency_changes_of
  independent_iff states = is_nil-changed_paths is_dependency states

  combine :
      (states : List GitFileState)
      → All (λ s. is_unsettled s ≡ false) states
      → All (λ (s : GitFileState). elem s.path allowed ≡ true) states
      → (forbid ≡ true → All (λ (s : GitFileState). is_dependency s.path ≡ false) states)
      → All (InScope allowed forbid) states
  combine [] u l d = tt
  combine (s ∷ states) u l d = (
    record { settled = u.0; listed = l.0; independent = λ f. (d f).0 },
    combine states u.1 l.1 (λ f. (d f).1),
  )

  pub verify_states-pass :
      (root : String) (invalid : List String) (states : List GitFileState)
      → ((verify_states root allowed forbid invalid states).status ≡ pass)
        ↔ ((is_nil allowed ≡ false) × (invalid ≡ []) × All (InScope allowed forbid) states)
  unfolding verify_states
  verify_states-pass root invalid states = (
    (λ h.
        let j = (judge-pass _ allowed _ forbid _).0 h in
        let e = (settled_iff invalid states).0 j.0 in
        let i = (is_nil_iff invalid).0 e.0 in
        let o : is_nil (out_of_scope_of allowed [] states) ≡ true = rw i at j.2 in
        (
          j.1,
          i,
          combine states e.1 ((listed_iff states j.1).0 o)
              (λ f. (independent_iff states).0 (j.3 f)),
        )),
    (λ (n, i, all). rw i (
        (judge-pass _ allowed _ forbid _).1 (
          (settled_iff [] states).1 (refl, All-imp _ _ states (λ s r. r.settled) all),
          n,
          (listed_iff states n).1 (All-imp _ _ states (λ s r. r.listed) all),
          (λ f. (independent_iff states).1 (All-imp _ _ states (λ s r. r.independent f) all)),
        ))),
  )
