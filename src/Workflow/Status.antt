-- ===== src/Workflow/Status.antt =====
-- The status of a run (`update_workflow_step` of core/memory/persistent_store.py) and the statuses
-- of its steps.
use elite_reasoning_mcp.Prelude.{
  ℕ, String, ◌≡◌, ◌≢◌, ◌↔◌, ◌⊎◌, inl, inr, refl, Bool, true, false, ◌||◌, List, [], ◌∷◌, map, arith,
  if◌then◌else◌, str_eq, str_eq_iff, any, all, keep, All, take_chars, Bool-cases,
}
use elite_reasoning_mcp.Prelude.Sort.{sort_by}
use elite_reasoning_mcp.Workflow.{
  Boundary, Run, Step, Store, step_le, workflow_status, is_step, set_step, set_run_status,
  statuses_of, update_workflow_step,
}

abbrev pub IsDone : String → Type 0
IsDone s = (s ≡ "passed") ⊎ (s ≡ "skipped")

IsDone-iff : (s : String) → ((str_eq s "passed" || str_eq s "skipped") ≡ true) ↔ IsDone s
IsDone-iff s = ground (arith, str_eq_iff s "passed", str_eq_iff s "skipped")

not_bad :
    (s bad : String)
    → IsDone s
    → str_eq "passed" bad ≡ false
    → str_eq "skipped" bad ≡ false
    → str_eq s bad ≡ false
not_bad s bad (inl e) p q = rw e p
not_bad s bad (inr e) p q = rw e q

all-done :
    (ss : List String)
    → All IsDone ss
    → all (λ s. str_eq s "passed" || str_eq s "skipped") ss ≡ true
all-done [] h = refl
all-done (s ∷ ss) h = rw ((IsDone-iff s).1 h.0) (all-done ss h.1)

IsDone-of_all :
    (ss : List String)
    → all (λ s. str_eq s "passed" || str_eq s "skipped") ss ≡ true
    → All IsDone ss
IsDone-of_all [] h = tt
IsDone-of_all (s ∷ ss) h = ((IsDone-iff s).0 (ground arith), IsDone-of_all ss (ground arith))

any_bad :
    (bad : String) (ss : List String)
    → str_eq "passed" bad ≡ false
    → str_eq "skipped" bad ≡ false
    → All IsDone ss
    → any (λ s. str_eq s bad) ss ≡ false
any_bad bad [] p q h = refl
any_bad bad (s ∷ ss) p q h = rw (not_bad s bad h.0 p q) (any_bad bad ss p q h.1)

completed_ladder :
    (a b c d : Bool)
    → ◌≡◌ {A = String}
        (if a
          then "failed"
          else if b
          then "blocked"
          else if c
          then "completed"
          else if d
          then "running"
          else "planned")
        "completed"
    → (a ≡ false) × (b ≡ false) × (c ≡ true)
completed_ladder a b c d h = ground (
  arith,
  str_eq_iff "failed" "completed",
  str_eq_iff "blocked" "completed",
  str_eq_iff "running" "completed",
  str_eq_iff "planned" "completed",
)

any-true : (ss : List String) → any (λ s. true) ss ≡ true → ss ≢ []
any-true [] h e = cc
any-true (s ∷ ss) h e = cc

true-any : (ss : List String) → ss ≢ [] → any (λ s. true) ss ≡ true
true-any [] h = absurd (h refl)
true-any (s ∷ ss) h = refl

-- A run counts as completed exactly when it has a step and each of its steps passed or was skipped.
pub workflow_status-completed :
    (ss : List String) → (workflow_status ss ≡ "completed") ↔ ((ss ≢ []) × All IsDone ss)
unfolding workflow_status
workflow_status-completed ss = (
  (λ h.
      let c = (completed_ladder _ _ _ _ h).2 in
      (any-true ss (ground arith), IsDone-of_all ss (ground arith))),
  (λ h.
      rw (any_bad "failed" ss refl refl h.1)
        (rw (any_bad "blocked" ss refl refl h.1) (rw (true-any ss h.0) (rw (all-done ss h.1))))),
)

-- The stored status of each run is the one computed from the statuses of its steps.
abbrev pub StatusSound : Store → Type 0
StatusSound st = All (λ (r : Run). r.status ≡ workflow_status (statuses_of r.run_id st)) st.runs

abbrev pub of_run : String → Step → Bool
of_run rid s = str_eq s.run_id rid

pub keep-set_step :
    (now : ℕ) (rid q : String) (index : ℕ) (status ev : String) (steps : List Step)
    → str_eq q rid ≡ false
    → keep (of_run q) (set_step now rid index status ev steps) ≡ keep (of_run q) steps
unfolding set_step
keep-set_step now rid q index status ev [] h = refl
keep-set_step now rid q index status ev (s ∷ steps) h = ground (
  arith,
  str_eq_iff s.run_id rid,
  str_eq_iff s.run_id q,
  str_eq_iff q rid,
  keep-set_step now rid q index status ev steps h,
)

module _ (now : ℕ) (rid : String) (steps before : List Step) where
  -- The runs of a store, after the status of one of them was set from the new steps.
  set_run_status_sound :
      (runs : List Run)
      → ((q : String) → str_eq q rid ≡ false → keep (of_run q) steps ≡ keep (of_run q) before)
      → All
          (λ (r : Run).
            r.status
            ≡ workflow_status
                (map (λ (s : Step). s.status) (sort_by step_le (keep (of_run r.run_id) before))))
          runs
      → All
          (λ (r : Run).
            r.status
            ≡ workflow_status
                (map (λ (s : Step). s.status) (sort_by step_le (keep (of_run r.run_id) steps))))
          (set_run_status now rid
            (workflow_status
              (map (λ (s : Step). s.status) (sort_by step_le (keep (of_run rid) steps))))
            runs)
  unfolding set_run_status
  set_run_status_sound [] same h = tt
  set_run_status_sound (r ∷ runs) same h = elim (Bool-cases (str_eq r.run_id rid)) [
    | inl e ↦ rw e (rw ((str_eq_iff r.run_id rid).0 e) refl, set_run_status_sound runs same h.1)
    | inr e ↦ rw e (rw (same r.run_id e) h.0, set_run_status_sound runs same h.1)
  ]

-- If the stored status of each run is the computed one, it is so after an update of a step of any
-- run, successful or not.
pub update_workflow_step-StatusSound :
    (b : Boundary) (now : ℕ) (rid : String) (index : ℕ) (status evidence : String) (st : Store)
    → StatusSound st
    → StatusSound (update_workflow_step b now rid index status evidence st).1
unfolding update_workflow_step
update_workflow_step-StatusSound b now rid index status evidence st h =
    elim (Bool-cases (any (is_step rid index) st.steps)) [
      | inr e ↦ rw e h
      | inl e ↦ rw e (
          set_run_status_sound now rid
            (set_step now rid index status (b.redact_text (take_chars 2000 evidence) 2000) st.steps)
            st.steps st.runs (λ q d. keep-set_step now rid q index status _ st.steps d) h)
    ]
