-- ===== src/Workflow/Integrity.antt =====
-- Steps and evidence refer to runs that exist, through every write of the workflow tables of
-- core/memory/persistent_store.py.
use elite_reasoning_mcp.Prelude.{
  ℕ, suc, String, ◌≡◌, refl, ◌∙◌, true, not, inl, inr, List, [], ◌∷◌, arith, str_eq, str_eq_iff,
  str_eq_refl, is_empty, any, keep, All, Bool-cases, All-keep, All-keep_self, All-imp, All-imp₂,
  All-append, any-keep,
}
use elite_reasoning_mcp.Workflow.{
  Boundary, Run, NewRun, NewStep, NewEvidence, Step, Evidence, Store, has_run, step_rows, is_step,
  record_workflow_run, set_step, set_run_status, evidence_row, same_key, record_workflow_evidence,
  update_workflow_step,
}

-- The foreign keys of `workflow_steps` and `workflow_evidence`.
pub record KeysSound (st : Store) : Type 0 where
  pub steps : All (λ (s : Step). has_run s.run_id st ≡ true) st.steps
  pub evidence : All (λ (e : Evidence). has_run e.run_id st ≡ true) st.evidence

any-set_run_status :
    (now : ℕ) (rid status q : String) (runs : List Run)
    → any (λ (r : Run). str_eq r.run_id q) (set_run_status now rid status runs)
      ≡ any (λ (r : Run). str_eq r.run_id q) runs
unfolding set_run_status
any-set_run_status now rid status q [] = refl
any-set_run_status now rid status q (r ∷ runs) =
    ground (arith, any-set_run_status now rid status q runs)

All-set_step {ℓ} :
    (P : String → Type ℓ) (now : ℕ) (rid : String) (index : ℕ) (status ev : String)
    (steps : List Step)
    → All (λ (s : Step). P s.run_id) steps
    → All (λ (s : Step). P s.run_id) (set_step now rid index status ev steps)
unfolding set_step
All-set_step P now rid index status ev [] h = tt
All-set_step P now rid index status ev (s ∷ steps) h = elim (Bool-cases (is_step rid index s)) [
  | inl e ↦ rw e (h.0, All-set_step P now rid index status ev steps h.1)
  | inr e ↦ rw e (h.0, All-set_step P now rid index status ev steps h.1)
]

rows-run_id {ℓ} :
    (P : String → Type ℓ) (b : Boundary) (now : ℕ) (rid : String) (i : ℕ) (steps : List NewStep)
    → P rid
    → All (λ (s : Step). P s.run_id) (step_rows b now rid i steps)
unfolding step_rows
rows-run_id P b now rid i [] h = tt
rows-run_id P b now rid i (s ∷ steps) h = (h, rows-run_id P b now rid (suc i) steps h)

any-keep_run :
    (rid q : String) (runs : List Run)
    → not (str_eq q rid) ≡ true
    → any (λ (r : Run). str_eq r.run_id q) (keep (λ (r : Run). not (str_eq r.run_id rid)) runs)
      ≡ any (λ (r : Run). str_eq r.run_id q) runs
any-keep_run rid q runs d =
    any-keep (λ (r : Run). not (str_eq r.run_id rid)) (λ (r : Run). str_eq r.run_id q) runs
      (λ r e. ground (arith, str_eq_iff r.run_id q, str_eq_iff r.run_id rid, str_eq_iff q rid))

module _ (b : Boundary) (now : ℕ) (st : Store) where
  has_run_kept :
      (run : NewRun) (steps : List NewStep) (q : String)
      → has_run q st ≡ true
      → not (str_eq q run.run_id) ≡ true
      → has_run q (record_workflow_run b now run steps st) ≡ true
  unfolding record_workflow_run
  has_run_kept run steps q k d = ground (arith, any-keep_run run.run_id q st.runs d)

  has_run_recorded :
      (run : NewRun) (steps : List NewStep)
      → has_run run.run_id (record_workflow_run b now run steps st) ≡ true
  unfolding record_workflow_run
  has_run_recorded run steps = ground (arith, str_eq_refl run.run_id)

  record_workflow_run-KeysSound :
      (run : NewRun) (steps : List NewStep)
      → KeysSound st
      → KeysSound (record_workflow_run b now run steps st)
  record_workflow_run-KeysSound run steps h = record {
    steps =
        unfold record_workflow_run in
        All-append _
          (keep (λ (s : Step). not (str_eq s.run_id run.run_id))
            (keep (λ (s : Step). not (str_eq s.run_id run.run_id)) st.steps))
          (step_rows b now run.run_id 1 steps)
          (All-keep _ (λ (s : Step). not (str_eq s.run_id run.run_id))
            (keep (λ (s : Step). not (str_eq s.run_id run.run_id)) st.steps)
            (All-imp₂ _ _ _ (keep (λ (s : Step). not (str_eq s.run_id run.run_id)) st.steps)
              (λ s k d. has_run_kept run steps s.run_id k d)
              (All-keep _ (λ (s : Step). not (str_eq s.run_id run.run_id)) st.steps h.steps)
              (All-keep_self (λ (s : Step). not (str_eq s.run_id run.run_id)) st.steps)))
          (rows-run_id (λ q. has_run q (record_workflow_run b now run steps st) ≡ true) b now
            run.run_id 1 steps (has_run_recorded run steps));
    evidence =
        unfold record_workflow_run in
        All-imp₂ _ _ _ (keep (λ (e : Evidence). not (str_eq e.run_id run.run_id)) st.evidence)
          (λ e k d. has_run_kept run steps e.run_id k d)
          (All-keep _ (λ (e : Evidence). not (str_eq e.run_id run.run_id)) st.evidence h.evidence)
          (All-keep_self (λ (e : Evidence). not (str_eq e.run_id run.run_id)) st.evidence);
  }

  record_workflow_evidence-KeysSound :
      (rid kind : String) (ev : NewEvidence)
      → KeysSound st
      → KeysSound (record_workflow_evidence b now rid kind ev st).1
  unfolding record_workflow_evidence
  record_workflow_evidence-KeysSound rid kind ev h = elim (Bool-cases (is_empty rid)) [
    | inl e ↦ rw e h
    | inr e ↦ rw e (elim (Bool-cases (is_empty ev.id)) [
      | inl i ↦ rw i h
      | inr i ↦ rw i (elim (Bool-cases (has_run rid st)) [
        | inr r ↦ rw r h
        | inl r ↦ rw r (record {
          steps = h.steps;
          evidence = (
            r,
            All-keep _ (λ (x : Evidence). not (same_key x (evidence_row b now rid kind ev)))
                st.evidence h.evidence,
          );
        })
      ])
    ])
  ]

  has_run-set :
      (rid run_status q : String)
      → has_run q st ≡ true
      → any (λ (r : Run). str_eq r.run_id q) (set_run_status now rid run_status st.runs) ≡ true
  has_run-set rid run_status q h = any-set_run_status now rid run_status q st.runs ∙ h

  set-KeysSound :
      (rid : String) (index : ℕ) (status ev run_status : String)
      → KeysSound st
      → KeysSound (record st {
        steps = set_step now rid index status ev st.steps;
        runs = set_run_status now rid run_status st.runs;
      })
  set-KeysSound rid index status ev run_status h = record {
    steps =
        All-set_step
          (λ q.
            any (λ (r : Run). str_eq r.run_id q) (set_run_status now rid run_status st.runs) ≡ true)
          now rid index status ev st.steps
          (All-imp _ _ st.steps (λ s k. has_run-set rid run_status s.run_id k) h.steps);
    evidence = All-imp _ _ st.evidence (λ x k. has_run-set rid run_status x.run_id k) h.evidence;
  }

  update_workflow_step-KeysSound :
      (rid : String) (index : ℕ) (status ev : String)
      → KeysSound st
      → KeysSound (update_workflow_step b now rid index status ev st).1
  unfolding update_workflow_step
  update_workflow_step-KeysSound rid index status ev h =
      elim (Bool-cases (any (is_step rid index) st.steps)) [
        | inr e ↦ rw e h
        | inl e ↦ rw e (set-KeysSound rid index status _ _ h)
      ]

-- A write of the tables, at the time of its first argument.
pub data Write : Type 0 where
  plan : ℕ → NewRun → List NewStep → Write
  attach : ℕ → String → String → NewEvidence → Write
  update : ℕ → String → ℕ → String → String → Write

unfoldable pub write : Boundary → Write → Store → Store
write b (plan now run steps) st = record_workflow_run b now run steps st
write b (attach now rid kind ev) st = (record_workflow_evidence b now rid kind ev st).1
write b (update now rid index status ev) st = (update_workflow_step b now rid index status ev st).1

unfoldable pub write_all : Boundary → List Write → Store → Store
unfolding write
write_all b [] st = st
write_all b (w ∷ ws) st = write_all b ws (write b w st)

write-KeysSound : (b : Boundary) (w : Write) (st : Store) → KeysSound st → KeysSound (write b w st)
unfolding write
write-KeysSound b (plan now run steps) st h = record_workflow_run-KeysSound b now st run steps h
write-KeysSound b (attach now rid kind ev) st h =
    record_workflow_evidence-KeysSound b now st rid kind ev h
write-KeysSound b (update now rid index status ev) st h =
    update_workflow_step-KeysSound b now st rid index status ev h

-- After any sequence of writes, in any order and successful or not, that starts from tables whose
-- steps and evidence refer to stored runs (as empty ones do), they still do.
pub write_all-KeysSound :
    (b : Boundary) (ws : List Write) (st : Store) → KeysSound st → KeysSound (write_all b ws st)
unfolding write_all
write_all-KeysSound b [] st h = h
write_all-KeysSound b (w ∷ ws) st h =
    write_all-KeysSound b ws (write b w st) (write-KeysSound b w st h)
