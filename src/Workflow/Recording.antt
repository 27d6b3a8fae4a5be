-- ===== src/Workflow/Recording.antt =====
-- `record_workflow_run` of core/memory/persistent_store.py: the numbered steps, the status, and
-- what replacing a run deletes.
use elite_reasoning_mcp.Prelude.{
  ℕ, zero, suc, ◌≤◌, String, ◌≡◌, inl, inr, refl, ap, ◌∙◌, Bool, true, false, not, List, [], ◌∷◌,
  map, arith, leb, if◌then◌else◌, str_eq, str_eq_iff, str_eq_refl, keep, All, Bool-cases,
  keep-append, keep-keep, All-keep, All-keep_self, All-imp₂, take,
}
use mathlib.Core.List.{append-nil}
use elite_reasoning_mcp.Prelude.Sort.{sort_by, sort_by-cons}
use elite_reasoning_mcp.Workflow.{
  Boundary, Run, NewRun, Step, NewStep, Evidence, Store, get_or, step_row, step_rows,
  record_workflow_run, step_le, steps_of, workflow_status, statuses_of, list_workflow_evidence,
  selects, newer, bounded,
}
use elite_reasoning_mcp.Workflow.Status.{StatusSound, of_run}

abbrev given_statuses : List NewStep → List String
given_statuses steps = map (λ (s : NewStep). get_or s.status "pending") steps

module _ (b : Boundary) (now : ℕ) (rid : String) where
  rows-after :
      (i j : ℕ) (steps : List NewStep)
      → i ≤ j
      → All (λ (s : Step). leb i s.step_index ≡ true) (step_rows b now rid j steps)
  unfolding step_rows
  rows-after i j [] h = tt
  rows-after i j (s ∷ steps) h = (ground arith, rows-after i (suc j) steps (omega arith))

  rows_sorted :
      (i : ℕ) (steps : List NewStep)
      → sort_by step_le (step_rows b now rid i steps) ≡ step_rows b now rid i steps
  unfolding step_rows
  rows_sorted i [] = unfold sort_by in refl
  rows_sorted i (s ∷ steps) =
      sort_by-cons step_le (step_row b now rid i s) (step_rows b now rid (suc i) steps)
        (rows-after i (suc i) steps (omega arith))
      ∙ ap (◌∷◌ (step_row b now rid i s)) (rows_sorted (suc i) steps)

  rows-statuses :
      (i : ℕ) (steps : List NewStep)
      → map (λ (s : Step). s.status) (step_rows b now rid i steps) ≡ given_statuses steps
  unfolding step_rows
  rows-statuses i [] = refl
  rows-statuses i (s ∷ steps) = ap (◌∷◌ (get_or s.status "pending")) (rows-statuses (suc i) steps)

  rows-of_run :
      (q : String) (i : ℕ) (steps : List NewStep)
      → keep (of_run q) (step_rows b now rid i steps)
        ≡ (if str_eq rid q then step_rows b now rid i steps else [])
  unfolding step_rows
  rows-of_run q i [] = ground arith
  rows-of_run q i (s ∷ steps) = ground (arith, rows-of_run q (suc i) steps)

  -- The steps of any run, in a table from which those of `rid` were dropped.
  steps_kept :
      (q : String) (steps : List Step)
      → keep (of_run q) (keep (λ (s : Step). not (str_eq s.run_id rid)) steps)
        ≡ (if str_eq rid q then [] else keep (of_run q) steps)
  steps_kept q [] = ground arith
  steps_kept q (s ∷ steps) =
      ground (
        arith,
        str_eq_iff s.run_id rid,
        str_eq_iff s.run_id q,
        str_eq_iff rid q,
        steps_kept q steps,
      )

take-nil : (n : ℕ) → take n (sort_by newer []) ≡ []
unfolding sort_by
take-nil zero = refl
take-nil (suc n) = refl

module _ (b : Boundary) (now : ℕ) (run : NewRun) (steps : List NewStep) (st : Store) where
  -- What the steps table holds for any run, after `run` was recorded.
  recorded_steps :
      (q : String)
      → keep (of_run q) (record_workflow_run b now run steps st).steps ≡ (
          if str_eq run.run_id q
          then step_rows b now run.run_id 1 steps
          else keep (of_run q) st.steps)
  unfolding record_workflow_run
  recorded_steps q = rw (keep-append (of_run q)) (
      rw (keep-keep gone gone st.steps (λ s h. h)) (
        rw (steps_kept b now run.run_id q st.steps) (
          rw (rows-of_run b now run.run_id q 1 steps) (elim (Bool-cases (str_eq run.run_id q)) [
            | inl e ↦ rw e
            | inr e ↦ rw e (append-nil (keep (of_run q) st.steps))
          ]))))
    where
      gone : Step → Bool
      gone s = not (str_eq s.run_id run.run_id)

  recorded_statuses :
      (q : String)
      → statuses_of q (record_workflow_run b now run steps st)
        ≡ (if str_eq run.run_id q then given_statuses steps else statuses_of q st)
  unfolding steps_of
  recorded_statuses q = rw (recorded_steps q) (elim (Bool-cases (str_eq run.run_id q)) [
    | inl e ↦
        rw e (rw (rows_sorted b now run.run_id 1 steps) (rows-statuses b now run.run_id 1 steps))
    | inr e ↦ rw e
  ])

  swapped : (q : String) → not (str_eq q run.run_id) ≡ true → str_eq run.run_id q ≡ false
  swapped q h = ground (arith, str_eq_iff q run.run_id, str_eq_iff run.run_id q)

  -- If the run is recorded with the status computed from its steps (as `planned` is, for a plan
  -- whose steps are all pending), each stored status is still the computed one.
  pub record_workflow_run-StatusSound :
      get_or run.status "planned" ≡ workflow_status (given_statuses steps)
      → StatusSound st
      → StatusSound (record_workflow_run b now run steps st)
  record_workflow_run-StatusSound given h =
      unfold record_workflow_run in
      (
        rw (recorded_statuses run.run_id) (rw (str_eq_refl run.run_id) given),
        All-imp₂ (λ (r : Run). r.status ≡ workflow_status (statuses_of r.run_id st))
            (λ (r : Run). not (str_eq r.run_id run.run_id) ≡ true)
            (λ (r : Run).
              r.status
              ≡ workflow_status (statuses_of r.run_id (record_workflow_run b now run steps st)))
            (keep (λ (r : Run). not (str_eq r.run_id run.run_id)) st.runs)
            (λ r sound other. rw (recorded_statuses r.run_id) (rw (swapped r.run_id other) sound))
            (All-keep _ (λ (r : Run). not (str_eq r.run_id run.run_id)) st.runs h)
            (All-keep_self (λ (r : Run). not (str_eq r.run_id run.run_id)) st.runs),
      )

  selects-kept :
      (kind : String) (rows : List Evidence)
      → keep
          (selects run.run_id kind)
          (keep (λ (e : Evidence). not (str_eq e.run_id run.run_id)) rows)
        ≡ []
  selects-kept kind [] = refl
  selects-kept kind (e ∷ rows) = ground (arith, selects-kept kind rows)

  -- Recording a run under an id deletes all the evidence that was attached to that id (the row is
  -- replaced, and the deletion cascades), for every kind of check and every limit.
  pub list-record_workflow_run :
      (kind : String) (limit : ℕ)
      → list_workflow_evidence run.run_id kind limit (record_workflow_run b now run steps st) ≡ []
  unfolding list_workflow_evidence record_workflow_run
  list-record_workflow_run kind limit =
      rw (selects-kept kind st.evidence) (take-nil (bounded 200 50 limit))
