-- ===== src/Gateway/Recording.antt =====
-- What core/orchestration/continuity.py reads after core/tools/gateway.py has recorded a result.
use Prim.Native.String.{◌++◌ as ◌+++◌}
use text.Mathlib.TextLemmas.{append-eq-nil_iff}
use elite_reasoning_mcp.Prelude.{
  ℕ, ◌≤◌, String, ◌≡◌, refl, ap, ◌∙◌, true, false, inl, inr, some, List, [], ◌∷◌, arith, All, any,
  first, Bool-cases, Option-cases, str_eq, str_eq_iff, is_empty,
}
use elite_reasoning_mcp.Workflow.{
  Boundary, NewEvidence, Run, Step, Evidence, Store, has_run, evidence_row, get_workflow_run,
  record_workflow_evidence, list_workflow_evidence,
}
use elite_reasoning_mcp.Workflow.Records.{recorded_rows, list-record_workflow_evidence}
use elite_reasoning_mcp.Continuity.{continuation, next_continuation}

pub has_run-get :
    (b : Boundary) (rid : String) (st : Store) (run : Run) (steps : List Step)
    → get_workflow_run b rid st ≡ some (run, steps)
    → has_run rid st ≡ true
unfolding get_workflow_run
has_run-get b rid st run steps h =
    found st.runs (elim (Option-cases (first (λ (r : Run). str_eq r.run_id rid) st.runs)) [
      | inl e ↦ absurd (ground arith)
      | inr (r, e) ↦ (r, e)
    ])
  where
    found :
        (runs : List Run)
        → (r : Run) × (first (λ (r : Run). str_eq r.run_id rid) runs ≡ some r)
        → any (λ (r : Run). str_eq r.run_id rid) runs ≡ true
    found [] (r, e) = absurd (ground arith)
    found (x ∷ runs) (r, e) = elim (Bool-cases (str_eq x.run_id rid)) [
      | inl k ↦ rw k refl
      | inr k ↦ rw k (found runs (r, rw k at e))
    ]

next-stored :
    (b : Boundary) (rid : String) (st : Store) (run : Run) (steps : List Step)
    → get_workflow_run b rid st ≡ some (run, steps)
    → next_continuation b st rid
      ≡ continuation rid run.task_contract (list_workflow_evidence rid "" 200 st)
unfolding next_continuation
next-stored b rid st run steps g = rw (g, next_continuation) refl

get-evidence :
    (b : Boundary) (rid : String) (st : Store) (evidence : List Evidence)
    → get_workflow_run b rid (record st { evidence = evidence }) ≡ get_workflow_run b rid st
unfolding get_workflow_run
get-evidence b rid st evidence = refl

-- After a record was written, the next directive reads it first.
pub next-recorded :
    (b : Boundary) (now : ℕ) (rid kind : String) (ev : NewEvidence) (st : Store) (run : Run)
    (steps : List Step)
    → is_empty rid ≡ false
    → is_empty ev.id ≡ false
    → get_workflow_run b rid st ≡ some (run, steps)
    → All (λ (e : Evidence). e.created_at ≤ now) st.evidence
    → (rest : List Evidence) × (next_continuation b
          (record_workflow_evidence b now rid kind ev st).1
          rid
        ≡ continuation rid run.task_contract (evidence_row b now rid kind ev ∷ rest))
next-recorded b now rid kind ev st run steps r i g past =
    let here = has_run-get b rid st run steps g in
    let (rest, e) = list-record_workflow_evidence b now rid kind ev st "" 200 r i here past refl in
    let read : get_workflow_run b rid (record_workflow_evidence b now rid kind ev st).1
        ≡ some (run, steps) =
      rw (recorded_rows b now rid kind ev st r i here) (get-evidence b rid st _ ∙ g) in
    (
      rest,
      next-stored b rid (record_workflow_evidence b now rid kind ev st).1 run steps read
          ∙ ap (continuation rid run.task_contract) e,
    )

pub ev_id : (s : String) → is_empty ("ev_" +++ s) ≡ false
ev_id s = elim (Bool-cases (is_empty ("ev_" +++ s))) [
  | inr e ↦ e
  | inl e ↦
      let nil : (◌≡◌ {A = String} "ev_" "") × (s ≡ "") =
        append-eq-nil_iff.0 ((str_eq_iff ("ev_" +++ s) "").0 e) in
      let k = (str_eq_iff "ev_" "").1 nil.0 in absurd (ground (arith, k))
]
