-- ===== src/Gate/Recorded.antt =====
-- What the outcome gate of core/verification/registry.py makes of a record that was just written.
use elite_reasoning_mcp.Prelude.{
  ℕ, ◌≤◌, String, ◌≡◌, refl, Bool, true, false, List, [], ◌∷◌, All, is_empty, is_blank, strip,
  first, str_eq_iff, some,
}
use elite_reasoning_mcp.Workflow.{
  Boundary, NewEvidence, Contract, Evidence, Store, has_run, evidence_row, record_workflow_evidence,
}
use elite_reasoning_mcp.Workflow.Records.{list-record_workflow_evidence}
use elite_reasoning_mcp.Continuity.{has_kind}
use elite_reasoning_mcp.Gate.{
  Host, repository_snapshot, has_run_and_passed, tests_finding, tests_of, gate_tests,
}

-- Passing tests, executed in the present state of a readable repository.
pub record IsProof (b : Boundary) (host : Host) (project_root : String) (ev : NewEvidence)
    : Type 0 where
  pub passed : ev.verification_status ≡ "PASS"
  pub executed : (b.stored_payload ev.payload).executed ≡ true
  pub bound : is_empty (b.stored_payload ev.payload).repository_snapshot_digest ≡ false
  pub readable : is_empty (repository_snapshot host project_root).limitation ≡ true
  pub current :
      (repository_snapshot host project_root).digest
      ≡ (b.stored_payload ev.payload).repository_snapshot_digest

module _ (b : Boundary) (host : Host) (project_root : String) (now : ℕ) (ev : NewEvidence) where
  first-proof :
      (rid : String) (rest : List Evidence)
      → IsProof b host project_root ev
      → first has_run_and_passed (evidence_row b now rid "tests" ev ∷ rest)
        ≡ some (evidence_row b now rid "tests" ev)
  unfolding evidence_row
  first-proof rid rest p = rw (p.passed, p.executed) refl

  tests_of-proof :
      (rid : String) (blank : Bool)
      → blank ≡ false
      → IsProof b host project_root ev
      → (tests_of blank
          (repository_snapshot host project_root)
          (evidence_row b now rid "tests" ev)).accepted
        ≡ ev.id ∷ []
  unfolding tests_of evidence_row
  tests_of-proof rid blank named p =
      let same = (str_eq_iff (repository_snapshot host project_root).digest _).1 p.current in
      rw (p.bound, named, p.readable, same) refl

  -- If the run exists, no stored evidence is dated later than now, and a repository is named,
  -- evidence of passing tests that were executed in its present state is accepted by the gate once
  -- it has been recorded.
  pub gate_tests-record :
      (contract : Contract) (st : Store) (run_id : String)
      → is_empty (strip run_id) ≡ false
      → is_empty ev.id ≡ false
      → has_run (strip run_id) st ≡ true
      → All (λ (e : Evidence). e.created_at ≤ now) st.evidence
      → is_blank project_root ≡ false
      → has_kind contract "run_tests" ≡ true
      → IsProof b host project_root ev
      → (gate_tests host contract
          (record_workflow_evidence b now (strip run_id) "tests" ev st).1
          run_id
          project_root).accepted
        ≡ ev.id ∷ []
  unfolding gate_tests tests_finding
  gate_tests-record contract st run_id r i h past named asked p =
      let (rest, e) =
        list-record_workflow_evidence b now (strip run_id) "tests" ev st "tests" 20 r i h past
          refl in
      rw (asked, e)
        (rw (first-proof (strip run_id) rest p)
          (tests_of-proof (strip run_id) (is_blank project_root) named p))
