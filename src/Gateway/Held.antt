-- ===== src/Gateway/Held.antt =====
-- A failed outcome gate, asked for through elite_verify of core/tools/gateway.py.
use mathlib.Core.Path.{subst}
use elite_reasoning_mcp.Prelude.{
  ℕ, ◌≤◌, String, ◌≡◌, refl, sym, ap, ◌∙◌, Bool, true, false, ◌||◌, ◌⊎◌, inl, inr, some, List,
  arith, All, str_eq, is_empty, is_blank, strip, elem, take_chars,
}
use elite_reasoning_mcp.Prelude.Nil.{is_nil}
use elite_reasoning_mcp.Verification.{fail, value, status_from_bool}
use elite_reasoning_mcp.Workflow.{
  Payload, Run, Step, Evidence, Store, evidence_row, get_workflow_run, record_workflow_evidence,
}
use elite_reasoning_mcp.Workflow.Records.{recorded_rows}
use elite_reasoning_mcp.Continuity.{ContinuationDirective, next_continuation}
use elite_reasoning_mcp.GitDiff.{Git}
use elite_reasoning_mcp.Gate.{Outcome, gate_unmet, gate_outcomes}
use elite_reasoning_mcp.Gate.Unmet.{gate_outcomes-unmet}
use elite_reasoning_mcp.Gate.Held.{IsFailure, unmet_gate_stops}
use elite_reasoning_mcp.Playbook.{verify_outcomes}
use elite_reasoning_mcp.Verifiers.{
  VerifierRequest, VerificationExecution, Answer, host_of, contract_from_dict, outcome_execution,
  verify_outcome,
}
use elite_reasoning_mcp.Verifiers.Contracts.{
  IsWritten, fallback_of, contract_from_dict-AsksAlike, resolve_contract-stored,
}
use elite_reasoning_mcp.Gateway.Recording.{has_run-get, next-recorded, ev_id}
use elite_reasoning_mcp.Gateway.{
  Gateway, GatewayError, VerifyResult, run_verifier, evidence_record, checked_result,
  persist_checked_result, with_continuation, conclude_check, verify_check,
}

-- The answer is a failure whose directive holds the final response back.
abbrev pub IsHeld : GatewayError ⊎ VerifyResult → Type 0
IsHeld (inl e) = ⊥
IsHeld (inr result) =
    (result.verification_status ≡ fail)
    × ((d : ContinuationDirective) × (result.continuation ≡ some d)
        × (d.stop_final_response ≡ true))

-- What the outcome check puts into the record of an outcome.
abbrev pub refused_payload : Outcome → Payload
refused_payload outcome = record {
  executed = false;
  repository_snapshot_digest = "";
  unmet = outcome.unmet;
}

module _ (gw : Gateway) (now : ℕ) (git : Git) (st : Store) (request : VerifierRequest) where
  module _ (run : Run) (steps : List Step) where
    abbrev pub gated : Outcome
    gated =
        let contract =
          contract_from_dict gw.server.compile run.task_contract
            (fallback_of request run.task_contract) in
        gate_outcomes (host_of gw.server git) contract st request.run_id request.project_root
          (verify_outcomes gw.server.python request.draft contract)

    answered :
        is_blank request.run_id ≡ false
        → is_blank request.draft ≡ false
        → get_workflow_run gw.server.boundary (strip request.run_id) st ≡ some (run, steps)
        → verify_outcome gw.server git request st ≡ inr (outcome_execution request gated)
    unfolding verify_outcome
    answered r d g = rw d (rw (resolve_contract-stored gw.server request st run steps r g) refl)

    verified :
        (a : Answer)
        → request.check ≡ "outcomes"
        → verify_outcome gw.server git request st ≡ a
        → (verify_check gw now git st request).reply ≡ (conclude_check gw now st request.run_id a).0
    unfolding verify_check run_verifier
    verified a k e =
        let first_name : str_eq request.check "constraints" ≡ false = rw k refl in
        let second_name : str_eq request.check "outcomes" ≡ true = rw k refl in
        rw (first_name, second_name) (rw e refl)

    persisted :
        (result : VerifyResult)
        → is_blank request.run_id ≡ false
        → is_empty result.evidence.id ≡ false
        → get_workflow_run gw.server.boundary (strip request.run_id) st ≡ some (run, steps)
        → persist_checked_result gw now st request.run_id result ≡ (
          inr result,
          (record_workflow_evidence gw.server.boundary now
              (strip request.run_id)
              result.check
              result.evidence
              st).1,
        )
    unfolding persist_checked_result
    persisted result r i g =
        let here = has_run-get gw.server.boundary (strip request.run_id) st run steps g in
        let named : is_empty (strip request.run_id) ≡ false = unfold is_blank in r in
        let stored =
          recorded_rows gw.server.boundary now (strip request.run_id) result.check result.evidence
            st named i here in
        rw (r, g, stored) refl

    concluded :
        (result : VerifyResult) (after : Store)
        → is_blank request.run_id ≡ false
        → with_continuation gw request.run_id (inr result, after)
          ≡ inr (record result {
            continuation = some (next_continuation gw.server.boundary after (strip request.run_id));
          })
    unfolding with_continuation
    concluded result after r = rw r refl

    evidence_id :
        (x : VerificationExecution) → is_empty (checked_result gw now x).evidence.id ≡ false
    unfolding checked_result evidence_record
    evidence_id x = ev_id (
        take_chars 20 (
          gw.artifact_hex x.check x.producer (gw.server.subject_digest x.subject_kind x.subject)
            x.payload))

    -- What the call of the gateway answers, and the record that it leaves.
    replied :
        request.check ≡ "outcomes"
        → is_blank request.run_id ≡ false
        → is_blank request.draft ≡ false
        → get_workflow_run gw.server.boundary (strip request.run_id) st ≡ some (run, steps)
        → (verify_check gw now git st request).reply
          ≡ inr (record (checked_result gw now (outcome_execution request gated)) {
            continuation = some (
                next_continuation gw.server.boundary
                  (record_workflow_evidence gw.server.boundary now
                    (strip request.run_id)
                    (checked_result gw now (outcome_execution request gated)).check
                    (checked_result gw now (outcome_execution request gated)).evidence
                    st).1
                  (strip request.run_id));
          })
    unfolding conclude_check
    replied k r d g =
        let x = outcome_execution request gated in
        let result = checked_result gw now x in
        verified (inr x) k (answered r d g)
        ∙ ap (with_continuation gw request.run_id) (persisted result r (evidence_id x) g)
        ∙ concluded result
            (record_workflow_evidence gw.server.boundary now (strip request.run_id) result.check
              result.evidence st).1
            r

    IsFailure-row :
        gated.passed ≡ false
        → IsFailure (
            evidence_row gw.server.boundary now
              (strip request.run_id)
              (checked_result gw now (outcome_execution request gated)).check
              (checked_result gw now (outcome_execution request gated)).evidence)
    unfolding evidence_row checked_result evidence_record value
    IsFailure-row p = record { kind = refl; failed = rw p refl }

    listed_row :
        (gw.server.boundary.stored_payload (refused_payload gated)).unmet ≡ gated.unmet
        → (evidence_row gw.server.boundary now
            (strip request.run_id)
            (checked_result gw now (outcome_execution request gated)).check
            (checked_result gw now (outcome_execution request gated)).evidence).payload.unmet
          ≡ gated.unmet
    unfolding evidence_row checked_result evidence_record
    listed_row keeps = keeps

    failed_status :
        gated.passed ≡ false
        → (checked_result gw now (outcome_execution request gated)).verification_status ≡ fail
    unfolding checked_result
    failed_status p = ap status_from_bool p

  -- An outcome check of a stored run, whose contract is written out, by a gate that leaves a check of
  -- the repository unmet, answers FAIL, and its directive holds the final response back; if no stored
  -- evidence is dated later than now, and the list that this check leaves unmet comes back from the
  -- database as it was: it is not cut off at 10000 characters, and nothing in it is redacted.
  pub failed_gate-IsHeld :
      (run : Run) (steps : List Step)
      → request.check ≡ "outcomes"
      → is_blank request.run_id ≡ false
      → is_blank request.draft ≡ false
      → get_workflow_run gw.server.boundary (strip request.run_id) st ≡ some (run, steps)
      → IsWritten run.task_contract
      → All (λ (e : Evidence). e.created_at ≤ now) st.evidence
      → (gw.server.boundary.stored_payload (refused_payload (gated run steps))).unmet
        ≡ (gated run steps).unmet
      → is_nil (
          gate_unmet
            (host_of gw.server git)
            (contract_from_dict gw.server.compile run.task_contract
              (fallback_of request run.task_contract))
            st
            request.run_id
            request.project_root)
        ≡ false
      → IsHeld (verify_check gw now git st request).reply
  failed_gate-IsHeld run steps k r d g w past keeps u =
      let x = outcome_execution request (gated run steps) in
      let result = checked_result gw now x in
      let b = gw.server.boundary in
      let sid = strip request.run_id in
      let after = (record_workflow_evidence b now sid result.check result.evidence st).1 in
      let named : is_empty sid ≡ false = unfold is_blank in r in
      let (rest, next) =
        next-recorded b now sid result.check result.evidence st run steps named
          (evidence_id run steps x) g past in
      let host = host_of gw.server git in
      let contract =
        contract_from_dict gw.server.compile run.task_contract
          (fallback_of request run.task_contract) in
      let draft = verify_outcomes gw.server.python request.draft contract in
      let judged =
        gate_outcomes-unmet host contract st request.run_id request.project_root draft r u in
      let lists =
        λ (s : String)
            (h : elem s (gate_unmet host contract st request.run_id request.project_root) ≡ true).
          ap (elem s) (listed_row run steps keeps) ∙ judged.2 s ∙ or_right (elem s draft.unmet) h in
      let stops =
        unmet_gate_stops host contract st request.run_id request.project_root sid run.task_contract
          (evidence_row b now sid result.check result.evidence) rest
          (contract_from_dict-AsksAlike gw.server.compile run.task_contract
            (fallback_of request run.task_contract) w)
          (IsFailure-row run steps judged.0) u lists in
      subst IsHeld (sym (replied run steps k r d g)) (
        failed_status run steps judged.0,
        (
          next_continuation b after sid,
          refl,
          ap (λ (c : ContinuationDirective). c.stop_final_response) next ∙ stops,
        ),
      )
    where
      or_right : (p : Bool) {q : Bool} → q ≡ true → (p || q) ≡ true
      or_right p {q} h = ground arith
