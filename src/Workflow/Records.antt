-- ===== src/Workflow/Records.antt =====
-- What `record_workflow_evidence` and `list_workflow_evidence` of core/memory/persistent_store.py
-- promise each other.
use elite_reasoning_mcp.Prelude.{
  ℕ, suc, ◌≤◌, String, ◌≡◌, ◌≢◌, true, false, not, inl, inr, List, ◌∷◌, arith, if◌then◌else◌,
  str_eq, str_eq_iff, str_eq_refl, is_empty, keep, All, Bool-cases, keep-keep, All-keep,
  All-keep_self, All-imp, take, All-take, length, length-take-le,
}
use Prim.Native.Nat.{◌-◌}
use elite_reasoning_mcp.Prelude.Sort.{sort_by, sort_by-cons, All-sort_by}
use elite_reasoning_mcp.Workflow.{
  Boundary, NewEvidence, Evidence, Store, has_run, evidence_row, same_key, put_evidence, newer,
  bounded, selects, record_workflow_evidence, list_workflow_evidence,
}

-- The list is bounded and holds only evidence of the run, and of the kind that was asked for.
pub list_workflow_evidence_sound :
    (rid kind : String) (limit : ℕ) (st : Store)
    → (length (list_workflow_evidence rid kind limit st) ≤ 200)
      × All (λ (e : Evidence). selects rid kind e ≡ true) (list_workflow_evidence rid kind limit st)
unfolding list_workflow_evidence
list_workflow_evidence_sound rid kind limit st =
    let rows = sort_by newer (keep (selects rid kind) st.evidence) in
    (
      omega (arith, length-take-le (bounded 200 50 limit) rows),
      All-take _ (bounded 200 50 limit) rows (
          All-sort_by newer (λ (e : Evidence). selects rid kind e ≡ true)
            (keep (selects rid kind) st.evidence) (All-keep_self (selects rid kind) st.evidence)),
    )

bounded_pos : (limit : ℕ) → bounded 200 50 limit ≡ suc (bounded 200 50 limit - 1)
bounded_pos limit = omega arith

-- What an insertion in front does to a listing, if the new row is selected and newest.
list_newest :
    (rid wanted : String) (m n : ℕ) (e : Evidence) (rows : List Evidence)
    → m ≡ suc n
    → selects rid wanted e ≡ true
    → All (λ (x : Evidence). x.created_at ≤ e.created_at) rows
    → take m (sort_by newer (keep (selects rid wanted) (e ∷ rows)))
      ≡ e ∷ take n (sort_by newer (keep (selects rid wanted) rows))
list_newest rid wanted m n e rows count s past =
    rw (count, s)
      (rw (
        sort_by-cons newer e (keep (selects rid wanted) rows) (
          All-keep (λ (y : Evidence). newer e y ≡ true) (selects rid wanted) rows
            (All-imp _ (λ (y : Evidence). newer e y ≡ true) rows (λ y h. ground arith) past))))

keep-put_evidence_ne :
    (q wanted : String) (e : Evidence) (rows : List Evidence)
    → e.run_id ≢ q
    → keep (selects q wanted) (put_evidence e rows) ≡ keep (selects q wanted) rows
unfolding put_evidence
keep-put_evidence_ne q wanted e rows ne =
    rw (other_run e ne)
      (keep-keep (λ (x : Evidence). not (same_key x e)) (selects q wanted) rows (λ x h. apart x h))
  where
    other_run : (x : Evidence) → x.run_id ≢ q → selects q wanted x ≡ false
    other_run x d = ground (arith, str_eq_iff x.run_id q)

    apart : (x : Evidence) → selects q wanted x ≡ true → not (same_key x e) ≡ true
    apart x h = ground (arith, str_eq_iff x.run_id q, str_eq_iff x.run_id e.run_id)

module _ (b : Boundary) (now : ℕ) (rid kind : String) (ev : NewEvidence) (st : Store) where
  pub recorded_rows :
      is_empty rid ≡ false
      → is_empty ev.id ≡ false
      → has_run rid st ≡ true
      → record_workflow_evidence b now rid kind ev st
        ≡ (true, record st { evidence = put_evidence (evidence_row b now rid kind ev) st.evidence })
  unfolding record_workflow_evidence
  recorded_rows r i h = rw r (rw i (rw h))

  stored :
      (record_workflow_evidence b now rid kind ev st).0 ≡ true
      → (record_workflow_evidence b now rid kind ev st).1.evidence
        ≡ put_evidence (evidence_row b now rid kind ev) st.evidence
  unfolding record_workflow_evidence
  stored h = ground arith

  unchanged :
      (record_workflow_evidence b now rid kind ev st).0 ≡ false
      → (record_workflow_evidence b now rid kind ev st).1 ≡ st
  unfolding record_workflow_evidence
  unchanged h = ground arith

  -- If the run exists and neither id is empty, and no stored evidence is dated later than now, the
  -- record that was just written is the first of the list, among all kinds and among its own.
  pub list-record_workflow_evidence :
      (wanted : String) (limit : ℕ)
      → is_empty rid ≡ false
      → is_empty ev.id ≡ false
      → has_run rid st ≡ true
      → All (λ (e : Evidence). e.created_at ≤ now) st.evidence
      → (if is_empty wanted then true else str_eq kind wanted) ≡ true
      → (rest : List Evidence) × (list_workflow_evidence rid wanted limit
            (record_workflow_evidence b now rid kind ev st).1
          ≡ evidence_row b now rid kind ev ∷ rest)
  list-record_workflow_evidence wanted limit r i h past w =
      let kept =
        keep (λ (x : Evidence). not (same_key x (evidence_row b now rid kind ev))) st.evidence in
      (
        take (bounded 200 50 limit - 1) (sort_by newer (keep (selects rid wanted) kept)),
        rw (recorded_rows r i h) (
            unfold list_workflow_evidence put_evidence in
            (list_newest rid wanted (bounded 200 50 limit) (bounded 200 50 limit - 1)
              (evidence_row b now rid kind ev) kept (bounded_pos limit)
              (unfold evidence_row in rw (str_eq_refl rid) w)
              (All-keep _ (λ (x : Evidence). not (same_key x (evidence_row b now rid kind ev)))
                st.evidence (unfold evidence_row in past)))),
      )

  -- Recording evidence for one run does not change what is listed for another.
  pub list-record_workflow_evidence_ne :
      (q wanted : String) (limit : ℕ)
      → rid ≢ q
      → list_workflow_evidence q wanted limit (record_workflow_evidence b now rid kind ev st).1
        ≡ list_workflow_evidence q wanted limit st
  unfolding list_workflow_evidence
  list-record_workflow_evidence_ne q wanted limit ne =
      elim (Bool-cases (record_workflow_evidence b now rid kind ev st).0) [
        | inl e ↦ rw (stored e) (
            rw (
              keep-put_evidence_ne q wanted (evidence_row b now rid kind ev) st.evidence
                (unfold evidence_row in ne)))
        | inr e ↦ rw (unchanged e)
      ]
