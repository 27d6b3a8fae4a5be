-- ===== src/Continuity/Failure.antt =====
-- What a failure of the outcome check does after the response was let go
-- (core/orchestration/continuity.py).
use elite_reasoning_mcp.Prelude.{
  String, ◌≡◌, refl, Bool, false, ◌||◌, List, [], ◌∷◌, arith, str_eq, str_eq_iff, starts_with, any,
}
use elite_reasoning_mcp.Workflow.{Contract, Evidence}
use elite_reasoning_mcp.Continuity.{failed_unmet, is_due, is_stale, continuation}

due-cons_failed :
    (e : Evidence) (evidence : List Evidence) (prefix check : String)
    → str_eq e.check_kind check ≡ false
    → any (λ item. starts_with item prefix) (failed_unmet (e ∷ evidence)) ≡ false
    → is_due evidence prefix check ≡ false
    → is_due (e ∷ evidence) prefix check ≡ false
unfolding is_stale is_due
due-cons_failed e evidence prefix check k a d = ground arith

any_or {ℓ} :
    {A : Type ℓ} (p q r : A → Bool) (xs : List A)
    → any (λ x. p x || q x || r x) xs ≡ false
    → (any p xs ≡ false) × (any q xs ≡ false) × (any r xs ≡ false)
any_or p q r [] h = (refl, refl, refl)
any_or p q r (x ∷ xs) h = ground (arith, any_or p q r xs)

pub failed_unmet-cons :
    (e : Evidence) (evidence : List Evidence)
    → e.check_kind ≡ "outcomes"
    → e.verification_status ≡ "FAIL"
    → failed_unmet (e ∷ evidence) ≡ e.payload.unmet
unfolding failed_unmet
failed_unmet-cons e evidence k s =
    ground (arith, str_eq_iff e.check_kind "outcomes", str_eq_iff e.verification_status "FAIL")

-- Once the final response may go, a later outcome check that fails on nothing but items other than
-- syntax, scope and tests does not hold it back: the older passing outcome still counts.
pub later_failure_ignored :
    (rid : String) (c : Contract) (evidence : List Evidence) (e : Evidence)
    → (continuation rid c evidence).stop_final_response ≡ false
    → e.check_kind ≡ "outcomes"
    → e.verification_status ≡ "FAIL"
    → any
        (λ item.
          starts_with item "syntax:"
          || starts_with item "scope_files:"
          || starts_with item "run_tests:")
        e.payload.unmet
      ≡ false
    → (continuation rid c (e ∷ evidence)).stop_final_response ≡ false
unfolding continuation
later_failure_ignored rid c evidence e h k s clear =
    let unmet : failed_unmet (e ∷ evidence) ≡ e.payload.unmet = failed_unmet-cons e evidence k s in
    let none_named =
      any_or (λ item. starts_with item "syntax:") (λ item. starts_with item "scope_files:")
        (λ item. starts_with item "run_tests:") e.payload.unmet clear in
    let failed : str_eq e.verification_status "PASS" ≡ false = rw s refl in
    ground (
      arith,
      due-cons_failed e evidence "syntax:" "syntax" (rw k refl) (rw unmet none_named.0),
      due-cons_failed e evidence "scope_files:" "diff" (rw k refl) (rw unmet none_named.1),
      due-cons_failed e evidence "run_tests:" "tests" (rw k refl) (rw unmet none_named.2),
    )
