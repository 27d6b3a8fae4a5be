-- ===== src/Registry/Results.antt =====
-- When `verify_requirement` of core/verification/registry.py answers with a pass.
use elite_reasoning_mcp.Prelude.{
  String, ◌≡◌, refl, ◌∙◌, ap, ◌⊎◌, inl, inr, Option, none, some, List, arith, Option-cases,
  Sum-cases,
}
use elite_reasoning_mcp.Verification.{pass, unknown}
use elite_reasoning_mcp.Registry.{
  Requirement, PluginEvidence, VerificationResult, Verifier, Registry, RegisterError,
  ensure_builtins, find_verifier, check, verify_requirement,
}

-- The verifier that the registry finds for the requirement returned the result by itself.
pub record Vouched (requirement : Requirement) (content : String) (evidence : List PluginEvidence)
    (found : Option Verifier) (result : VerificationResult) : Type 0 where
  pub verifier : Verifier
  pub is_found : found ≡ some verifier
  pub answers : verifier.verify requirement content evidence ≡ some result

check-Vouched :
    (requirement : Requirement) (content : String) (evidence : List PluginEvidence)
    (found : Option Verifier)
    → (check requirement content evidence found).status ≡ pass
    → Vouched requirement content evidence found (check requirement content evidence found)
unfolding check
check-Vouched requirement content evidence none h = absurd (ground arith)
check-Vouched requirement content evidence (some v) h =
    elim (Option-cases (v.verify requirement content evidence)) [
      | inl e ↦ let k : unknown ≡ pass = rw (e, check) at h in absurd (ground arith)
      | inr (result, e) ↦ rw (e, check) (record { verifier = v; is_found = refl; answers = e })
    ]

inr_injective :
    {x y : Registry × VerificationResult}
    → ◌≡◌ {A = RegisterError ⊎ (Registry × VerificationResult)} (inr x) (inr y)
    → x ≡ y
inr_injective {x} h = ap (λ o. elim o [ inl e ↦ x | inr z ↦ z ]) h

-- A requirement passes only if the verifier that is found for it, once the built-in ones are
-- registered, returned that result: an unregistered verifier and one that raises never pass.
pub verify_requirement-Vouched :
    (builtins : List Verifier) (requirement : Requirement) (content : String)
    (evidence : List PluginEvidence) (r s : Registry) (result : VerificationResult)
    → verify_requirement builtins requirement content evidence r ≡ inr (s, result)
    → result.status ≡ pass
    → Vouched requirement content evidence (find_verifier requirement s) result
unfolding verify_requirement
verify_requirement-Vouched builtins requirement content evidence r s result h p =
    elim (Sum-cases (ensure_builtins builtins r)) [
      | inl (error, e) ↦
          let k : ◌≡◌ {A = RegisterError ⊎ (Registry × VerificationResult)} (inl error)
              (inr (s, result)) =
            rw (e, verify_requirement) at h in
          absurd (ground arith)
      | inr (loaded, e) ↦
          let k : ◌≡◌ {A = RegisterError ⊎ (Registry × VerificationResult)}
              (inr (loaded, check requirement content evidence (find_verifier requirement loaded)))
              (inr (s, result)) =
            rw (e, verify_requirement) at h in
          let both : (loaded, check requirement content evidence (find_verifier requirement loaded))
              ≡ (s, result) =
            inr_injective k in
          let same_registry : loaded ≡ s = ap (λ x. x.0) both in
          let same_result : check requirement content evidence (find_verifier requirement loaded)
              ≡ result =
            ap (λ x. x.1) both in
          rw (← same_registry, ← same_result)
            (check-Vouched requirement content evidence (find_verifier requirement loaded)
              (ap (λ (x : VerificationResult). x.status) same_result ∙ p))
    ]
