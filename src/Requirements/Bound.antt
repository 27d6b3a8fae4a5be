-- ===== src/Requirements/Bound.antt =====
-- When the verifiers of contents and of evidence pass a requirement, as the registry asks them:
-- core/verification/constraints.py and completeness.py.
use elite_reasoning_mcp.Prelude.{
  ℕ, ◌≤◌, String, ◌≡◌, ◌↔◌, refl, Bool, true, false, not, ◌&&◌, ◌⊎◌, inl, inr, List, [], ◌∷◌, arith,
  All, All-imp, keep, length, ltb, ◌==◌, if◌then◌else◌, str_eq_iff, Bool-cases, contains, some,
}
use elite_reasoning_mcp.Prelude.Nil.{is_nil, is_nil-keep}
use elite_reasoning_mcp.Prelude.Text.{words}
use elite_reasoning_mcp.Verification.{pass, fail, not_checked}
use elite_reasoning_mcp.Registry.{Requirement, PluginEvidence, check}
use elite_reasoning_mcp.Requirements.{
  check_requirement, constraint_verifier, is_bound, check_evidence, completeness_verifier,
}

double_negative : (b : Bool) → (not b ≡ false) ↔ (b ≡ true)
double_negative b = ground arith

none_stale :
    (digest : String) (evidence : List PluginEvidence)
    → (is_nil (keep (λ ev. not (is_bound digest ev)) evidence) ≡ true)
      ↔ All (λ ev. ev.subject_digest ≡ digest) evidence
none_stale digest evidence =
    let nil = is_nil-keep (λ ev. not (is_bound digest ev)) evidence in
    (
      (λ h.
          All-imp (λ ev. not (is_bound digest ev) ≡ false) (λ ev. ev.subject_digest ≡ digest)
            evidence
            (λ ev k.
              (str_eq_iff ev.subject_digest digest).0 ((double_negative (is_bound digest ev)).0 k))
            (nil.0 h)),
      (λ h. nil.1 (
          All-imp (λ ev. ev.subject_digest ≡ digest) (λ ev. not (is_bound digest ev) ≡ false)
            evidence
            (λ ev k.
              (double_negative (is_bound digest ev)).1 ((str_eq_iff ev.subject_digest digest).1 k))
            h)),
    )

-- A requirement that the registry gives to the verifier of evidence passes exactly if there is evidence
-- and all of it carries the digest of the content that is checked: evidence about another content, also
-- next to evidence about this one, does not let it pass.
pub completeness_verifier-Bound :
    (sha256 : String → String) (requirement : Requirement) (content : String)
    (evidence : List PluginEvidence)
    → ((check requirement content evidence (some (completeness_verifier sha256))).status ≡ pass)
      ↔ ((is_nil evidence ≡ false) × All (λ ev. ev.subject_digest ≡ sha256 content) evidence)
unfolding check completeness_verifier check_evidence
completeness_verifier-Bound sha256 requirement content [] =
    ((λ h. absurd (ground (arith, h))), (λ h. absurd (ground (arith, h.0))))
completeness_verifier-Bound sha256 requirement content (ev ∷ evidence) =
    let stale = none_stale (sha256 content) (ev ∷ evidence) in
    elim (Bool-cases (is_nil (keep (λ e. not (is_bound (sha256 content) e)) (ev ∷ evidence)))) [
      | inl e ↦ rw e ((λ h. (refl, stale.0 e)), (λ h. refl))
      | inr e ↦
          rw e ((λ h. absurd (ground (arith, h))), (λ h. absurd (ground (arith, e, stale.1 h.1))))
    ]

abbrev pub of_kind : String → Requirement → Requirement
of_kind kind requirement = record requirement { kind = kind }

judged_pass : (b : Bool) → ((if b then pass else fail) ≡ pass) ↔ (b ≡ true)
judged_pass true = ((λ h. refl), (λ h. refl))
judged_pass false = ((λ h. absurd (ground (arith, h))), (λ h. absurd (ground (arith, h))))

within :
    (max_words count : ℕ)
    → (not (not (max_words == 0) && ltb max_words count) ≡ true)
      ↔ ((max_words ≡ 0) ⊎ (count ≤ max_words))
within max_words count = ground arith

none_missing :
    (content : String) (terms : List String)
    → (is_nil (keep (λ term. not (contains term content)) terms) ≡ true)
      ↔ All (λ term. contains term content ≡ true) terms
none_missing content terms =
    let nil = is_nil-keep (λ term. not (contains term content)) terms in
    (
      (λ h.
          All-imp (λ term. not (contains term content) ≡ false)
            (λ term. contains term content ≡ true) terms
            (λ term. (double_negative (contains term content)).0) (nil.0 h)),
      (λ h. nil.1 (
          All-imp (λ term. contains term content ≡ true)
            (λ term. not (contains term content) ≡ false) terms
            (λ term. (double_negative (contains term content)).1) h)),
    )

both_ways : {P Q R : Type 0} → P ↔ Q → Q ↔ R → P ↔ R
both_ways f g = ((λ p. g.0 (f.0 p)), (λ r. f.1 (g.1 r)))

-- Requirements that the registry gives to the verifier of constraints: required content passes exactly
-- if the content names each required term; forbidden content exactly if it names none of the
-- forbidden terms; a limit on words exactly if it is 0 or the content has no more words; and an output
-- format is never checked.
pub constraint_verifier-Met :
    (requirement : Requirement) (content : String) (evidence : List PluginEvidence)
    → (((check
            (of_kind "required_content" requirement)
            content
            evidence
            (some constraint_verifier)).status
          ≡ pass)
        ↔ All (λ term. contains term content ≡ true) requirement.verifier_parameters.required_terms)
      × (((check
              (of_kind "forbidden_content" requirement)
              content
              evidence
              (some constraint_verifier)).status
            ≡ pass)
          ↔ All
              (λ term. contains term content ≡ false)
              requirement.verifier_parameters.forbidden_terms)
      × (((check
              (of_kind "word_limit" requirement)
              content
              evidence
              (some constraint_verifier)).status
            ≡ pass)
          ↔ ((requirement.verifier_parameters.max_words ≡ 0)
              ⊎ (length (words content) ≤ requirement.verifier_parameters.max_words)))
      × ((check
            (of_kind "output_format" requirement)
            content
            evidence
            (some constraint_verifier)).status
          ≡ not_checked)
unfolding check constraint_verifier check_requirement
constraint_verifier-Met requirement content evidence =
    let params = requirement.verifier_parameters in
    (
      both_ways (judged_pass _) (none_missing content params.required_terms),
      both_ways (judged_pass _)
          (is_nil-keep (λ term. contains term content) params.forbidden_terms),
      both_ways (judged_pass _) (within params.max_words (length (words content))),
      refl,
    )
