-- ===== src/Gate/Checks.antt =====
-- When the checks of the outcome gate of core/verification/registry.py find nothing unmet in the
-- evidence that they are given.
use elite_reasoning_mcp.Prelude.{
  String, ◌≡◌, ◌↔◌, refl, Bool, true, false, Option, none, some, arith, str_eq_iff, is_empty,
}
use elite_reasoning_mcp.Prelude.Nil.{is_nil}
use elite_reasoning_mcp.Workflow.{Evidence}
use elite_reasoning_mcp.Gate.{snapshot_digest, Snapshot, syntax_of, tests_of, scope_of}

-- The repository is readable and its present state is the one that the evidence was taken in.
pub record IsCurrent (now : Snapshot) (e : Evidence) : Type 0 where
  pub bound : is_empty (snapshot_digest e) ≡ false
  pub readable : is_empty now.limitation ≡ true
  pub unchanged : now.digest ≡ snapshot_digest e

pub syntax_of-IsCurrent :
    (blank : Bool) (now : Snapshot) (e : Evidence)
    → (is_nil (syntax_of blank now e) ≡ true) ↔ (blank ≡ false → IsCurrent now e)
unfolding syntax_of
syntax_of-IsCurrent true now e = ((λ h k. absurd (ground arith)), (λ h. refl))
syntax_of-IsCurrent false now e =
    let q = str_eq_iff now.digest (snapshot_digest e) in
    (
      (λ h k. record {
        bound = ground arith;
        readable = ground arith;
        unchanged = q.0 (ground arith);
      }),
      (λ h. let c = h refl in let k = q.1 c.unchanged in ground (arith, c.readable, c.bound)),
    )

pub tests_of-IsCurrent :
    (blank : Bool) (now : Snapshot) (e : Evidence)
    → (is_nil (tests_of blank now e).unmet ≡ true) ↔ ((blank ≡ false) × IsCurrent now e)
unfolding tests_of
tests_of-IsCurrent blank now e =
    let q = str_eq_iff now.digest (snapshot_digest e) in
    (
      (λ h. (
        ground arith,
        record { bound = ground arith; readable = ground arith; unchanged = q.0 (ground arith) },
      )),
      (λ (b, c). let k = q.1 c.unchanged in ground (arith, c.readable, c.bound, b)),
    )

pub scope_of-some :
    (digest : String) (found : Option Evidence)
    → (is_nil (scope_of digest found) ≡ true)
      ↔ ((e : Evidence) × (found ≡ some e) × (e.subject_digest ≡ digest))
unfolding scope_of
scope_of-some digest none = ((λ h. absurd (ground arith)), (λ (e, h, k). absurd (ground arith)))
scope_of-some digest (some e) = (
  (λ h. (e, refl, (str_eq_iff e.subject_digest digest).0 (ground arith))),
  (λ (x, h, k). let q = (str_eq_iff x.subject_digest digest).1 k in ground arith),
)
