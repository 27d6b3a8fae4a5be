-- ===== src/Verifiers/Contracts.antt =====
-- The contract that a check reads back from the store (`_resolve_contract` of
-- core/verification/registry.py) asks for the checks that the stored contract asks for.
use elite_reasoning_mcp.Prelude.{
  String, ◌≡◌, refl, true, false, inl, inr, some, List, [], ◌∷◌, map, arith, any, Bool-cases,
  str_eq, str_eq_iff, is_empty, is_blank, strip, elem,
}
use elite_reasoning_mcp.Prelude.Nil.{is_nil}
use elite_reasoning_mcp.Workflow.{Constraint, Contract, Run, Step, Store, text_or, get_workflow_run}
use elite_reasoning_mcp.Continuity.{is_code}
use elite_reasoning_mcp.Gate.Held.{AsksAlike}
use elite_reasoning_mcp.Verifiers.{
  Server, VerifierRequest, constraint_kinds, read_constraint, contract_from_dict, resolve_contract,
}

known_kind :
    (kind k : String)
    → elem k constraint_kinds ≡ true
    → elem kind constraint_kinds ≡ false
    → str_eq kind k ≡ false
known_kind kind k h n = elim (Bool-cases (str_eq kind k)) [
  | inr e ↦ e
  | inl e ↦
      let same : elem k constraint_kinds ≡ false = rw (← ((str_eq_iff kind k).0 e)) n in
      absurd (ground arith)
]

has_kind-read :
    (k : String) (cs : List Constraint)
    → elem k constraint_kinds ≡ true
    → str_eq "must_include" k ≡ false
    → any (λ (c : Constraint). str_eq c.kind k) (map read_constraint cs)
      ≡ any (λ (c : Constraint). str_eq c.kind k) cs
unfolding read_constraint
has_kind-read k [] h m = refl
has_kind-read k (c ∷ cs) h m = elim (Bool-cases (elem c.kind constraint_kinds)) [
  | inl e ↦ rw (e, has_kind-read k cs h m) refl
  | inr e ↦ rw (e, m, known_kind c.kind k h e, has_kind-read k cs h m) refl
]

-- The stored contract names constraints and a deliverable.
pub record IsWritten (c : Contract) : Type 0 where
  pub constrained : is_nil c.constraints ≡ false
  pub deliverable : is_empty c.deliverable ≡ false

pub contract_from_dict-AsksAlike :
    (compile : String → Contract) (raw : Contract) (fallback : String)
    → IsWritten raw
    → AsksAlike raw (contract_from_dict compile raw fallback)
unfolding contract_from_dict is_code
contract_from_dict-AsksAlike compile raw fallback w =
    let tests = has_kind-read "run_tests" raw.constraints refl refl in
    let scope = has_kind-read "scope_files" raw.constraints refl refl in
    record {
      code = rw (w.constrained, w.deliverable, tests, scope) refl;
      tests = rw (w.constrained, tests) refl;
      scope = rw (w.constrained, scope) refl;
    }

-- The text from which a contract is compiled again, if the stored one has no constraints.
abbrev pub fallback_of : VerifierRequest → Contract → String
fallback_of request stored =
    text_or request.query (text_or request.draft (text_or stored.goal "task"))

pub resolve_contract-stored :
    (server : Server) (request : VerifierRequest) (st : Store) (run : Run) (steps : List Step)
    → is_blank request.run_id ≡ false
    → get_workflow_run server.boundary (strip request.run_id) st ≡ some (run, steps)
    → resolve_contract server request st
      ≡ inr (
          contract_from_dict server.compile run.task_contract
            (fallback_of request run.task_contract))
unfolding resolve_contract
resolve_contract-stored server request st run steps r g = rw (r, g) refl
