-- ===== src/Playbook/Plan.antt =====
-- The shape of the playbooks of core/reasoning/playbook.py.
use elite_reasoning_mcp.Prelude.{
  ◌+◌, ◌≤◌, ◌≡◌, refl, true, inl, inr, List, [], ◌∷◌, ◌++◌, arith, All, length, Bool-cases, str_eq,
  elem,
}
use elite_reasoning_mcp.Workflow.{Contract}
use elite_reasoning_mcp.Playbook.{
  PlaybookStep, core_tools, evidence_steps, work_steps, outcome_step, number_from, compile_playbook,
}

-- The steps of a playbook before its last.
abbrev pub planned : Contract → List PlaybookStep
planned c = number_from 1 (evidence_steps c ++ work_steps c)

-- A playbook is one to three steps and then the outcome check, and it only calls core tools beside
-- the work of the host.
pub compile_playbook-planned :
    (c : Contract)
    → (compile_playbook c ≡ planned c ++ (outcome_step c (length (planned c) + 1) ∷ []))
      × (1 ≤ length (planned c))
      × (length (planned c) ≤ 3)
      × All
          (λ (s : PlaybookStep). elem s.tool ("host_work" ∷ core_tools) ≡ true)
          (compile_playbook c)
unfolding compile_playbook evidence_steps work_steps elem outcome_step
compile_playbook-planned c = elim (Bool-cases (str_eq c.next_action "evidence")) [
  | inl e ↦ elim (Bool-cases (str_eq c.next_action "verify_tests")) [
    | inl t ↦ rw (e, t) (refl, omega arith, omega arith, (refl, (refl, (refl, (refl, tt)))))
    | inr t ↦ rw (e, t) (refl, omega arith, omega arith, (refl, (refl, (refl, tt))))
  ]
  | inr e ↦ elim (Bool-cases (str_eq c.next_action "verify_tests")) [
    | inl t ↦ rw (e, t) (refl, omega arith, omega arith, (refl, (refl, (refl, tt))))
    | inr t ↦ rw (e, t) (refl, omega arith, omega arith, (refl, (refl, tt)))
  ]
]
