-- ===== src/Playbook/Tests.antt =====
-- Runs of the model of core/reasoning/playbook.py.
use elite_reasoning_mcp.Prelude.{String, ◌≡◌, refl, [], ◌∷◌, map, lower, contains, elem}
use elite_reasoning_mcp.Workflow.{Contract}
use elite_reasoning_mcp.Playbook.{
  PlaybookStep, ExpectedOutcome, compile_playbook, compile_expected_outcomes, allowed_tools_for,
}

program : Unit {0}
unfolding compile_playbook compile_expected_outcomes allowed_tools_for lower contains elem
program = tt

abbrev contract : String → Contract
contract next = record {
  goal = "Use my memory";
  deliverable = "a patch";
  constraints = [];
  do_not = [];
  next_action = next;
}

playbook_run :
    (map (λ (s : PlaybookStep). s.tool) (compile_playbook (contract "evidence"))
      ≡ "elite_verify" ∷ "host_work" ∷ "elite_verify" ∷ [])
    × (map (λ (s : PlaybookStep). s.index) (compile_playbook (contract "verify_tests"))
        ≡ 1 ∷ 2 ∷ 3 ∷ [])
    × (map (λ (o : ExpectedOutcome). o.id) (compile_expected_outcomes (contract "evidence"))
        ≡ "goal" ∷ "deliverable" ∷ "grounded" ∷ [])
    × (allowed_tools_for (contract "evidence") ≡ "elite_verify" ∷ "elite_memory" ∷ [])
unfolding program
playbook_run = (refl, refl, refl, refl)
