-- ===== src/Reasoning/Tests.antt =====
-- Runs and instances of the model of the reasoning traces of core/memory/persistent_store.py.
use elite_reasoning_mcp.Prelude.{
  String, ◌≡◌, ◌≢◌, refl, true, none, some, List, [], ◌∷◌, map, arith, str_eq_iff,
}
use elite_reasoning_mcp.Reasoning.{
  Trace, Branch, integrity_error, not_found, has_thought, record_thought, revise_thought,
  get_branch_trace, create_branch, conclude_branch,
}
use elite_reasoning_mcp.Reasoning.Links.{Write, think, revise, write_all, Linked, write_all-Linked}
use elite_reasoning_mcp.Reasoning.Branches.{Both, IsConcluded, conclude_branch-IsConcluded}

abbrev writes : List Write
writes =
    think 1 "s" "t1" "main" "try a lock" "hypothesis" none none
    ∷ think 2 "s" "t2" "main" "try a queue" "hypothesis" (some "t1") none
    ∷ revise 3 "s" "t1" "t3" "use a lock" "simpler"
    ∷ []

abbrev traces : List Trace
traces = write_all writes []

program : Unit {0}
unfolding write_all revise_thought get_branch_trace create_branch conclude_branch
program = tt

traces_run :
    (map {B = String × String}
        (λ (x : Trace). (x.thought_id, x.status))
        (get_branch_trace "s" "main" traces)
      ≡ ("t1", "superseded") ∷ ("t2", "open") ∷ ("t3", "open") ∷ [])
    × ((revise_thought 4 "s" "t9" "t4" "" "" traces).0 ≡ not_found)
    × ((record_thought 4 "s" "t2" "main" "" "" none none traces).0 ≡ integrity_error)
unfolding program
traces_run = (refl, refl, refl)

write_all-Linked_example : Linked traces
write_all-Linked_example = write_all-Linked writes [] tt

t2_stored : (has_thought "s" "t2" traces ≡ true) × (has_thought "s" "t3" traces ≡ true)
unfolding program
t2_stored = (refl, refl)

abbrev branches : List Branch
branches = (create_branch 2 "s" "b" "t1" "fairness" (create_branch 1 "s" "a" "t1" "speed" []).1).1

branches_run :
    map (λ (b : Branch). b.status) (conclude_branch 3 "s" "a" "t2" branches)
    ≡ "winning" ∷ "abandoned" ∷ []
unfolding program
branches_run = refl

conclude_branch-IsConcluded_example :
    Both (IsConcluded "s" "a" "t2") branches (conclude_branch 3 "s" "a" "t2" branches)
conclude_branch-IsConcluded_example = conclude_branch-IsConcluded 3 "s" "a" "t2" branches

a_is_not_b : ◌≢◌ {A = String} "a" "b"
a_is_not_b h = ground (arith, str_eq_iff "a" "b")
