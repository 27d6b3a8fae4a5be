-- ===== src/Prevention/Tests.antt =====
-- Runs of the prevention rules on a table with two rules, and the examples of the theorems.
use elite_reasoning_mcp.Prelude.{
  ℕ, zero, suc, String, ◌≡◌, refl, true, false, Option, none, some, List, [], ◌∷◌, map, first, keep,
  lower, words, contains, elem, take_chars,
}
use elite_reasoning_mcp.GitDiff.Paths.{join}
use elite_reasoning_mcp.Middleware.{set_entry, CallContext, CallResult, text, go_on, phrase, texts}
use elite_reasoning_mcp.Prevention.{
  PreventionRule, ActiveRule, World, RuleStore, EventBus, Prevention, get_active_prevention_rules,
  migrated, reload, matched_rules, emit, fires, warning, has_name, register_prevention_rule,
  updated, before_call, after_call, active_rule, access, rules_at, add_rule, index_from,
  evaluate_all, evaluate, increment_rule_trigger, update_rule_evaluation, emit_prompt, count_call,
  keep_warnings, kept_warnings, tool_payload, add_warnings, wildcard, before_colon,
  phase_for_prompt, delete_prevention_rule,
}
use elite_reasoning_mcp.Prevention.Index.{due, reload-Implements}
use elite_reasoning_mcp.Prevention.Counting.{unstamped, recounted, emit-recounts}
use elite_reasoning_mcp.Prevention.Names.{
  IsDistinct, registered_row, register_prevention_rule-IsDistinct,
}
use elite_reasoning_mcp.Prevention.Kept.{rules_in}
use elite_reasoning_mcp.Prevention.Hooks.{HasResult, call-PassesThrough}

program : Unit {0}
unfolding get_active_prevention_rules active_rule migrated reload access matched_rules rules_at
    add_rule index_from emit evaluate_all evaluate fires warning increment_rule_trigger
    update_rule_evaluation register_prevention_rule delete_prevention_rule before_call after_call
    emit_prompt count_call keep_warnings kept_warnings tool_payload add_warnings phase_for_prompt
    lower words contains elem take_chars join set_entry wildcard before_colon
program = tt

abbrev quiet : World
quiet = record { fault = λ n. none; clock = λ n. n; elapsed_ms = λ n. 1 }

-- the first two accesses to the database raise
abbrev two_fail : ℕ → Option String
two_fail zero = some "database is locked"
two_fail (suc zero) = some "database is locked"
two_fail (suc (suc n)) = none

abbrev locked : World
locked = record { fault = two_fail; clock = λ n. n; elapsed_ms = λ n. 1 }

abbrev rule : ℕ → String → String → String → PreventionRule
rule n name trigger check = record {
  id = n;
  rule_name = name;
  trigger_event = trigger;
  check_query = check;
  action_on_match = "stop";
  severity = "P1";
  source_detection_id = none;
  times_triggered = 0;
  enabled = true;
  created_at = "2026-01-01";
  last_evaluated_at = none;
  evaluation_count = 0;
  last_error = none;
  last_check_query_ms = none;
}

abbrev store : RuleStore
store = record {
  rules =
      rule 1 "review" "before_design" "look at the plan"
      ∷ rule 2 "guard" "tool.before:*" "delete table"
      ∷ [];
  missed_detections = [];
  next_id = 3;
  accesses = 0;
}

abbrev empty_bus : EventBus
empty_bus = record { store = store; rules_by_event = [] }

abbrev start : Prevention
start = record { bus = reload quiet empty_bus; eval_count = 0 }

abbrev ask : CallContext
ask = record {
  tool_name = "elite_prepare";
  args = ("user_prompt", "Design the schema, then delete it") ∷ [];
  session_id = "s";
  metadata = [];
}

abbrev answer : CallResult
answer = record { value = text "ok"; short_circuited = false; augmentations = "seen" ∷ [] }

abbrev names : List PreventionRule → List (String × ℕ × ℕ)
names rs = map (λ r. (r.rule_name, r.times_triggered, r.evaluation_count)) rs

-- The review fires for the phase, the guard for its words; both were evaluated once.
hook_run :
    (names (before_call quiet ask start).0.bus.store.rules
      ≡ ("review", 1, 1) ∷ ("guard", 1, 1) ∷ [])
    × ((before_call quiet ask start).1.metadata
        ≡ ("workflow_phase", phrase "design")
          ∷ (
            "prevention_warnings",
            texts ("Rule `guard` [P1] fired: stop" ∷ "Rule `review` [P1] fired: stop" ∷ []),
          )
          ∷ [])
    × ((after_call quiet
          (before_call quiet ask start).1
          answer
          (before_call quiet ask start).0).mutated.augmentations
        ≡ "Prevention: Rule `guard` [P1] fired: stop | Rule `review` [P1] fired: stop" ∷ "seen"
          ∷ [])
unfolding program
hook_run = (refl, refl, refl)

-- A rule whose trigger count cannot be written does not warn, and is still evaluated.
locked_run :
    ((emit locked "phase.before:design" [] (reload quiet empty_bus)).0 ≡ [])
    × (names (emit locked "phase.before:design" [] (reload quiet empty_bus)).1.store.rules
        ≡ ("review", 0, 1) ∷ ("guard", 0, 0) ∷ [])
    × ((reload locked empty_bus).rules_by_event ≡ [])
unfolding program
locked_run = (refl, refl, refl)

register_run :
    ((register_prevention_rule "now" "guard" "on_startup" "drop" "ask" "P0" none store).0 ≡ updated)
    × (map
          (λ (r : PreventionRule). r.trigger_event)
          (register_prevention_rule "now" "guard" "on_startup" "drop" "ask" "P0" none store).1.rules
        ≡ "before_design" ∷ "tool.before:*" ∷ [])
    × ((delete_prevention_rule "guard" store).0 ≡ true)
unfolding program
register_run = (refl, refl, refl)

reload-Implements_example :
    (matched_rules (reload quiet empty_bus).rules_by_event "phase.before:design"
      ≡ due "phase.before:design" (get_active_prevention_rules "" store))
    × ((reload quiet empty_bus).store.rules ≡ store.rules)
reload-Implements_example = reload-Implements quiet empty_bus "phase.before:design"

abbrev hit : List ActiveRule
hit = matched_rules (reload quiet empty_bus).rules_by_event "phase.before:design"

emit-recounts_example :
    ((emit quiet "phase.before:design" [] (reload quiet empty_bus)).0
      ≡ map warning (keep (fires "phase.before:design" []) hit))
    × (map unstamped (emit quiet "phase.before:design" [] (reload quiet empty_bus)).1.store.rules
        ≡ map
            (recounted hit (keep (fires "phase.before:design" []) hit))
            (reload quiet empty_bus).store.rules)
    × ((emit quiet "phase.before:design" [] (reload quiet empty_bus)).1.rules_by_event
        ≡ (reload quiet empty_bus).rules_by_event)
emit-recounts_example =
    emit-recounts quiet (λ n. refl) "phase.before:design" [] (reload quiet empty_bus)

store-IsDistinct : IsDistinct store.rules
unfolding IsDistinct
store-IsDistinct = ((refl, tt), (tt, tt))

abbrev again : RuleStore
again = (register_prevention_rule "now" "guard" "on_startup" "drop" "ask" "P0" none store).1

register_prevention_rule-IsDistinct_example :
    IsDistinct again.rules
    × (first (has_name "guard") again.rules
        ≡ some (registered_row "now" "guard" "on_startup" "drop" "ask" "P0" none store))
    × (first (has_name "review") again.rules ≡ first (has_name "review") store.rules)
register_prevention_rule-IsDistinct_example =
    register_prevention_rule-IsDistinct "now" "guard" "on_startup" "drop" "ask" "P0" none store
      "review" store-IsDistinct refl

no_warnings : kept_warnings [] ≡ some []
unfolding kept_warnings
no_warnings = refl

call-PassesThrough_example :
    ((before_call locked ask start).2 ≡ go_on)
    × ((before_call locked ask start).1.tool_name ≡ ask.tool_name)
    × ((before_call locked ask start).1.args ≡ ask.args)
    × HasResult answer
        (after_call locked (before_call locked ask start).1 answer (before_call locked ask start).0)
    × (rules_in
          (after_call locked
            (before_call locked ask start).1
            answer
            (before_call locked ask start).0).world.bus.store
        ≡ rules_in start.bus.store)
call-PassesThrough_example = call-PassesThrough locked ask answer start [] no_warnings
