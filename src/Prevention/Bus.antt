-- ===== src/Prevention/Bus.antt =====
-- The event bus of core/middleware/prevention.py: EventBus, which matches the rules with events, and the
-- phase that a prompt is about. The index is a list of entries, one for each trigger, in the order in
-- which the triggers were first seen. A payload keeps the order of its keys.
use Prim.Native.Char.{code}
use Prim.Native.String.{◌++◌ as ◌+++◌, count}
use elite_reasoning_mcp.Prelude.{
  ◌*◌, String, Bool, not, ◌&&◌, ◌||◌, Option, none, some, List, [], ◌∷◌, ◌++◌, map, ltb, leb, ◌==◌,
  if◌then◌else◌, str_eq, starts_with, lower, contains, words, any, keep, length,
}
use elite_reasoning_mcp.Prelude.Nil.{is_nil}
use elite_reasoning_mcp.GitDiff.Paths.{join}
use elite_reasoning_mcp.Prevention.Rows.{
  RuleStore, World, ActiveRule, get_active_prevention_rules, access, increment_rule_trigger,
  update_rule_evaluation,
}

abbrev pub trigger_migration : List (String × String)
trigger_migration =
    ("on_prompt", "prompt.received")
    ∷ ("prompt_received", "prompt.received")
    ∷ ("on_startup", "session.start")
    ∷ ("after_tool_call", "tool.after:*")
    ∷ ("before_design", "phase.before:design")
    ∷ ("before_code_change", "phase.before:code_change")
    ∷ ("after_code_change", "phase.after:code_change")
    ∷ ("pre_commit", "phase.before:commit")
    ∷ ("after_audit", "phase.after:audit")
    ∷ []

-- `d.get(key, default)`
abbrev pub text_at : List (String × String) → String → String → String
text_at [] key default = default
text_at ((k, v) ∷ entries) key default = if str_eq k key then v else text_at entries key default

unfoldable pub migrated : ActiveRule → String
migrated r = text_at trigger_migration r.trigger_event r.trigger_event

abbrev pub prompt_tools : List String
prompt_tools = "elite_prepare" ∷ "orchestrate_request_tool" ∷ "workflow_run" ∷ []

abbrev pub has_term : String → List String → Bool
has_term text terms = any (λ term. contains term text) terms

unfoldable pub phase_for_prompt : String → Option String
unfolding lower contains
phase_for_prompt prompt =
    let text = lower prompt in
    if has_term text ("architecture" ∷ "architect" ∷ "design" ∷ "schema" ∷ "data model" ∷ [])
    then some "design"
    else if has_term text ("deploy" ∷ "publish" ∷ "ship to production" ∷ [])
    then some "deploy"
    else if has_term text ("audit" ∷ "review" ∷ "inspect" ∷ "verify" ∷ [])
    then some "audit"
    else if has_term text
        ("build" ∷ "create" ∷ "implement" ∷ "fix" ∷ "debug" ∷ "refactor" ∷ "test" ∷ [])
    then some "code_change"
    else none

abbrev pub RuleIndex : Type 0
RuleIndex = List (String × List ActiveRule)

-- `self._rules_by_event[trigger].append(r)`
unfoldable pub add_rule : String → ActiveRule → RuleIndex → RuleIndex
add_rule trigger r [] = (trigger, r ∷ []) ∷ []
add_rule trigger r ((t, rs) ∷ index) =
    if str_eq t trigger then (t, rs ++ r ∷ []) ∷ index else (t, rs) ∷ add_rule trigger r index

unfoldable pub index_from : RuleIndex → List ActiveRule → RuleIndex
unfolding add_rule migrated
index_from index [] = index
index_from index (r ∷ rs) = index_from (add_rule (migrated r) r index) rs

-- `self._rules_by_event.get(event, [])`
unfoldable pub rules_at : RuleIndex → String → List ActiveRule
rules_at [] event = []
rules_at ((t, rs) ∷ index) event = if str_eq t event then rs else rules_at index event

pub record EventBus : Type 0 where
  pub store : RuleStore
  pub rules_by_event : RuleIndex

unfoldable pub reload : World → EventBus → EventBus
unfolding access get_active_prevention_rules index_from
reload world bus =
    let read = access world (λ st. st) bus.store in
    record {
      store = read.1;
      rules_by_event = elim read.0 [
        | none ↦ index_from [] (get_active_prevention_rules "" bus.store)
        | some error ↦ []
      ];
    }

-- `event.split(":")[0]`
unfoldable pub before_colon : String → String
before_colon String.[] = ""
before_colon (String.◌∷◌ c s) = if code c == b':' then "" else String.◌∷◌ c (before_colon s)

unfoldable pub wildcard : String → String
unfolding before_colon
wildcard event = before_colon event +++ ":*"

unfoldable pub matched_rules : RuleIndex → String → List ActiveRule
unfolding rules_at wildcard contains
matched_rules index event =
    rules_at index event ++ (if contains ":" event then rules_at index (wildcard event) else [])

abbrev pub EventPayload : Type 0
EventPayload = List (String × String)

abbrev pub values : List (String × String) → List String
values entries = map (λ (kv : String × String). kv.1) entries

-- `match_count / len(check_words) >= 0.25` is compared crosswise.
unfoldable pub fires : String → EventPayload → ActiveRule → Bool
unfolding lower words join contains
fires event payload rule =
    let context_text = lower (join " " (values payload)) in
    let check_words = keep (λ word. ltb 3 (count word)) (words (lower rule.check_query)) in
    let match_count = length (keep (λ word. contains word context_text) check_words) in
    starts_with event "phase."
    || not (is_nil check_words) && leb (length check_words) (4 * match_count)

unfoldable pub warning : ActiveRule → String
warning rule =
    "Rule `" +++ (rule.rule_name +++ ("` [" +++ (rule.severity +++ ("] fired: " +++ rule.action))))

-- The body of the loop of `emit`. The evaluation is recorded in any case, and its own failure is
-- only logged.
unfoldable pub evaluate :
    World → String → EventPayload → ActiveRule → RuleStore → List String × RuleStore
unfolding fires increment_rule_trigger update_rule_evaluation warning
evaluate world event payload rule st =
    if fires event payload rule
    then (let (error, st') = increment_rule_trigger world rule.id st in
        (
          elim error [ none ↦ warning rule ∷ [] | some text ↦ [] ],
          (update_rule_evaluation world rule.id error st').1,
        ))
    else ([], (update_rule_evaluation world rule.id none st).1)

unfoldable pub evaluate_all :
    World → String → EventPayload → List ActiveRule → RuleStore → List String × RuleStore
unfolding evaluate
evaluate_all world event payload [] st = ([], st)
evaluate_all world event payload (rule ∷ rules) st =
    let (warnings, st') = evaluate world event payload rule st in
    let (others, st'') = evaluate_all world event payload rules st' in (warnings ++ others, st'')

unfoldable pub emit : World → String → EventPayload → EventBus → List String × EventBus
unfolding evaluate_all matched_rules
emit world event payload bus =
    let (warnings, st) =
      evaluate_all world event payload (matched_rules bus.rules_by_event event) bus.store in
    (warnings, record bus { store = st })
