-- ===== src/Prevention/Rows.antt =====
-- The table `prevention_rules` and its methods: core/memory/persistent_store.py and the tool
-- delete_prevention_rule of core/tools/adaptive.py. The rows stand in the order of their ids,
-- in which SQLite reads a table whose SELECT gives no order. What the
-- surroundings decide is the argument `world`: whether the n-th access to the database raises, the
-- clock at that access, and how long the evaluation before it took.
use elite_reasoning_mcp.Prelude.{
  ℕ, zero, suc, ◌+◌, String, Bool, true, false, not, ◌&&◌, Option, none, some, List, [], ◌∷◌, ◌++◌,
  map, ◌==◌, if◌then◌else◌, str_eq, is_empty, any, keep,
}

pub record PreventionRule : Type 0 where
  pub id : ℕ
  pub rule_name : String
  pub trigger_event : String
  pub check_query : String
  pub action_on_match : String
  pub severity : String
  pub source_detection_id : Option ℕ
  pub times_triggered : ℕ
  pub enabled : Bool
  pub created_at : String
  pub last_evaluated_at : Option ℕ
  pub evaluation_count : ℕ
  pub last_error : Option String
  pub last_check_query_ms : Option ℕ

pub record MissedDetection : Type 0 where
  pub id : ℕ
  pub trigger_prompt_id : Option ℕ
  pub detection_type : String
  pub what_was_missed : String
  pub root_cause : String
  pub prevention_rule : String
  pub automated : Bool
  pub created_at : String

pub record RuleStore : Type 0 where
  pub rules : List PreventionRule
  pub missed_detections : List MissedDetection
  pub next_id : ℕ
  pub accesses : ℕ

pub record World : Type 0 where
  pub fault : ℕ → Option String
  pub clock : ℕ → ℕ
  pub elapsed_ms : ℕ → ℕ

-- What `get_active_prevention_rules` makes of a row.
pub record ActiveRule : Type 0 where
  pub id : ℕ
  pub rule_name : String
  pub trigger_event : String
  pub check_query : String
  pub action : String
  pub severity : String
  pub times_triggered : ℕ

unfoldable pub active_rule : PreventionRule → ActiveRule
active_rule r = record {
  id = r.id;
  rule_name = r.rule_name;
  trigger_event = r.trigger_event;
  check_query = r.check_query;
  action = r.action_on_match;
  severity = r.severity;
  times_triggered = r.times_triggered;
}

abbrev pub is_selected : String → PreventionRule → Bool
is_selected trigger_event r =
    if is_empty trigger_event then r.enabled else r.enabled && str_eq r.trigger_event trigger_event

unfoldable pub get_active_prevention_rules : String → RuleStore → List ActiveRule
unfolding active_rule
get_active_prevention_rules trigger_event st =
    map active_rule (keep (is_selected trigger_event) st.rules)

-- One access to the database: the text of the exception, if it raises.
unfoldable pub access : World → (RuleStore → RuleStore) → RuleStore → Option String × RuleStore
access world change st = elim (world.fault st.accesses) [
  | none ↦ (none, record (change st) { accesses = suc st.accesses })
  | some error ↦ (some error, record st { accesses = suc st.accesses })
]

-- UPDATE prevention_rules SET ... WHERE id = ?
abbrev pub on_id : ℕ → (PreventionRule → PreventionRule) → PreventionRule → PreventionRule
on_id rule_id f r = if r.id == rule_id then f r else r

abbrev pub count_trigger : PreventionRule → PreventionRule
count_trigger r = record r { times_triggered = r.times_triggered + 1 }

unfoldable pub increment_rule_trigger : World → ℕ → RuleStore → Option String × RuleStore
unfolding access
increment_rule_trigger world rule_id =
    access world (λ st. record st { rules = map (on_id rule_id count_trigger) st.rules })

abbrev pub count_evaluation : World → ℕ → Option String → PreventionRule → PreventionRule
count_evaluation world n error r = record r {
  last_evaluated_at = some (world.clock n);
  evaluation_count = r.evaluation_count + 1;
  last_error = error;
  last_check_query_ms = some (world.elapsed_ms n);
}

unfoldable pub update_rule_evaluation :
    World → ℕ → Option String → RuleStore → Option String × RuleStore
unfolding access
update_rule_evaluation world rule_id error = access world (λ st. record st {
  rules = map (on_id rule_id (count_evaluation world st.accesses error)) st.rules;
})

abbrev pub has_name : String → PreventionRule → Bool
has_name rule_name r = str_eq r.rule_name rule_name

-- Python's truth of an optional number
abbrev pub is_number : Option ℕ → Bool
is_number none = false
is_number (some zero) = false
is_number (some (suc n)) = true

abbrev pub automate : Option ℕ → MissedDetection → MissedDetection
automate none d = d
automate (some zero) d = d
automate (some (suc n)) d = if d.id == suc n then record d { automated = true } else d

-- UPDATE prevention_rules SET check_query, action_on_match, severity WHERE rule_name = ?
abbrev pub rewrite_rule : String → String → String → String → PreventionRule → PreventionRule
rewrite_rule rule_name check_query action_on_match severity r =
    if has_name rule_name r
    then record r {
      check_query = check_query;
      action_on_match = action_on_match;
      severity = severity;
    }
    else r

pub data Registered : Type 0 where
  registered updated : Registered

-- The INSERT, and the UPDATE after its IntegrityError: the names are UNIQUE.
unfoldable pub register_prevention_rule :
    String
    → String
    → String
    → String
    → String
    → String
    → Option ℕ
    → RuleStore
    → Registered × RuleStore
register_prevention_rule now rule_name trigger_event check_query action_on_match severity source
      st =
    if any (has_name rule_name) st.rules
    then (
      updated,
      record st {
        rules = map (rewrite_rule rule_name check_query action_on_match severity) st.rules;
      },
    )
    else (
      registered,
      record st {
        rules =
            st.rules
            ++ record {
              id = st.next_id;
              rule_name = rule_name;
              trigger_event = trigger_event;
              check_query = check_query;
              action_on_match = action_on_match;
              severity = severity;
              source_detection_id = source;
              times_triggered = 0;
              enabled = true;
              created_at = now;
              last_evaluated_at = none;
              evaluation_count = 0;
              last_error = none;
              last_check_query_ms = none;
            }
              ∷ [];
        missed_detections = map (automate source) st.missed_detections;
        next_id = suc st.next_id;
      },
    )

-- DELETE FROM prevention_rules WHERE rule_name = ?, and whether a row was deleted
unfoldable pub delete_prevention_rule : String → RuleStore → Bool × RuleStore
delete_prevention_rule rule_name st = (
  any (has_name rule_name) st.rules,
  record st { rules = keep (λ r. not (has_name rule_name r)) st.rules },
)
