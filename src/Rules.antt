-- ===== src/Rules.antt =====
-- core/learning/rule_lifecycle.py: the life of a prevention rule. A row of `prevention_rules` keeps
-- its NULLs as `none`; the table is a list of rows and `UPDATE ... WHERE id = ?` maps over it.
-- Times are seconds on a clock that counts from the epoch, and `clock i` is what `time.time()`
-- returns while the i-th rule of a tick is handled. A quotient that the code compares with a
-- decimal constant is compared crosswise, which is the same for counters below 2 ^ 50.
mod States
pub mod Transitions
pub mod Ticks
pub mod Settled
mod Tests
unfoldable pub use States.*
use elite_reasoning_mcp.Prelude.{
  ℕ, suc, ◌+◌, ◌*◌, max, String, Bool, true, false, not, ◌&&◌, Option, none, some, List, [], ◌∷◌,
  ◌++◌, map, ltb, leb, ◌==◌, if◌then◌else◌, str_eq, length, keep,
}

-- The numbers that `_reason` puts into its sentence: a rate as numerator and denominator.
pub data Reason : Type 0 where
  fire_rate : ℕ → ℕ → ℕ → Reason
  low_fp : ℕ → ℕ → ℕ → Reason
  no_fires : ℕ → Reason
  insufficient : ℕ → Reason
  high_fp : ℕ → ℕ → Reason
  transitioned : String → Reason

unfoldable pub reason : RuleState → LifecycleState → Reason
reason r active = fire_rate r.times_triggered (max 1 r.evaluation_count) r.evaluation_count
reason r trusted = low_fp r.false_positive_count (total_fires r) r.evaluation_count
reason r dormant = no_fires 30
reason r retired = insufficient r.evaluation_count
reason r probation = high_fp r.false_positive_count (total_fires r)
reason r (other s) = transitioned s

abbrev pub coalesce {ℓ} : {A : Type ℓ} → A → Option A → A
coalesce d none = d
coalesce d (some a) = a

unfoldable pub snapshot : Row → RuleState
snapshot w = record {
  id = w.id;
  rule_name = w.rule_name;
  lifecycle_state = coalesce probation w.lifecycle_state;
  times_triggered = coalesce 0 w.times_triggered;
  evaluation_count = coalesce 0 w.evaluation_count;
  false_positive_count = coalesce 0 w.false_positive_count;
  true_positive_count = coalesce 0 w.true_positive_count;
  last_triggered_at = w.last_triggered_at;
  promoted_at = w.promoted_at;
  created_at = coalesce 0 w.created_at;
}

abbrev pub is_loaded : Row → Bool
is_loaded w = not (same_state (coalesce probation w.lifecycle_state) retired)

unfoldable pub load_all_rules : List Row → List RuleState
unfolding snapshot
load_all_rules rows = map snapshot (keep is_loaded rows)

-- the SET clause of `_transition`
unfoldable pub apply_transition : ℕ → LifecycleState → Row → Row
apply_transition now active w = record w { lifecycle_state = some active; promoted_at = some now }
apply_transition now trusted w = record w { lifecycle_state = some trusted; promoted_at = some now }
apply_transition now retired w = record w {
  lifecycle_state = some retired;
  retired_at = some now;
  enabled = false;
}
apply_transition now s w = record w { lifecycle_state = some s }

unfoldable pub transition : ℕ → ℕ → LifecycleState → List Row → List Row
transition now rule_id s rows =
    map (λ (w : Row). if w.id == rule_id then apply_transition now s w else w) rows

pub record Transition : Type 0 where
  pub rule_id : ℕ
  pub rule_name : String
  pub from_state : LifecycleState
  pub to_state : LifecycleState
  pub why : Reason

-- `new_state and new_state != rule.lifecycle_state`
unfoldable pub changed_state : ℕ → RuleState → Option LifecycleState
unfolding next_state
changed_state now r = elim (next_state now r) [
  | none ↦ none
  | some s ↦ if same_state s r.lifecycle_state then none else some s
]

-- the loop of `tick`, over the rules that were loaded before it
unfoldable pub tick_rules : (ℕ → ℕ) → ℕ → List RuleState → List Row → List Row × List Transition
tick_rules clock i [] rows = (rows, [])
tick_rules clock i (r ∷ rules) rows = elim (changed_state (clock i) r) [
  | none ↦ tick_rules clock (suc i) rules rows
  | some s ↦
      let (rows', log) = tick_rules clock (suc i) rules (transition (clock i) r.id s rows) in
      (
        rows',
        record {
          rule_id = r.id;
          rule_name = r.rule_name;
          from_state = r.lifecycle_state;
          to_state = s;
          why = reason r s;
        }
            ∷ log,
      )
]

pub record Summary : Type 0 where
  pub total_rules : ℕ
  pub transitions : ℕ
  pub details : List Transition

unfoldable pub tick : (ℕ → ℕ) → List Row → List Row × Summary
tick clock rows =
    let rules = load_all_rules rows in
    let (rows', log) = tick_rules clock 0 rules rows in
    (rows', record { total_rules = length rules; transitions = length log; details = log })

-- COALESCE(col, 0) + 1
unfoldable pub record_rule_outcome : ℕ → Bool → List Row → List Row
record_rule_outcome rule_id was_useful rows =
    map
      (λ (w : Row).
        if w.id == rule_id
        then if was_useful
          then record w { true_positive_count = some (coalesce 0 w.true_positive_count + 1) }
          else record w { false_positive_count = some (coalesce 0 w.false_positive_count + 1) }
        else w)
      rows
