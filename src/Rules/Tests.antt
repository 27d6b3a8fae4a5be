-- ===== src/Rules/Tests.antt =====
-- Runs and instances of the model of core/learning/rule_lifecycle.py.
use elite_reasoning_mcp.Prelude.{ℕ, ◌+◌, ◌*◌, ◌≡◌, refl, true, none, some, List, [], ◌∷◌, arith}
use elite_reasoning_mcp.Rules.{
  probation, active, dormant, Row, day, tick, changed_state, load_all_rules, tick_rules, transition,
  apply_transition, same_state,
}
use elite_reasoning_mcp.Rules.Ticks.{step_rows, tick-step_rows}
use elite_reasoning_mcp.Rules.Settled.{Kept, ticks, ticks-Kept}

abbrev noisy : Row
noisy = record {
  id = 1;
  rule_name = "noisy";
  lifecycle_state = some active;
  times_triggered = some 90;
  evaluation_count = some 100;
  false_positive_count = some 80;
  true_positive_count = some 10;
  last_triggered_at = some (100 * day);
  promoted_at = none;
  retired_at = none;
  created_at = some 5;
  enabled = true;
}

abbrev fresh_row : Row
fresh_row = record noisy {
  id = 2;
  rule_name = "fresh";
  lifecycle_state = none;
  times_triggered = some 5;
  evaluation_count = some 100;
}

abbrev table : List Row
table = noisy ∷ fresh_row ∷ []

abbrev clock : ℕ → ℕ
clock i = 101 * day + i

tick_run : tick clock table ≡ (
  record noisy { lifecycle_state = some probation }
      ∷ record fresh_row { lifecycle_state = some active; promoted_at = some (101 * day + 1) }
      ∷ [],
  (tick clock table).1,
)
unfolding tick load_all_rules changed_state tick_rules transition apply_transition same_state
tick_run = refl

tick-step_rows_example : (tick clock table).0 ≡ step_rows clock 0 table
tick-step_rows_example = tick-step_rows clock table (omega arith)

abbrev asleep : Row
asleep = record noisy { lifecycle_state = some dormant; last_triggered_at = none }

ticks-Kept_example :
    Kept (asleep ∷ fresh_row ∷ []) (ticks (clock ∷ clock ∷ []) (asleep ∷ fresh_row ∷ []))
ticks-Kept_example = ticks-Kept (clock ∷ clock ∷ []) (asleep ∷ fresh_row ∷ []) (omega arith)
