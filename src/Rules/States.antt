-- ===== src/Rules/States.antt =====
-- The states and the rows of a prevention rule, and the transition that its counters call for:
-- core/learning/rule_lifecycle.py, `_next_state`. Times are seconds; a quotient that the code compares
-- with a decimal constant is compared crosswise.
use elite_reasoning_mcp.Prelude.{
  ℕ, ◌+◌, ◌*◌, max, String, Bool, true, false, ◌&&◌, Option, none, some, ltb, leb, ◌==◌,
  if◌then◌else◌, str_eq,
}

-- The strings that the code compares a state with, and any other string.
pub data LifecycleState : Type 0 where
  probation active trusted dormant retired : LifecycleState
  other : String → LifecycleState

-- `==` on states
unfoldable pub same_state : LifecycleState → LifecycleState → Bool
same_state probation probation = true
same_state active active = true
same_state trusted trusted = true
same_state dormant dormant = true
same_state retired retired = true
same_state (other s) (other t) = str_eq s t
same_state _ _ = false

-- A row of `prevention_rules`.
pub record Row : Type 0 where
  pub id : ℕ
  pub rule_name : String
  pub lifecycle_state : Option LifecycleState
  pub times_triggered : Option ℕ
  pub evaluation_count : Option ℕ
  pub false_positive_count : Option ℕ
  pub true_positive_count : Option ℕ
  pub last_triggered_at : Option ℕ
  pub promoted_at : Option ℕ
  pub retired_at : Option ℕ
  pub created_at : Option ℕ
  pub enabled : Bool

pub record RuleState : Type 0 where
  pub id : ℕ
  pub rule_name : String
  pub lifecycle_state : LifecycleState
  pub times_triggered : ℕ
  pub evaluation_count : ℕ
  pub false_positive_count : ℕ
  pub true_positive_count : ℕ
  pub last_triggered_at : Option ℕ
  pub promoted_at : Option ℕ
  pub created_at : ℕ

abbrev pub probation_min_evals : ℕ
probation_min_evals = 50

abbrev pub retirement_evals : ℕ
retirement_evals = 1000

abbrev pub trusted_min_evals : ℕ
trusted_min_evals = 200

abbrev pub day : ℕ
day = 86400

-- DORMANT_THRESHOLD_DAYS and DORMANT_RETIREMENT_DAYS, in seconds
abbrev pub dormant_threshold : ℕ
dormant_threshold = 30 * day

abbrev pub dormant_retirement : ℕ
dormant_retirement = 60 * day

-- `rule.lifecycle_state or "probation"`
unfoldable pub effective : LifecycleState → LifecycleState
effective (other s) = if str_eq s "" then probation else other s
effective s = s

abbrev pub total_fires : RuleState → ℕ
total_fires r = r.true_positive_count + r.false_positive_count

-- times_triggered / max(1, evaluation_count) >= 0.05
abbrev pub fires_enough : RuleState → Bool
fires_enough r = leb (5 * max 1 r.evaluation_count) (100 * r.times_triggered)

-- false_positive_count / total_fires, above 0.70, below 0.10 and above 0.20
abbrev pub fp_demotes : RuleState → Bool
fp_demotes r = ltb (70 * total_fires r) (100 * r.false_positive_count)

abbrev pub fp_trusted : RuleState → Bool
fp_trusted r = ltb (100 * r.false_positive_count) (10 * total_fires r)

abbrev pub fp_distrusts : RuleState → Bool
fp_distrusts r = ltb (20 * total_fires r) (100 * r.false_positive_count)

-- `if rule.last_triggered_at:` fails on None and on 0
abbrev pub truthy : Option ℕ → Option ℕ
truthy none = none
truthy (some t) = if t == 0 then none else some t

unfoldable pub next_probation : RuleState → Option LifecycleState
next_probation r =
    if leb probation_min_evals r.evaluation_count
    then if fires_enough r
      then some active
      else if leb retirement_evals r.evaluation_count
      then some retired
      else none
    else none

-- the part of the "active" branch after the test for dormancy
unfoldable pub next_active_by_rate : RuleState → Option LifecycleState
next_active_by_rate r =
    if ltb 0 (total_fires r) && fp_demotes r
    then some probation
    else if leb trusted_min_evals r.evaluation_count && (ltb 0 (total_fires r) && fp_trusted r)
    then some trusted
    else none

unfoldable pub next_active : ℕ → RuleState → Option LifecycleState
unfolding next_active_by_rate
next_active now r = elim (truthy r.last_triggered_at) [
  | some t ↦ if ltb (t + dormant_threshold) now then some dormant else next_active_by_rate r
  | none ↦
      if ltb probation_min_evals r.evaluation_count then some dormant else next_active_by_rate r
]

unfoldable pub next_trusted : RuleState → Option LifecycleState
next_trusted r = if ltb 10 (total_fires r) && fp_distrusts r then some active else none

unfoldable pub next_dormant : ℕ → RuleState → Option LifecycleState
next_dormant now r = elim (truthy r.last_triggered_at) [
  | some t ↦
      if ltb now (t + dormant_threshold)
      then some active
      else if ltb (t + dormant_retirement) now
      then some retired
      else none
  | none ↦ none
]

unfoldable pub dispatch : LifecycleState → ℕ → RuleState → Option LifecycleState
unfolding next_probation next_active next_trusted next_dormant
dispatch probation now r = next_probation r
dispatch active now r = next_active now r
dispatch trusted now r = next_trusted r
dispatch dormant now r = next_dormant now r
dispatch _ now r = none

unfoldable pub next_state : ℕ → RuleState → Option LifecycleState
unfolding effective dispatch
next_state now r = dispatch (effective r.lifecycle_state) now r
