-- ===== src/Rules/Transitions.antt =====
-- Which transitions `_next_state` of core/learning/rule_lifecycle.py makes.
use elite_reasoning_mcp.Prelude.{ℕ, ◌+◌, ◌*◌, ◌≤◌, ◌<◌, max, ◌≡◌, none, some, arith}
use elite_reasoning_mcp.Rules.{
  LifecycleState, probation, active, trusted, dormant, retired, RuleState, total_fires, truthy,
  dormant_threshold, dormant_retirement, effective, next_probation, next_active_by_rate,
  next_active, next_trusted, next_dormant, dispatch, next_state,
}

-- The diagram of the class comment, each edge with the guard under which the code takes it.
pub data Edge (now : ℕ) (r : RuleState) : LifecycleState → LifecycleState → Type 0 where
  promote :
      50 ≤ r.evaluation_count
      → 5 * max 1 r.evaluation_count ≤ 100 * r.times_triggered
      → Edge now r probation active
  give_up :
      1000 ≤ r.evaluation_count
      → 100 * r.times_triggered < 5 * max 1 r.evaluation_count
      → Edge now r probation retired
  idle :
      (t : ℕ)
      → truthy r.last_triggered_at ≡ some t
      → t + dormant_threshold < now
      → Edge now r active dormant
  unused : truthy r.last_triggered_at ≡ none → 50 < r.evaluation_count → Edge now r active dormant
  demote : 70 * total_fires r < 100 * r.false_positive_count → Edge now r active probation
  trust :
      200 ≤ r.evaluation_count
      → 100 * r.false_positive_count < 10 * total_fires r
      → Edge now r active trusted
  distrust :
      10 < total_fires r
      → 20 * total_fires r < 100 * r.false_positive_count
      → Edge now r trusted active
  revive :
      (t : ℕ)
      → truthy r.last_triggered_at ≡ some t
      → now < t + dormant_threshold
      → Edge now r dormant active
  expire :
      (t : ℕ)
      → truthy r.last_triggered_at ≡ some t
      → t + dormant_retirement < now
      → Edge now r dormant retired

module _ (now : ℕ) (r : RuleState) where
  probation-Edge : {t : LifecycleState} → next_probation r ≡ some t → Edge now r probation t
  unfolding next_probation
  probation-Edge h = grind (arith, promote, give_up)

  rate-Edge : {t : LifecycleState} → next_active_by_rate r ≡ some t → Edge now r active t
  unfolding next_active_by_rate
  rate-Edge h = grind (arith, demote, trust)

  active-Edge : {t : LifecycleState} → next_active now r ≡ some t → Edge now r active t
  unfolding next_active
  active-Edge h = grind (arith, rate-Edge, idle, unused)

  trusted-Edge : {t : LifecycleState} → next_trusted r ≡ some t → Edge now r trusted t
  unfolding next_trusted
  trusted-Edge h = grind (arith, distrust)

  dormant-Edge : {t : LifecycleState} → next_dormant now r ≡ some t → Edge now r dormant t
  unfolding next_dormant
  dormant-Edge h = grind (arith, revive, expire)

  dispatch-Edge :
      (s : LifecycleState) {t : LifecycleState} → dispatch s now r ≡ some t → Edge now r s t
  unfolding dispatch
  dispatch-Edge probation h = probation-Edge h
  dispatch-Edge active h = active-Edge h
  dispatch-Edge trusted h = trusted-Edge h
  dispatch-Edge dormant h = dormant-Edge h
  dispatch-Edge _ h = ground arith

  -- Every transition that `_next_state` proposes is an edge of the documented diagram from the
  -- rule's state (blank counting as probation), and its guard holds.
  pub next_state-Edge :
      (t : LifecycleState) → next_state now r ≡ some t → Edge now r (effective r.lifecycle_state) t
  unfolding next_state
  next_state-Edge t h = dispatch-Edge (effective r.lifecycle_state) h
