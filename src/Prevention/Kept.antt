-- ===== src/Prevention/Kept.antt =====
-- Evaluating rules changes only their counters and the marks of their last evaluation, whatever the
-- database does.
use Prim.Native.Nat.{◌%◌}
use Prim.Native.String.{◌++◌ as ◌+++◌}
use elite_reasoning_mcp.Prelude.{
  ℕ, suc, String, ◌≡◌, refl, ◌∙◌, inl, inr, Option, none, List, [], ◌∷◌, ◌++◌, map, ◌==◌,
  Bool-cases, Option-cases, take_chars,
}
use elite_reasoning_mcp.Prevention.{
  PreventionRule, World, RuleStore, ActiveRule, on_id, count_trigger, count_evaluation, access,
  increment_rule_trigger, update_rule_evaluation, EventBus, EventPayload, matched_rules, fires,
  evaluate, evaluate_all, emit, reload, Prevention, count_call, Noted, emit_prompt, reload_interval,
  text_at, phase_for_prompt,
}

-- A row without its counters and the marks of its last evaluation.
abbrev pub rule_of : PreventionRule → PreventionRule
rule_of r = record r {
  times_triggered = 0;
  last_evaluated_at = none;
  evaluation_count = 0;
  last_error = none;
  last_check_query_ms = none;
}

abbrev pub rules_in : RuleStore → List PreventionRule
rules_in st = map rule_of st.rules

map-on_id :
    (rule_id : ℕ) (f : PreventionRule → PreventionRule) (rs : List PreventionRule)
    → ((r : PreventionRule) → rule_of (f r) ≡ rule_of r)
    → map rule_of (map (on_id rule_id f) rs) ≡ map rule_of rs
map-on_id rule_id f [] h = refl
map-on_id rule_id f (r ∷ rs) h = elim (Bool-cases (r.id == rule_id)) [
  | inl e ↦ rw (e, h r, map-on_id rule_id f rs h) refl
  | inr e ↦ rw (e, map-on_id rule_id f rs h) refl
]

module _ (world : World) where
  access-rules :
      (change : RuleStore → RuleStore) (st : RuleStore)
      → rules_in (change st) ≡ rules_in st
      → rules_in (access world change st).1 ≡ rules_in st
  unfolding access
  access-rules change st h = elim (Option-cases (world.fault st.accesses)) [
    | inl e ↦ rw (access, e) h
    | inr (error, e) ↦ rw (access, e) refl
  ]

  evaluate-rules :
      (event : String) (payload : EventPayload) (rule : ActiveRule) (st : RuleStore)
      → rules_in (evaluate world event payload rule st).1 ≡ rules_in st
  unfolding evaluate increment_rule_trigger update_rule_evaluation
  evaluate-rules event payload rule st = elim (Bool-cases (fires event payload rule)) [
    | inl e ↦ rw e (
        tracked _ _
        ∙ access-rules (λ s. record s { rules = map (on_id rule.id count_trigger) s.rules }) st
            (map-on_id rule.id count_trigger st.rules (λ r. refl)))
    | inr e ↦ rw e (tracked none st)
  ]
    where
      tracked :
          (error : Option String) (s : RuleStore)
          → rules_in (update_rule_evaluation world rule.id error s).1 ≡ rules_in s
      tracked error s =
          access-rules
            (λ t. record t {
              rules = map (on_id rule.id (count_evaluation world t.accesses error)) t.rules;
            })
            s (map-on_id rule.id (count_evaluation world s.accesses error) s.rules (λ r. refl))

  evaluate_all-rules :
      (event : String) (payload : EventPayload) (rules : List ActiveRule) (st : RuleStore)
      → rules_in (evaluate_all world event payload rules st).1 ≡ rules_in st
  unfolding evaluate_all
  evaluate_all-rules event payload [] st = refl
  evaluate_all-rules event payload (rule ∷ rules) st =
      evaluate_all-rules event payload rules (evaluate world event payload rule st).1
      ∙ evaluate-rules event payload rule st

  pub emit-rules :
      (event : String) (payload : EventPayload) (bus : EventBus)
      → rules_in (emit world event payload bus).1.store ≡ rules_in bus.store
  unfolding emit
  emit-rules event payload bus =
      evaluate_all-rules event payload (matched_rules bus.rules_by_event event) bus.store

  reload-rules : (bus : EventBus) → rules_in (reload world bus).store ≡ rules_in bus.store
  unfolding reload
  reload-rules bus = access-rules (λ st. st) bus.store refl

  pub count_call-rules :
      (p : Prevention) → rules_in (count_call world p).bus.store ≡ rules_in p.bus.store
  unfolding count_call
  count_call-rules p = elim (Bool-cases (suc p.eval_count % reload_interval == 0)) [
    | inl e ↦ rw e (reload-rules p.bus)
    | inr e ↦ rw e refl
  ]

  pub emit_prompt-rules :
      (payload : EventPayload) (n : Noted)
      → rules_in (emit_prompt world payload n).bus.store ≡ rules_in n.bus.store
  unfolding emit_prompt
  emit_prompt-rules payload n =
      let prompt = text_at n.context.args "user_prompt" "" in
      let with_prompt = payload ++ ("prompt", take_chars 500 prompt) ∷ [] in
      let bus = (emit world "prompt.received" with_prompt n.bus).1 in
      elim (Option-cases (phase_for_prompt prompt)) [
        | inl e ↦ rw (emit_prompt, e) (emit-rules "prompt.received" with_prompt n.bus)
        | inr (phase, e) ↦
            rw (emit_prompt, e)
              (emit-rules ("phase.before:" +++ phase) (with_prompt ++ ("phase", phase) ∷ []) bus
                ∙ emit-rules "prompt.received" with_prompt n.bus)
      ]
