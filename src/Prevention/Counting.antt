-- ===== src/Prevention/Counting.antt =====
-- What an event adds to the counters of the rules, when the database does not raise.
use elite_reasoning_mcp.Prelude.{
  ℕ, suc, ◌+◌, String, ◌≡◌, refl, ap, ◌∙◌, Bool, true, false, inl, inr, Option, none, List, [], ◌∷◌,
  map, arith, keep, length, ◌==◌, if◌then◌else◌, Bool-cases,
}
use elite_reasoning_mcp.Prevention.{
  PreventionRule, World, RuleStore, ActiveRule, on_id, count_trigger, count_evaluation, access,
  increment_rule_trigger, update_rule_evaluation, EventBus, EventPayload, matched_rules, fires,
  warning, evaluate, evaluate_all, emit,
}

-- A row without the marks of its last evaluation.
abbrev pub unstamped : PreventionRule → PreventionRule
unstamped r = record r { last_evaluated_at = none; last_error = none; last_check_query_ms = none }

abbrev pub occurrences : ℕ → List ActiveRule → ℕ
occurrences rule_id rules = length (keep (λ (rule : ActiveRule). rule_id == rule.id) rules)

-- A row whose rule was evaluated as one of some rules, and fired as one of others.
abbrev pub recounted : List ActiveRule → List ActiveRule → PreventionRule → PreventionRule
recounted evaluated fired r = record r {
  times_triggered = r.times_triggered + occurrences r.id fired;
  evaluation_count = r.evaluation_count + occurrences r.id evaluated;
  last_evaluated_at = none;
  last_error = none;
  last_check_query_ms = none;
}

abbrev counted : PreventionRule → ℕ → ℕ → PreventionRule
counted r triggers evaluations = record (unstamped r) {
  times_triggered = triggers;
  evaluation_count = evaluations;
}

with_counts : (r : PreventionRule) {a b c d : ℕ} → a ≡ b → c ≡ d → counted r a c ≡ counted r b d
with_counts r h k = rw (h, k) refl

map-map :
    {A B C : Type 0} (f : B → C) (g : A → B) (xs : List A)
    → map f (map g xs) ≡ map (λ x. f (g x)) xs
map-map f g [] = refl
map-map f g (x ∷ xs) = ap (◌∷◌ (f (g x))) (map-map f g xs)

map_eq : {A B : Type 0} (f g : A → B) (xs : List A) → ((x : A) → f x ≡ g x) → map f xs ≡ map g xs
map_eq f g [] h = refl
map_eq f g (x ∷ xs) h = rw (h x) (ap (◌∷◌ (g x)) (map_eq f g xs h))

-- the row after an evaluation, whose first access to the database is the n-th
unfoldable evaluated_row : World → Bool → ℕ → ℕ → PreventionRule → PreventionRule
evaluated_row world true rule_id n r =
    on_id rule_id (count_evaluation world (suc n) none) (on_id rule_id count_trigger r)
evaluated_row world false rule_id n r = on_id rule_id (count_evaluation world n none) r

recounted-evaluated_row :
    (world : World) (event : String) (payload : EventPayload) (rule : ActiveRule)
    (rules : List ActiveRule) (n : ℕ) (r : PreventionRule)
    → recounted rules
        (keep (fires event payload) rules)
        (evaluated_row world (fires event payload rule) rule.id n r)
      ≡ recounted (rule ∷ rules) (keep (fires event payload) (rule ∷ rules)) r
unfolding evaluated_row
recounted-evaluated_row world event payload rule rules n r =
    elim (Bool-cases (fires event payload rule)) [
      | inl e ↦ rw e (elim (Bool-cases (r.id == rule.id)) [
        | inl k ↦ rw (k, k) (with_counts r (omega arith) (omega arith))
        | inr k ↦ rw (k, k) refl
      ])
      | inr e ↦ rw e (elim (Bool-cases (r.id == rule.id)) [
        | inl k ↦ rw k (with_counts r refl (omega arith))
        | inr k ↦ rw k refl
      ])
    ]

module _ (world : World) (quiet : (n : ℕ) → world.fault n ≡ none) (event : String)
    (payload : EventPayload) where
  access_quiet :
      (change : RuleStore → RuleStore) (st : RuleStore)
      → access world change st ≡ (none, record (change st) { accesses = suc st.accesses })
  unfolding access
  access_quiet change st = rw (access, quiet st.accesses) refl

  increment_quiet :
      (rule_id : ℕ) (st : RuleStore)
      → increment_rule_trigger world rule_id st ≡ (
        none,
        record st {
          rules = map (on_id rule_id count_trigger) st.rules;
          accesses = suc st.accesses;
        },
      )
  unfolding increment_rule_trigger
  increment_quiet rule_id =
      access_quiet (λ st. record st { rules = map (on_id rule_id count_trigger) st.rules })

  update_quiet :
      (rule_id : ℕ) (error : Option String) (st : RuleStore)
      → update_rule_evaluation world rule_id error st ≡ (
        none,
        record st {
          rules = map (on_id rule_id (count_evaluation world st.accesses error)) st.rules;
          accesses = suc st.accesses;
        },
      )
  unfolding update_rule_evaluation
  update_quiet rule_id error = access_quiet (λ st. record st {
    rules = map (on_id rule_id (count_evaluation world st.accesses error)) st.rules;
  })

  evaluate_quiet :
      (rule : ActiveRule) (st : RuleStore)
      → ((evaluate world event payload rule st).0
          ≡ (if fires event payload rule then warning rule ∷ [] else []))
        × ((evaluate world event payload rule st).1.rules
            ≡ map (evaluated_row world (fires event payload rule) rule.id st.accesses) st.rules)
  unfolding evaluate evaluated_row
  evaluate_quiet rule st = elim (Bool-cases (fires event payload rule)) [
    | inl e ↦
        rw (e, increment_quiet rule.id st)
          (
            refl,
            rw
                (update_quiet rule.id none (record st {
                  rules = map (on_id rule.id count_trigger) st.rules;
                  accesses = suc st.accesses;
                }))
                (map-map (on_id rule.id (count_evaluation world (suc st.accesses) none))
                  (on_id rule.id count_trigger) st.rules),
          )
    | inr e ↦ rw (e, update_quiet rule.id none st) (refl, refl)
  ]

  evaluate_all_quiet :
      (rules : List ActiveRule) (st : RuleStore)
      → ((evaluate_all world event payload rules st).0
          ≡ map warning (keep (fires event payload) rules))
        × (map unstamped (evaluate_all world event payload rules st).1.rules
            ≡ map (recounted rules (keep (fires event payload) rules)) st.rules)
  unfolding evaluate_all
  evaluate_all_quiet [] st = (
    refl,
    map_eq unstamped (recounted [] []) st.rules (λ r. with_counts r (omega arith) (omega arith)),
  )
  evaluate_all_quiet (rule ∷ rules) st =
      let one = evaluate_quiet rule st in
      let st' = (evaluate world event payload rule st).1 in
      let rest = evaluate_all_quiet rules st' in
      let f = recounted rules (keep (fires event payload) rules) in
      (
        rw (one.0, rest.0)
            (elim (Bool-cases (fires event payload rule)) [
              | inl e ↦ rw e refl
              | inr e ↦ rw e refl
            ]),
        rest.1
            ∙ rw one.1 (
                map-map f (evaluated_row world (fires event payload rule) rule.id st.accesses)
                  st.rules
                ∙ map_eq
                    (λ r. f (evaluated_row world (fires event payload rule) rule.id st.accesses r))
                    (recounted (rule ∷ rules) (keep (fires event payload) (rule ∷ rules))) st.rules
                    (recounted-evaluated_row world event payload rule rules st.accesses)),
      )

  -- If the database raises at no access: an event warns of exactly the rules that it matches and that
  -- fire, in their order; it adds to the evaluation count of each row of the table how often its rule
  -- is matched, and to its trigger count how often its rule is matched and fires; and otherwise only
  -- the marks of the last evaluation change.
  pub emit-recounts :
      (bus : EventBus)
      → ((emit world event payload bus).0
          ≡ map warning (keep (fires event payload) (matched_rules bus.rules_by_event event)))
        × (map unstamped (emit world event payload bus).1.store.rules
            ≡ map
                (recounted
                  (matched_rules bus.rules_by_event event)
                  (keep (fires event payload) (matched_rules bus.rules_by_event event)))
                bus.store.rules)
        × ((emit world event payload bus).1.rules_by_event ≡ bus.rules_by_event)
  unfolding emit
  emit-recounts bus =
      let all = evaluate_all_quiet (matched_rules bus.rules_by_event event) bus.store in
      (all.0, all.1, refl)
