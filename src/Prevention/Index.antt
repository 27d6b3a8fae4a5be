-- ===== src/Prevention/Index.antt =====
-- The index of the event bus, and the rules that it stands for.
use mathlib.Core.List.{append-nil, append_assoc}
use elite_reasoning_mcp.Prelude.{
  String, ◌≡◌, refl, sym, ◌∙◌, Bool, true, false, inl, inr, none, some, List, [], ◌∷◌, ◌++◌, arith,
  keep, if◌then◌else◌, str_eq, str_eq_iff, str_eq_refl, Bool-cases, Option-cases, contains,
}
use elite_reasoning_mcp.Prevention.{
  World, ActiveRule, get_active_prevention_rules, access, EventBus, RuleIndex, migrated, add_rule,
  index_from, rules_at, reload, wildcard, matched_rules,
}

-- The rules that an event calls for: those whose trigger, in the present vocabulary, is the event.
unfoldable pub is_on : String → ActiveRule → Bool
unfolding migrated
is_on event r = str_eq (migrated r) event

unfoldable pub due : String → List ActiveRule → List ActiveRule
unfolding is_on wildcard contains
due event rules =
    keep (is_on event) rules
    ++ (if contains ":" event then keep (is_on (wildcard event)) rules else [])

rules_at-add_rule :
    (trigger event : String) (r : ActiveRule) (index : RuleIndex)
    → rules_at (add_rule trigger r index) event
      ≡ rules_at index event ++ (if str_eq trigger event then r ∷ [] else [])
unfolding rules_at add_rule
rules_at-add_rule trigger event r [] = elim (Bool-cases (str_eq trigger event)) [
  | inl e ↦ rw e refl
  | inr e ↦ rw e refl
]
rules_at-add_rule trigger event r ((t, rs) ∷ index) = elim (Bool-cases (str_eq t trigger)) [
  | inl e ↦
      rw (e, (str_eq_iff t trigger).0 e)
        (elim (Bool-cases (str_eq trigger event)) [
          | inl k ↦ rw k refl
          | inr k ↦ rw (k, append-nil (rules_at index event)) refl
        ])
  | inr e ↦ rw e (elim (Bool-cases (str_eq t event)) [
    | inl k ↦ rw (k, elsewhere e k, append-nil rs) refl
    | inr k ↦ rw k (rules_at-add_rule trigger event r index)
  ])
]
  where
    elsewhere : str_eq t trigger ≡ false → str_eq t event ≡ true → str_eq trigger event ≡ false
    elsewhere e k = rw (← ((str_eq_iff t event).0 k)) (elim (Bool-cases (str_eq trigger t)) [
      | inl m ↦
          let h : str_eq t t ≡ false = rw ((str_eq_iff trigger t).0 m) at e in
          absurd (ground (arith, h, str_eq_refl t))
      | inr m ↦ m
    ])

rules_at-index_from :
    (event : String) (rules : List ActiveRule) (index : RuleIndex)
    → rules_at (index_from index rules) event ≡ rules_at index event ++ keep (is_on event) rules
unfolding index_from is_on
rules_at-index_from event [] index = sym (append-nil (rules_at index event))
rules_at-index_from event (r ∷ rules) index =
    rules_at-index_from event rules (add_rule (migrated r) r index)
    ∙ rw (rules_at-add_rule (migrated r) event r index)
        (elim (Bool-cases (str_eq (migrated r) event)) [
          | inl e ↦ rw e (append_assoc (rules_at index event) (r ∷ []) (keep (is_on event) rules))
          | inr e ↦ rw (e, append-nil (rules_at index event)) refl
        ])

-- For each event, the rules that the index finds are those of the table that the event calls for, and
-- each as often and in the order of the table.
matched_rules-index_from :
    (event : String) (rules : List ActiveRule)
    → matched_rules (index_from [] rules) event ≡ due event rules
unfolding matched_rules due rules_at
matched_rules-index_from event rules =
    rw (rules_at-index_from event rules [], rules_at-index_from (wildcard event) rules []) refl

none_matched : (event : String) → matched_rules [] event ≡ []
unfolding matched_rules rules_at
none_matched event = elim (Bool-cases (contains ":" event)) [
  | inl e ↦ rw e refl
  | inr e ↦ rw e refl
]

-- After a reload of the event bus, the rules that an event matches are the enabled rules of the table
-- whose trigger, in the present vocabulary, is the event, and then, if the event has a colon, those
-- whose trigger is its wildcard, each as often and in the order of the table; no rule is matched if
-- the database raised. The table is left as it is.
pub reload-Implements :
    (world : World) (bus : EventBus) (event : String)
    → (matched_rules (reload world bus).rules_by_event event
        ≡ elim (world.fault bus.store.accesses) [
          | none ↦ due event (get_active_prevention_rules "" bus.store)
          | some error ↦ []
        ])
      × ((reload world bus).store.rules ≡ bus.store.rules)
unfolding reload access
reload-Implements world bus event = elim (Option-cases (world.fault bus.store.accesses)) [
  | inl e ↦
      rw (reload, access, e)
        (matched_rules-index_from event (get_active_prevention_rules "" bus.store), refl)
  | inr (error, e) ↦ rw (reload, access, e) (none_matched event, refl)
]
