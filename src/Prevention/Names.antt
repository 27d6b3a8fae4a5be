-- ===== src/Prevention/Names.antt =====
-- The names of the rules: registering and deleting.
use elite_reasoning_mcp.Prelude.{
  ℕ, String, ◌≡◌, refl, true, false, inl, inr, Option, none, some, List, [], ◌∷◌, ◌++◌, map, arith,
  All, All-append, first, any, str_eq, str_eq_iff, str_eq_refl, Bool-cases,
}
use elite_reasoning_mcp.Prevention.{
  PreventionRule, RuleStore, has_name, rewrite_rule, register_prevention_rule,
}

-- No two rows have the same name.
unfoldable pub IsDistinct : List PreventionRule → Type 0
IsDistinct [] = Unit
IsDistinct (r ∷ rs) = All (λ x. has_name r.rule_name x ≡ false) rs × IsDistinct rs

-- The row that a name stands for after it was registered.
unfoldable pub registered_row :
    String → String → String → String → String → String → Option ℕ → RuleStore → PreventionRule
registered_row now rule_name trigger_event check_query action_on_match severity source st =
    elim (first (has_name rule_name) st.rules) [
      | none ↦ record {
        id = st.next_id;
        rule_name = rule_name;
        trigger_event = trigger_event;
        check_query = check_query;
        action_on_match = action_on_match;
        severity = severity;
        source_detection_id = source;
        times_triggered = 0;
        enabled = true;
        created_at = now;
        last_evaluated_at = none;
        evaluation_count = 0;
        last_error = none;
        last_check_query_ms = none;
      }
      | some old ↦ record old {
        check_query = check_query;
        action_on_match = action_on_match;
        severity = severity;
      }
    ]

apart :
    (other name x : String)
    → str_eq other name ≡ false
    → str_eq x name ≡ true
    → str_eq x other ≡ false
apart other name x h e = elim (Bool-cases (str_eq x other)) [
  | inl k ↦
      let g : str_eq x name ≡ false = rw ((str_eq_iff x other).0 k) h in
      absurd (ground (arith, e, g))
  | inr k ↦ k
]

turned_name : (s t : String) → str_eq s t ≡ false → str_eq t s ≡ false
turned_name s t h = elim (Bool-cases (str_eq t s)) [
  | inl k ↦
      let g : str_eq s s ≡ false = rw ((str_eq_iff t s).0 k) at h in
      absurd (ground (arith, g, str_eq_refl s))
  | inr k ↦ k
]

module _ (name check action severity : String) where
  rewrite_rule-name :
      (r : PreventionRule) → (rewrite_rule name check action severity r).rule_name ≡ r.rule_name
  rewrite_rule-name r = elim (Bool-cases (has_name name r)) [
    | inl e ↦ rw e refl
    | inr e ↦ rw e refl
  ]

  All-rewrite :
      (other : String) (rs : List PreventionRule)
      → All (λ x. has_name other x ≡ false) rs
      → All (λ x. has_name other x ≡ false) (map (rewrite_rule name check action severity) rs)
  All-rewrite other [] h = tt
  All-rewrite other (r ∷ rs) h = (rw (rewrite_rule-name r) h.0, All-rewrite other rs h.1)

  rewrite-IsDistinct :
      (rs : List PreventionRule)
      → IsDistinct rs
      → IsDistinct (map (rewrite_rule name check action severity) rs)
  unfolding IsDistinct
  rewrite-IsDistinct [] h = tt
  rewrite-IsDistinct (r ∷ rs) h =
      (rw (rewrite_rule-name r) (All-rewrite r.rule_name rs h.0), rewrite-IsDistinct rs h.1)

  first-rewrite :
      (rs : List PreventionRule)
      → any (has_name name) rs ≡ true
      → (old : PreventionRule) × (first (has_name name) rs ≡ some old)
        × (first (has_name name) (map (rewrite_rule name check action severity) rs)
            ≡ some
                (record old { check_query = check; action_on_match = action; severity = severity }))
  first-rewrite [] h = absurd (ground arith)
  first-rewrite (r ∷ rs) h = elim (Bool-cases (has_name name r)) [
    | inl e ↦ (r, refl_of r e, rw (e, e) refl)
    | inr e ↦
        let k : any (has_name name) rs ≡ true = rw e at h in
        let (old, f, g) = first-rewrite rs k in (old, rw e f, rw (e, e) g)
  ]
    where
      refl_of :
          (r : PreventionRule) → has_name name r ≡ true → first (has_name name) (r ∷ rs) ≡ some r
      refl_of r e = rw e refl

  first-rewrite_other :
      (other : String) (rs : List PreventionRule)
      → str_eq other name ≡ false
      → first (has_name other) (map (rewrite_rule name check action severity) rs)
        ≡ first (has_name other) rs
  first-rewrite_other other [] h = refl
  first-rewrite_other other (r ∷ rs) h = elim (Bool-cases (has_name name r)) [
    | inl e ↦
        let k = apart other name r.rule_name h e in rw (e, k, first-rewrite_other other rs h) refl
    | inr e ↦ rw e (rw (first-rewrite_other other rs h) refl)
  ]

-- a row that is added at the end, with a new name
module _ (new : PreventionRule) where
  is_new :
      (rs : List PreventionRule)
      → any (has_name new.rule_name) rs ≡ false
      → All (λ x. has_name new.rule_name x ≡ false) rs
  is_new [] h = tt
  is_new (r ∷ rs) h = elim (Bool-cases (has_name new.rule_name r)) [
    | inl e ↦ absurd (ground (arith, e, h))
    | inr e ↦ (e, is_new rs (rw e at h))
  ]

  append-IsDistinct :
      (rs : List PreventionRule)
      → All (λ x. has_name new.rule_name x ≡ false) rs
      → IsDistinct rs
      → IsDistinct (rs ++ new ∷ [])
  unfolding IsDistinct
  append-IsDistinct [] h d = (tt, tt)
  append-IsDistinct (r ∷ rs) h d = (
    All-append (λ x. has_name r.rule_name x ≡ false) rs (new ∷ []) d.0
        (turned_name r.rule_name new.rule_name h.0, tt),
    append-IsDistinct rs h.1 d.1,
  )

  first-append_new :
      (rs : List PreventionRule)
      → All (λ x. has_name new.rule_name x ≡ false) rs
      → (first (has_name new.rule_name) rs ≡ none)
        × (first (has_name new.rule_name) (rs ++ new ∷ []) ≡ some new)
  first-append_new [] h = (refl, rw (str_eq_refl new.rule_name) refl)
  first-append_new (r ∷ rs) h = rw h.0 (first-append_new rs h.1)

  first-append_other :
      (other : String) (rs : List PreventionRule)
      → str_eq new.rule_name other ≡ false
      → first (has_name other) (rs ++ new ∷ []) ≡ first (has_name other) rs
  first-append_other other [] h = rw h refl
  first-append_other other (r ∷ rs) h = rw (first-append_other other rs h) refl

-- Registering a rule keeps the names distinct. Afterwards its name stands for one row: the new row, or,
-- if the name was taken, the old row with the given check, action and severity, which keeps its
-- trigger, its counters and whether it is enabled. What another name stands for does not change.
pub register_prevention_rule-IsDistinct :
    (now rule_name trigger_event check_query action_on_match severity : String) (source : Option ℕ)
    (st : RuleStore) (other : String)
    → IsDistinct st.rules
    → str_eq other rule_name ≡ false
    → IsDistinct
        (register_prevention_rule now rule_name trigger_event check_query action_on_match severity
          source st).1.rules
      × (first
            (has_name rule_name)
            (register_prevention_rule now rule_name trigger_event check_query action_on_match
              severity source st).1.rules
          ≡ some (
              registered_row now rule_name trigger_event check_query action_on_match severity source
                st))
      × (first
            (has_name other)
            (register_prevention_rule now rule_name trigger_event check_query action_on_match
              severity source st).1.rules
          ≡ first (has_name other) st.rules)
unfolding register_prevention_rule registered_row
register_prevention_rule-IsDistinct now name trigger check action severity source st other d h =
    elim (Bool-cases (any (has_name name) st.rules)) [
      | inl e ↦
          let (old, f, g) = first-rewrite name check action severity st.rules e in
          rw (e, registered_row, f)
            (
              rewrite-IsDistinct name check action severity st.rules d,
              g,
              first-rewrite_other name check action severity other st.rules h,
            )
      | inr e ↦
          let new : PreventionRule = record {
            id = st.next_id;
            rule_name = name;
            trigger_event = trigger;
            check_query = check;
            action_on_match = action;
            severity = severity;
            source_detection_id = source;
            times_triggered = 0;
            enabled = true;
            created_at = now;
            last_evaluated_at = none;
            evaluation_count = 0;
            last_error = none;
            last_check_query_ms = none;
          } in
          let apart_from = is_new new st.rules e in
          let (f, g) = first-append_new new st.rules apart_from in
          rw (e, registered_row, f)
            (
              append-IsDistinct new st.rules apart_from d,
              g,
              first-append_other new other st.rules (turned_name other name h),
            )
    ]
