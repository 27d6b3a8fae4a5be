-- ===== src/Rules/Ticks.antt =====
-- What a tick of core/learning/rule_lifecycle.py does to the table, and what no tick can change.
use elite_reasoning_mcp.Prelude.{
  ℕ, suc, ◌≡◌, ◌≢◌, refl, sym, ap, none, some, List, [], ◌∷◌, arith, Option-cases, Bool-cases, inl,
  inr, ==_refl, if◌then◌else◌, All,
}
use elite_reasoning_mcp.Rules.{
  LifecycleState, RuleState, Row, snapshot, is_loaded, load_all_rules, apply_transition, transition,
  changed_state, tick_rules, tick,
}

abbrev pub Fresh : ℕ → List Row → Type 0
Fresh a = All (λ w. w.id ≢ a)

-- The ids of a table are a primary key.
abbrev pub DistinctIds : List Row → Type 0
DistinctIds [] = Unit
DistinctIds (w ∷ ws) = Fresh w.id ws × DistinctIds ws

abbrev Apart : ℕ → List RuleState → Type 0
Apart a = All (λ r. a ≢ r.id)

-- What a tick does to one row, at the time `now`.
unfoldable pub step_row : ℕ → Row → Row
step_row now w =
    if is_loaded w
    then elim (changed_state now (snapshot w)) [ none ↦ w | some s ↦ apply_transition now s w ]
    else w

-- Each row stepped by itself; only the rows that are loaded take a reading of the clock.
unfoldable pub step_rows : (ℕ → ℕ) → ℕ → List Row → List Row
step_rows clock i [] = []
step_rows clock i (w ∷ ws) =
    step_row (clock i) w ∷ step_rows clock (if is_loaded w then suc i else i) ws

pub apply_transition-id :
    (now : ℕ) (s : LifecycleState) (w : Row) → (apply_transition now s w).id ≡ w.id
unfolding apply_transition
apply_transition-id now s w = ground arith

transition-Fresh :
    (now a : ℕ) (s : LifecycleState) (ws : List Row) → Fresh a ws → transition now a s ws ≡ ws
unfolding transition
transition-Fresh now a s [] h = refl
transition-Fresh now a s (w ∷ ws) h = ground (arith, transition-Fresh now a s ws h.1)

transition-skip :
    (now a : ℕ) (s : LifecycleState) (w : Row) (ws : List Row)
    → w.id ≢ a
    → transition now a s (w ∷ ws) ≡ w ∷ transition now a s ws
unfolding transition
transition-skip now a s w ws h = ground arith

transition-head :
    (now : ℕ) (s : LifecycleState) (w : Row) (ws : List Row)
    → transition now w.id s (w ∷ ws) ≡ apply_transition now s w ∷ transition now w.id s ws
unfolding transition
transition-head now s w ws = ground (arith, ==_refl w.id)

transition-hit :
    (now : ℕ) (s : LifecycleState) (w : Row) (ws : List Row)
    → Fresh w.id ws
    → transition now w.id s (w ∷ ws) ≡ apply_transition now s w ∷ ws
transition-hit now s w ws h = rw (transition-head now s w ws, transition-Fresh now w.id s ws h)

-- Rules with other ids leave the first row alone.
tick_rules-cons :
    (clock : ℕ → ℕ) (i : ℕ) (rs : List RuleState) (w : Row) (ws : List Row)
    → Apart w.id rs
    → (tick_rules clock i rs (w ∷ ws)).0 ≡ w ∷ (tick_rules clock i rs ws).0
unfolding tick_rules
tick_rules-cons clock i [] w ws h = refl
tick_rules-cons clock i (r ∷ rs) w ws h = elim (Option-cases (changed_state (clock i) r)) [
  | inl e ↦ rw (e, tick_rules) (tick_rules-cons clock (suc i) rs w ws h.1)
  | inr (s, e) ↦
      rw (e, tick_rules)
        (rw (transition-skip (clock i) r.id s w ws h.0)
          (tick_rules-cons clock (suc i) rs w (transition (clock i) r.id s ws) h.1))
]

load-cons :
    (w : Row) (ws : List Row)
    → load_all_rules (w ∷ ws)
      ≡ (if is_loaded w then snapshot w ∷ load_all_rules ws else load_all_rules ws)
unfolding load_all_rules
load-cons w ws = ground arith

load-Apart : (a : ℕ) (ws : List Row) → Fresh a ws → Apart a (load_all_rules ws)
unfolding load_all_rules snapshot
load-Apart a [] h = tt
load-Apart a (w ∷ ws) h = elim (Bool-cases (is_loaded w)) [
  | inl e ↦ rw e ((λ p. h.0 (sym p)), load-Apart a ws h.1)
  | inr e ↦ rw e (load-Apart a ws h.1)
]

-- One loaded row: the rest of the tick finds it stepped, and leaves it so.
tick_rules-loaded :
    (clock : ℕ → ℕ) (i : ℕ) (w : Row) (ws : List Row)
    → Fresh w.id ws
    → (tick_rules clock i (snapshot w ∷ load_all_rules ws) (w ∷ ws)).0
      ≡ (elim (changed_state (clock i) (snapshot w)) [
        | none ↦ w
        | some s ↦ apply_transition (clock i) s w
      ])
        ∷ (tick_rules clock (suc i) (load_all_rules ws) ws).0
unfolding tick_rules snapshot
tick_rules-loaded clock i w ws h = elim (Option-cases (changed_state (clock i) (snapshot w))) [
  | inl e ↦
      rw (e, tick_rules)
        (tick_rules-cons clock (suc i) (load_all_rules ws) w ws (load-Apart w.id ws h))
  | inr (s, e) ↦
      rw (e, tick_rules)
        (rw (transition-hit (clock i) s w ws h) (
          tick_rules-cons clock (suc i) (load_all_rules ws) (apply_transition (clock i) s w) ws
            (rw (apply_transition-id (clock i) s w) (load-Apart w.id ws h))))
]

tick_rules-step_rows :
    (clock : ℕ → ℕ) (i : ℕ) (ws : List Row)
    → DistinctIds ws
    → (tick_rules clock i (load_all_rules ws) ws).0 ≡ step_rows clock i ws
unfolding step_rows step_row
tick_rules-step_rows clock i [] h = unfold tick_rules load_all_rules in refl
tick_rules-step_rows clock i (w ∷ ws) h = elim (Bool-cases (is_loaded w)) [
  | inr e ↦ rw (load-cons w ws) (
      rw e (
        rw (tick_rules-cons clock i (load_all_rules ws) w ws (load-Apart w.id ws h.0))
          (ap (λ (t : List Row). w ∷ t) (tick_rules-step_rows clock i ws h.1))))
  | inl e ↦ rw (load-cons w ws) (
      rw e (
        rw (tick_rules-loaded clock i w ws h.0) (
          ap
            (λ (t : List Row).
              (elim (changed_state (clock i) (snapshot w)) [
                | none ↦ w
                | some s ↦ apply_transition (clock i) s w
              ])
              ∷ t)
            (tick_rules-step_rows clock (suc i) ws h.1))))
]

-- On a table whose ids are distinct, a tick (which reads all rules first and then updates them one
-- by one by id) is the stepping of each row by itself.
pub tick-step_rows :
    (clock : ℕ → ℕ) (rows : List Row)
    → DistinctIds rows
    → (tick clock rows).0 ≡ step_rows clock 0 rows
unfolding tick
tick-step_rows clock rows h = tick_rules-step_rows clock 0 rows h
