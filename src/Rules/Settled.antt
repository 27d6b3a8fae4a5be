-- ===== src/Rules/Settled.antt =====
-- What runs of ticks of core/learning/rule_lifecycle.py keep, and rules that oscillate.
use elite_reasoning_mcp.Prelude.{
  ℕ, suc, ◌+◌, ◌*◌, ◌≤◌, ◌<◌, max, ◌≡◌, ◌≢◌, refl, false, none, some, ◌⊎◌, ◌∙◌, List, [], ◌∷◌,
  arith, Option-cases, Bool-cases, inl, inr, ◌==◌, if◌then◌else◌, All,
}
use elite_reasoning_mcp.Rules.{
  LifecycleState, probation, active, dormant, retired, RuleState, Row, total_fires, truthy,
  dormant_threshold, next_state, snapshot, is_loaded, apply_transition, transition, changed_state,
  tick_rules, tick, same_state, load_all_rules,
}
use elite_reasoning_mcp.Rules.Ticks.{
  Fresh, DistinctIds, step_row, step_rows, tick-step_rows, apply_transition-id,
}

-- A retired rule is switched off and carries the time of its retirement.
pub record RetiredOff (w : Row) : Type 0 where
  pub off : w.lifecycle_state ≡ some retired → w.enabled ≡ false
  pub dated : w.lifecycle_state ≡ some retired → w.retired_at ≢ none

apply_transition-RetiredOff :
    (now : ℕ) (s : LifecycleState) (w : Row) → RetiredOff w → RetiredOff (apply_transition now s w)
unfolding apply_transition
apply_transition-RetiredOff now retired w h = record { off = λ e. refl; dated = λ e p. cc }
apply_transition-RetiredOff now s w h = record { off = λ e. cc; dated = λ e p. cc }

transition-RetiredOff :
    (now a : ℕ) (s : LifecycleState) (ws : List Row)
    → All RetiredOff ws
    → All RetiredOff (transition now a s ws)
unfolding transition
transition-RetiredOff now a s [] h = tt
transition-RetiredOff now a s (w ∷ ws) h = elim (Bool-cases (w.id == a)) [
  | inl e ↦ rw e (apply_transition-RetiredOff now s w h.0, transition-RetiredOff now a s ws h.1)
  | inr e ↦ rw e (h.0, transition-RetiredOff now a s ws h.1)
]

tick_rules-RetiredOff :
    (clock : ℕ → ℕ) (i : ℕ) (rs : List RuleState) (ws : List Row)
    → All RetiredOff ws
    → All RetiredOff (tick_rules clock i rs ws).0
unfolding tick_rules
tick_rules-RetiredOff clock i [] ws h = h
tick_rules-RetiredOff clock i (r ∷ rs) ws h = elim (Option-cases (changed_state (clock i) r)) [
  | inl e ↦ rw (e, tick_rules) (tick_rules-RetiredOff clock (suc i) rs ws h)
  | inr (s, e) ↦
      rw (e, tick_rules)
        (tick_rules-RetiredOff clock (suc i) rs (transition (clock i) r.id s ws)
          (transition-RetiredOff (clock i) r.id s ws h))
]

-- If every retired rule of the table is disabled and dated, that is so after a tick, whatever the
-- clock and the table.
pub tick-RetiredOff :
    (clock : ℕ → ℕ) (rows : List Row) → All RetiredOff rows → All RetiredOff (tick clock rows).0
unfolding tick
tick-RetiredOff clock rows h = tick_rules-RetiredOff clock 0 (load_all_rules rows) rows h

-- A rule that no tick can move: it is retired, or it is dormant and was never triggered.
abbrev pub IsSettled : Row → Type 0
IsSettled w =
    (w.lifecycle_state ≡ some retired)
    ⊎ ((w.lifecycle_state ≡ some dormant) × (truthy w.last_triggered_at ≡ none))

step_row-settled : (now : ℕ) (w : Row) → IsSettled w → step_row now w ≡ w
unfolding step_row changed_state next_state snapshot same_state
step_row-settled now w h = ground arith

step_row-id : (now : ℕ) (w : Row) → (step_row now w).id ≡ w.id
unfolding step_row
step_row-id now w = elim (Option-cases (changed_state now (snapshot w))) [
  | inl e ↦ rw (e, step_row) (ground arith)
  | inr (s, e) ↦ rw (e, step_row) (ground (arith, apply_transition-id now s w))
]

-- Row by row the ids are kept, and the settled rows are kept whole.
abbrev pub Kept : List Row → List Row → Type 0
Kept [] [] = Unit
Kept (w ∷ ws) (v ∷ vs) = (v.id ≡ w.id) × (IsSettled w → v ≡ w) × Kept ws vs
Kept _ _ = ⊥

Kept-refl : (ws : List Row) → Kept ws ws
Kept-refl [] = tt
Kept-refl (w ∷ ws) = (refl, (λ h. refl), Kept-refl ws)

Kept-trans : (us vs ws : List Row) → Kept us vs → Kept vs ws → Kept us ws
Kept-trans [] [] [] h k = tt
Kept-trans (u ∷ us) (v ∷ vs) (w ∷ ws) h k =
    (k.0 ∙ h.0, (λ s. let e = h.1 s in k.1 (rw e s) ∙ e), Kept-trans us vs ws h.2 k.2)
Kept-trans [] [] (w ∷ ws) h k = absurd k
Kept-trans [] (v ∷ vs) ws h k = absurd h
Kept-trans (u ∷ us) [] ws h k = absurd h
Kept-trans (u ∷ us) (v ∷ vs) [] h k = absurd k

step_rows-Kept : (clock : ℕ → ℕ) (i : ℕ) (ws : List Row) → Kept ws (step_rows clock i ws)
unfolding step_rows
step_rows-Kept clock i [] = tt
step_rows-Kept clock i (w ∷ ws) = (
  step_row-id (clock i) w,
  step_row-settled (clock i) w,
  step_rows-Kept clock (if is_loaded w then suc i else i) ws,
)

DistinctIds-Kept : (ws vs : List Row) → Kept ws vs → DistinctIds ws → DistinctIds vs
DistinctIds-Kept [] [] k d = tt
DistinctIds-Kept [] (v ∷ vs) k d = absurd k
DistinctIds-Kept (w ∷ ws) [] k d = absurd k
DistinctIds-Kept (w ∷ ws) (v ∷ vs) k d =
    (rw k.0 (Fresh-Kept w.id ws vs k.2 d.0), DistinctIds-Kept ws vs k.2 d.1)
  where
    Fresh-Kept : (a : ℕ) (us ts : List Row) → Kept us ts → Fresh a us → Fresh a ts
    Fresh-Kept a [] [] k f = tt
    Fresh-Kept a [] (t ∷ ts) k f = absurd k
    Fresh-Kept a (u ∷ us) [] k f = absurd k
    Fresh-Kept a (u ∷ us) (t ∷ ts) k f = (rw k.0 f.0, Fresh-Kept a us ts k.2 f.1)

-- Ticks one after another, each with its own readings of the clock.
unfoldable pub ticks : List (ℕ → ℕ) → List Row → List Row
ticks [] rows = rows
ticks (clock ∷ clocks) rows = ticks clocks (tick clock rows).0

-- On a table with distinct ids, no number of ticks adds or drops a row, changes an id, or changes
-- any field of a rule that is retired, or that is dormant and was never triggered. (So such a
-- dormant rule is never retired.)
pub ticks-Kept :
    (clocks : List (ℕ → ℕ)) (rows : List Row) → DistinctIds rows → Kept rows (ticks clocks rows)
unfolding ticks
ticks-Kept [] rows d = Kept-refl rows
ticks-Kept (clock ∷ clocks) rows d =
    let after : Kept rows (tick clock rows).0 =
      rw (tick-step_rows clock rows d) (step_rows-Kept clock 0 rows) in
    Kept-trans rows (tick clock rows).0 (ticks clocks (tick clock rows).0) after
      (ticks-Kept clocks (tick clock rows).0 (DistinctIds-Kept rows (tick clock rows).0 after d))

-- An active rule that fired within thirty days, often enough to be promoted from probation, and
-- whose false-positive rate is above 70 %, is demoted to probation; evaluated there with the same
-- counters, at any time, it is promoted to active again.
pub demoted_oscillates :
    (now later : ℕ) (r : RuleState) (t : ℕ)
    → r.lifecycle_state ≡ active
    → truthy r.last_triggered_at ≡ some t
    → now ≤ t + dormant_threshold
    → 50 ≤ r.evaluation_count
    → 5 * max 1 r.evaluation_count ≤ 100 * r.times_triggered
    → 70 * total_fires r < 100 * r.false_positive_count
    → (next_state now r ≡ some probation)
      × (next_state later (record r { lifecycle_state = probation }) ≡ some active)
unfolding next_state
demoted_oscillates now later r t a h n e f p = (ground arith, ground arith)
