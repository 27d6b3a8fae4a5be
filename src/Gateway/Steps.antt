-- ===== src/Gateway/Steps.antt =====
-- The progress updates of elite_verify (core/tools/gateway.py).
use elite_reasoning_mcp.Prelude.{
  ℕ, ◌≤◌, ◌<◌, String, ◌≡◌, ◌↔◌, refl, sym, ap, ◌∙◌, Bool, true, false, not, ◌&&◌, ◌||◌, ◌⊎◌, inl,
  inr, none, some, List, [], ◌∷◌, map, arith, All, any, keep, first, ltb, ltb→lt, ◌==◌, Bool-cases,
  Option-cases, str_eq, is_blank, strip, lower, elem,
}
use elite_reasoning_mcp.Prelude.Sort.{sort_by, All-sort_by}
use elite_reasoning_mcp.Workflow.{
  Boundary, Run, Step, Store, step_le, is_step, steps_of, read_step, set_run_status,
  get_workflow_run, update_workflow_step,
}
use elite_reasoning_mcp.Continuity.{next_continuation}
use elite_reasoning_mcp.Gateway.Recording.{has_run-get}
use elite_reasoning_mcp.Gateway.{
  Gateway, validation_error, WorkflowReply, progress_statuses, terminal_statuses, done_statuses,
  is_unfinished, progress_error, workflow_reply, progress,
}

-- An update that is allowed: it names a step of a stored run and a known status, explains a final one,
-- and completes a step only after the earlier ones.
pub record IsAllowed (gw : Gateway) (st : Store) (run_id : String) (step_index : ℕ)
    (status query : String) : Type 0 where
  pub numbered : 1 ≤ step_index
  pub known : elem status progress_statuses ≡ true
  pub run : Run
  pub steps : List Step
  pub is_stored : get_workflow_run gw.server.boundary run_id st ≡ some (run, steps)
  pub is_step : any (λ (s : Step). s.step_index == step_index) steps ≡ true
  pub explained : elem status terminal_statuses ≡ true → is_blank query ≡ false
  pub in_order :
      elem status done_statuses ≡ true
      → All (λ (s : Step). s.step_index < step_index → elem s.status done_statuses ≡ true) steps

in_order_of :
    (step_index : ℕ) (steps : List Step)
    → any (is_unfinished step_index) steps ≡ false
    → All (λ (s : Step). s.step_index < step_index → elem s.status done_statuses ≡ true) steps
in_order_of step_index [] h = tt
in_order_of step_index (s ∷ steps) h = (
  (λ lt. finished s.step_index (elem s.status done_statuses) lt (ground arith)),
  in_order_of step_index steps (ground arith),
)
  where
    finished :
        (i : ℕ) (done : Bool)
        → i < step_index
        → (ltb i step_index && not done) ≡ false
        → done ≡ true
    finished i done lt k = ground arith

finished_of :
    (step_index : ℕ) (steps : List Step)
    → All (λ (s : Step). s.step_index < step_index → elem s.status done_statuses ≡ true) steps
    → any (is_unfinished step_index) steps ≡ false
finished_of step_index [] h = refl
finished_of step_index (s ∷ steps) h =
    rw (all_done s.step_index (elem s.status done_statuses) h.0) (finished_of step_index steps h.1)
  where
    all_done :
        (i : ℕ) (done : Bool)
        → (i < step_index → done ≡ true)
        → (ltb i step_index && not done) ≡ false
    all_done i true k = ground arith
    all_done i false k = elim (Bool-cases (ltb i step_index)) [
      | inl e ↦ absurd (ground (arith, k (ltb→lt i step_index e)))
      | inr e ↦ ground arith
    ]

-- The tests of a progress update, on the steps that it reads.
abbrev step_error : List Step → ℕ → String → String → Bool
step_error steps step_index status query =
    not (any (λ (s : Step). s.step_index == step_index) steps)
    || (elem status terminal_statuses && is_blank query)
    || (elem status done_statuses && any (is_unfinished step_index) steps)

module _ (gw : Gateway) (st : Store) (run_id : String) (step_index : ℕ)
    (status query : String) where
  IsAllowed-of :
      progress_error gw st run_id step_index status query ≡ none
      → IsAllowed gw st run_id step_index status query
  unfolding progress_error
  IsAllowed-of h = elim (Option-cases (get_workflow_run gw.server.boundary run_id st)) [
    | inl g ↦ absurd (ground arith)
    | inr ((run, steps), g) ↦
        let known : (step_index == 0 || not (elem status progress_statuses)) ≡ false =
          ground arith in
        let clear = rw (known, g, progress_error) at h in
        let step_clear : step_error steps step_index status query ≡ false = ground arith in
        record {
          numbered = ground arith;
          known = ground arith;
          run = run;
          steps = steps;
          is_stored = g;
          is_step = ground arith;
          explained = λ t. ground arith;
          in_order = λ t. in_order_of step_index steps (ground arith);
        }
  ]

  in_order_test :
      (a : IsAllowed gw st run_id step_index status query)
      → (elem status done_statuses && any (is_unfinished step_index) a.steps) ≡ false
  in_order_test a = elim (Bool-cases (elem status done_statuses)) [
    | inl d ↦ rw d (finished_of step_index a.steps (a.in_order d))
    | inr d ↦ rw d refl
  ]

  progress_error-none :
      IsAllowed gw st run_id step_index status query
      → progress_error gw st run_id step_index status query ≡ none
  unfolding progress_error
  progress_error-none a =
      let numbered : (step_index == 0) ≡ false = ground (arith, a.numbered) in
      let ordered = in_order_test a in
      rw (numbered, a.known, a.is_stored, a.is_step)
        (elim (Bool-cases (elem status terminal_statuses)) [
          | inl t ↦ rw (t, a.explained t) (rw ordered refl)
          | inr t ↦ rw t (rw ordered refl)
        ])

-- A step that was read is stored.
any-false : (p : Step → Bool) (ss : List Step) → (any p ss ≡ false) ↔ All (λ s. p s ≡ false) ss
any-false p [] = ((λ h. tt), (λ h. refl))
any-false p (s ∷ ss) = elim (Bool-cases (p s)) [
  | inl e ↦ rw e ((λ h. absurd (ground arith)), (λ h. absurd (ground (arith, h.0))))
  | inr e ↦ rw e ((λ h. (refl, (any-false p ss).0 h)), (λ h. (any-false p ss).1 h.1))
]

kept_step :
    (rid : String) (i : ℕ) (ss : List Step)
    → any (λ (s : Step). s.step_index == i) (keep (λ (s : Step). str_eq s.run_id rid) ss)
      ≡ any (is_step rid i) ss
kept_step rid i [] = refl
kept_step rid i (s ∷ ss) = ground (arith, kept_step rid i ss)

read_steps :
    (b : Boundary) (i : ℕ) (ss : List Step)
    → any (λ (s : Step). s.step_index == i) (map (read_step b) ss)
      ≡ any (λ (s : Step). s.step_index == i) ss
read_steps b i [] = refl
read_steps b i (s ∷ ss) = ap (λ rest. s.step_index == i || rest) (read_steps b i ss)

read_back :
    (b : Boundary) (rid : String) (st : Store) (run : Run) (steps : List Step)
    → get_workflow_run b rid st ≡ some (run, steps)
    → steps ≡ map (read_step b) (steps_of rid st)
unfolding get_workflow_run
read_back b rid st run steps h =
    elim (Option-cases (first (λ (r : Run). str_eq r.run_id rid) st.runs)) [
      | inl e ↦ absurd (ground arith)
      | inr (r, e) ↦
          let k : some (r, map (read_step b) (steps_of rid st)) ≡ some (run, steps) =
            rw (e, get_workflow_run) at h in
          sym (ap (λ o. elim o [ none ↦ [] | some (x, ss) ↦ ss ]) k)
    ]

stored_step :
    (b : Boundary) (rid : String) (i : ℕ) (st : Store) (run : Run) (steps : List Step)
    → get_workflow_run b rid st ≡ some (run, steps)
    → any (λ (s : Step). s.step_index == i) steps ≡ true
    → any (is_step rid i) st.steps ≡ true
unfolding steps_of
stored_step b rid i st run steps g h = elim (Bool-cases (any (is_step rid i) st.steps)) [
  | inl e ↦ e
  | inr e ↦
      let p = λ (s : Step). s.step_index == i in
      let rows = keep (λ (s : Step). str_eq s.run_id rid) st.steps in
      let none_kept = (any-false p rows).0 (kept_step rid i st.steps ∙ e) in
      let none_sorted =
        (any-false p (sort_by step_le rows)).1
          (All-sort_by step_le (λ s. p s ≡ false) rows none_kept) in
      let none_read =
        ap (any p) (read_back b rid st run steps g)
        ∙ read_steps b i (sort_by step_le rows)
        ∙ none_sorted in
      absurd (ground arith)
]

run_kept :
    (now : ℕ) (rid status : String) (runs : List Run)
    → any (λ (r : Run). str_eq r.run_id rid) (set_run_status now rid status runs)
      ≡ any (λ (r : Run). str_eq r.run_id rid) runs
unfolding set_run_status
run_kept now rid status [] = refl
run_kept now rid status (r ∷ runs) = ground (arith, run_kept now rid status runs)

first_run :
    (rid : String) (runs : List Run)
    → any (λ (r : Run). str_eq r.run_id rid) runs ≡ true
    → (r : Run) × (first (λ (r : Run). str_eq r.run_id rid) runs ≡ some r)
first_run rid [] h = absurd (ground arith)
first_run rid (x ∷ runs) h = elim (Bool-cases (str_eq x.run_id rid)) [
  | inl e ↦ (x, rw e refl)
  | inr e ↦ let (r, k) = first_run rid runs (rw e at h) in (r, rw e k)
]

module _ (gw : Gateway) (st : Store) (run_id : String) where
  replies :
      any (λ (r : Run). str_eq r.run_id run_id) st.runs ≡ true
      → (r : WorkflowReply) × (workflow_reply gw st run_id ≡ inr r)
  unfolding workflow_reply get_workflow_run
  replies h =
      let (r, e) = first_run run_id st.runs h in
      (
        record {
          run = r;
          steps = map (read_step gw.server.boundary) (steps_of run_id st);
          continuation = next_continuation gw.server.boundary st run_id;
        },
        rw (e, workflow_reply) refl,
      )

  stored_run :
      (run : Run) (steps : List Step)
      → get_workflow_run gw.server.boundary run_id st ≡ some (run, steps)
      → any (λ (r : Run). str_eq r.run_id run_id) st.runs ≡ true
  stored_run run steps g = has_run-get gw.server.boundary run_id st run steps g

module _ (gw : Gateway) (now : ℕ) (st : Store) (run_id : String) (step_index : ℕ)
    (command query : String) where
  abbrev pub updated : Bool × Store
  updated =
      update_workflow_step gw.server.boundary now run_id step_index (lower (strip command)) query st

  abbrev pub Accepts : Type 0
  Accepts =
      IsAllowed gw st run_id step_index (lower (strip command)) query
      × ((r : WorkflowReply) × (progress gw now st run_id step_index command query
            ≡ (inr r, updated.1)))

  abbrev pub Refuses : Type 0
  Refuses =
      (IsAllowed gw st run_id step_index (lower (strip command)) query → ⊥)
      × ((message : String) × (progress gw now st run_id step_index command query
            ≡ (inl (validation_error message), st)))

  written :
      any (is_step run_id step_index) st.steps ≡ true
      → any (λ (r : Run). str_eq r.run_id run_id) st.runs ≡ true
      → (updated.0 ≡ true) × (any (λ (r : Run). str_eq r.run_id run_id) updated.1.runs ≡ true)
  unfolding update_workflow_step
  written s r = rw s (refl, run_kept now run_id _ st.runs ∙ r)

  progress_made :
      progress_error gw st run_id step_index (lower (strip command)) query ≡ none
      → updated.0 ≡ true
      → progress gw now st run_id step_index command query
        ≡ (workflow_reply gw updated.1 run_id, updated.1)
  unfolding progress
  progress_made e ok = rw (e, ok, progress) refl

  progress_refused :
      (message : String)
      → progress_error gw st run_id step_index (lower (strip command)) query ≡ some message
      → progress gw now st run_id step_index command query ≡ (inl (validation_error message), st)
  unfolding progress
  progress_refused message e = rw (e, progress) refl

  -- A progress update either is allowed and makes exactly the update of the store, with an answer; or
  -- it is not allowed, is refused with an error, and changes nothing.
  pub progress-decides : Accepts ⊎ Refuses
  progress-decides =
      let status = lower (strip command) in
      elim (Option-cases (progress_error gw st run_id step_index status query)) [
        | inr (message, e) ↦ inr (
          (λ a.
              let k = sym (progress_error-none gw st run_id step_index status query a) ∙ e in
              absurd (ground arith)),
          (message, progress_refused message e),
        )
        | inl e ↦
            let a = IsAllowed-of gw st run_id step_index status query e in
            let s =
              stored_step gw.server.boundary run_id step_index st a.run a.steps a.is_stored
                a.is_step in
            let (ok, still) = written s (stored_run gw st run_id a.run a.steps a.is_stored) in
            let (reply, k) = replies gw updated.1 run_id still in
            inl (a, (reply, progress_made e ok ∙ ap (λ x. (x, updated.1)) k))
      ]
