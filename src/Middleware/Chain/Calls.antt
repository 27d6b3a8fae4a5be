-- ===== src/Middleware/Chain/Calls.antt =====
-- What a call through the middleware chain of core/middleware/chain.py comes to.
use elite_reasoning_mcp.Prelude.{
  ℕ, suc, ◌≡◌, refl, ◌∙◌, ap, false, ◌⊎◌, inl, inr, none, some, List, [], keep, arith, Option-cases,
  Sum-cases,
}
use elite_reasoning_mcp.Middleware.{Raised, CallContext, Value, CallResult, Middleware, matches}
use elite_reasoning_mcp.Middleware.Attempts.{after_calls, Retried, Tried, Attempts-Tried}
use elite_reasoning_mcp.Middleware.Chain.Onion.{onion, run_after-onion}
use elite_reasoning_mcp.Middleware.Retry.{
  Ending, limit_of, is_retried, Attempts, execute-Attempts, Attempts-Bounded, Bounded,
}
use elite_reasoning_mcp.Middleware.Chain.{
  Args, PreState, PostState, note_attempts, Outcome, returned, raised, render, run_before, retry_of,
  fallback_of, failure_of, conclude, continue_call, wrap,
}

module _ {W : Type 0} (middlewares : List (Middleware W)) (call : Args → W → W × (Raised ⊎ Value))
    (ctx : CallContext) (w : W) where
  abbrev pub relevant : List (Middleware W)
  relevant = keep (λ (mw : Middleware W). matches mw ctx.tool_name) middlewares

  abbrev pub pre : PreState W
  pre = run_before relevant ctx w

  abbrev pub tool : W → W × (Raised ⊎ Value)
  tool = call pre.context.args

  -- The tool was called, with at most as many repetitions as its retries allow.
  pub record Called (out : W × Outcome) : Type 0 where
    pub ending : Ending W
    pub unanswered : pre.answer ≡ none
    pub attempts : Attempts (retry_of relevant) tool 0 pre.world ending
    pub bounded : Bounded (retry_of relevant) tool 0 ending
    pub concluded : out ≡ conclude relevant pre.context ending

  -- A hook before the call answered, and the tool was not called.
  pub record Answered (out : W × Outcome) : Type 0 where
    pub answer : CallResult
    pub answered : pre.answer ≡ some answer
    pub shown : out ≡ (pre.world, returned (render answer))

  -- The wrapped function always comes to an outcome: what the first answering hook returned, with
  -- no call of the tool, or the conclusion of a sequence of attempts that the retries bound.
  pub wrap-Called :
      (out : W × Outcome) × (wrap middlewares call ctx w ≡ some out) × (Answered out ⊎ Called out)
  unfolding wrap continue_call
  wrap-Called = elim (Option-cases pre.answer) [
    | inr (answer, a) ↦ (
      (pre.world, returned (render answer)),
      rw (a, continue_call) refl,
      inl (record { answer = answer; answered = a; shown = refl }),
    )
    | inl a ↦
        let (e, f, r) =
          execute-Attempts (retry_of relevant) tool (suc (limit_of (retry_of relevant))) 0 pre.world
            (omega arith) (omega arith) in
        (
          conclude relevant pre.context e,
          rw (a, continue_call) (rw f refl),
          inr (record {
            ending = e;
            unanswered = a;
            attempts = r;
            bounded = Attempts-Bounded (retry_of relevant) tool 0 pre.world e (omega arith) r;
            concluded = refl;
          }),
        )
  ]

  -- the result of the tool as the hooks after the call get it, after so many retries
  abbrev pub first_post : ℕ → W → Value → PostState W
  first_post n u value = record {
    world = u;
    context = note_attempts n pre.context;
    result = record { value = value; short_circuited = false; augmentations = [] };
  }

  -- What an outcome says of the calls of the tool. Some calls, from the state that the hooks before
  -- left, each raised an error that is retried at its number; the one after them returned a value,
  -- which went through the hooks after, the last middleware first, and was rendered, or it raised an
  -- error that is not retried at its number, which is the one that is raised, made safe.
  unfoldable pub Faithful : W × Outcome → Type 0
  Faithful (w', returned v) =
      (n : ℕ) × (u : W) × (value : Value) × Retried (retry_of relevant) tool n 0 pre.world
      × (tool (after_calls (retry_of relevant) tool n pre.world) ≡ (u, inr value))
      × (w' ≡ (onion relevant (first_post n u value)).world)
      × (v ≡ render (onion relevant (first_post n u value)).result)
  Faithful (w', raised failure) =
      (n : ℕ) × (error : Raised) × Retried (retry_of relevant) tool n 0 pre.world
      × (tool (after_calls (retry_of relevant) tool n pre.world) ≡ (w', inl error))
      × (is_retried (retry_of relevant) error n ≡ false)
      × (failure ≡ failure_of (fallback_of relevant) pre.context.tool_name error)

  conclude_raised :
      (e : Ending W) (error : Raised)
      → e.result ≡ inl error
      → conclude relevant pre.context e
        ≡ (e.world, raised (failure_of (fallback_of relevant) pre.context.tool_name error))
  unfolding conclude
  conclude_raised e error k = rw (k, conclude) refl

  conclude_returned :
      (e : Ending W) (value : Value)
      → e.result ≡ inr value
      → conclude relevant pre.context e ≡ (
        (onion relevant (first_post e.attempts e.world value)).world,
        returned (render (onion relevant (first_post e.attempts e.world value)).result),
      )
  unfolding conclude
  conclude_returned e value k =
      rw (k, conclude) (rw (run_after-onion relevant (first_post e.attempts e.world value)) refl)

  conclude-Faithful :
      (e : Ending W)
      → Tried (retry_of relevant) tool 0 pre.world e
      → Faithful (conclude relevant pre.context e)
  unfolding Faithful
  conclude-Faithful e t =
      let same : e.attempts ≡ t.more = omega (arith, t.counted) in
      elim (Sum-cases e.result) [
        | inl (error, k) ↦ rw (conclude_raised e error k) (
          t.more,
          error,
          t.retried,
          t.last ∙ ap (λ r. (e.world, r)) k,
          rw same at (t.ended error k),
          refl,
        )
        | inr (value, k) ↦
            rw (conclude_returned e value k, same)
              (t.more, e.world, value, t.retried, t.last ∙ ap (λ r. (e.world, r)) k, refl, refl)
      ]

  -- If no hook answers before the call: some calls of the tool each raise an error that is retried at
  -- its number, and the next one ends the call. If it returns a value, that value is returned as the
  -- hooks after, the last middleware first, have left it, with their notes in front; if it raises an
  -- error, which is then not retried at its number, that error is raised, made safe.
  pub wrap-Faithful :
      (out : W × Outcome)
      → pre.answer ≡ none
      → wrap middlewares call ctx w ≡ some out
      → Faithful out
  wrap-Faithful out a h =
      let (o, k, c) = wrap-Called in
      let same : o ≡ out = ground (arith, h, k) in
      elim c [
        | inl answered ↦ let x = answered.answered in absurd (ground arith)
        | inr called ↦
            let tried =
              Attempts-Tried (retry_of relevant) tool 0 pre.world called.ending called.attempts in
            rw (← same) (rw called.concluded (conclude-Faithful called.ending tried))
      ]
