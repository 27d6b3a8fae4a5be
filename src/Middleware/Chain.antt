-- ===== src/Middleware/Chain.antt =====
-- `MiddlewareChain.wrap` of core/middleware/chain.py: the hooks before, the attempts, the hooks
-- after in the reverse order, and the augmentations in front of the value. The tool is given the
-- arguments of the context as the hooks before leave them: a hook changes that dictionary in place,
-- and does not put another one into the context.
pub mod Calls
pub mod Onion
use Prim.Native.String.{◌++◌ as ◌+++◌}
use elite_reasoning_mcp.Prelude.{
  ℕ, suc, String, Bool, true, false, ◌==◌, ◌⊎◌, inl, inr, Option, none, some, List, [], ◌∷◌, ◌++◌,
  if◌then◌else◌, keep, first,
}
use elite_reasoning_mcp.GitDiff.Paths.{join}
use elite_reasoning_mcp.Middleware.{
  EliteToolError, Raised, elite, other, is_transient_error, with_fallbacks, CallContext, number,
  set_entry, Value, text, model, structured, CallResult, Before, failed, go_on, early,
  RetryMiddleware, AfterHook, Middleware, matches, fallbacks_for,
}
use elite_reasoning_mcp.Middleware.Retry.{Ending, execute, limit_of}

-- `_render`
unfoldable pub render : CallResult → Value
unfolding join
render result = elim result.augmentations [
  | [] ↦ result.value
  | note ∷ notes ↦ elim result.value [
    | text s ↦ text (join "\n\n" (note ∷ notes) +++ ("\n\n---\n\n" +++ s))
    | model payload warnings ↦ model payload (note ∷ notes)
    | structured payload ↦ structured payload
  ]
]

-- What the wrapped function does: return a value or raise an error.
pub data Outcome : Type 0 where
  returned : Value → Outcome
  raised : EliteToolError → Outcome

unfoldable pub safe_error : String → Raised → EliteToolError
unfolding is_transient_error
safe_error tool_name (elite error) = error
safe_error tool_name (other error) = record {
  code = "tool_execution_failed";
  message = "Tool `" +++ (tool_name +++ "` failed safely. Inspect local diagnostics for details.");
  retryable = is_transient_error error;
  fallback_tools = [];
}

abbrev pub find_some {ℓ κ} : {A : Type ℓ} {B : Type κ} → (A → Option B) → List A → Option B
find_some f [] = none
find_some f (x ∷ xs) = elim (f x) [ none ↦ find_some f xs | some b ↦ some b ]

unfoldable pub failure_of : Option (List (String × List String)) → String → Raised → EliteToolError
unfolding safe_error with_fallbacks fallbacks_for
failure_of none tool_name error = safe_error tool_name error
failure_of (some registry) tool_name error =
    with_fallbacks (safe_error tool_name error) (fallbacks_for registry tool_name)

pub record PreState (W : Type 0) : Type 0 where
  pub world : W
  pub context : CallContext
  pub answer : Option CallResult

pub record PostState (W : Type 0) : Type 0 where
  pub world : W
  pub context : CallContext
  pub result : CallResult

abbrev pub note_attempts : ℕ → CallContext → CallContext
note_attempts n ctx =
    if n == 0
    then ctx
    else record ctx { metadata = set_entry "retry_attempts" (number n) ctx.metadata }

abbrev pub Args : Type 0
Args = List (String × String)

module _ {W : Type 0} where
  -- the loop of the hooks before; the first result ends it
  unfoldable pub run_before : List (Middleware W) → CallContext → W → PreState W
  run_before [] ctx w = record { world = w; context = ctx; answer = none }
  run_before (mw ∷ rest) ctx w =
      let step = mw.before ctx w in
      let continued = run_before rest step.1 step.0 in
      elim step.2 [
        | failed ↦ continued
        | go_on ↦ continued
        | early result ↦ record {
          world = step.0;
          context = step.1;
          answer = some (record result { short_circuited = true });
        }
      ]

  abbrev pub after_one : Middleware W → PostState W → PostState W
  after_one mw s =
      let step = mw.after s.context s.result s.world in
      record {
        world = step.world;
        context = step.context;
        result = elim step.returned [ none ↦ step.mutated | some result ↦ result ];
      }

  -- the loop of the hooks after, over a list in its order
  unfoldable pub run_after : List (Middleware W) → PostState W → PostState W
  run_after [] s = s
  run_after (mw ∷ rest) s = run_after rest (after_one mw s)

  -- `reversed`
  unfoldable pub reverse_onto : List (Middleware W) → List (Middleware W) → List (Middleware W)
  reverse_onto done [] = done
  reverse_onto done (mw ∷ rest) = reverse_onto (mw ∷ done) rest

  abbrev pub retry_of : List (Middleware W) → Option RetryMiddleware
  retry_of relevant = find_some (λ (mw : Middleware W). mw.retry) relevant

  abbrev pub fallback_of : List (Middleware W) → Option (List (String × List String))
  fallback_of relevant = find_some (λ (mw : Middleware W). mw.fallback) relevant

  -- from the ending of the attempts on
  unfoldable pub conclude : List (Middleware W) → CallContext → Ending W → W × Outcome
  unfolding set_entry failure_of run_after reverse_onto render
  conclude relevant ctx ending = elim ending.result [
    | inl error ↦ (ending.world, raised (failure_of (fallback_of relevant) ctx.tool_name error))
    | inr value ↦
        let post = run_after (reverse_onto [] relevant) (record {
          world = ending.world;
          context = note_attempts ending.attempts ctx;
          result = record { value = value; short_circuited = false; augmentations = [] };
        }) in
        (post.world, returned (render post.result))
  ]

  -- after the hooks before; `none` if the fuel, one round more than there are retries, ran out
  unfoldable pub continue_call :
      List (Middleware W) → (Args → W → W × (Raised ⊎ Value)) → PreState W → Option (W × Outcome)
  unfolding conclude execute render
  continue_call relevant call pre = elim pre.answer [
    | some result ↦ some (pre.world, returned (render result))
    | none ↦
        elim (execute (retry_of relevant) (call pre.context.args)
          (suc (limit_of (retry_of relevant))) 0 pre.world) [
            | none ↦ none
            | some ending ↦ some (conclude relevant pre.context ending)
          ]
  ]

  unfoldable pub wrap :
      List (Middleware W)
      → (Args → W → W × (Raised ⊎ Value))
      → CallContext
      → W
      → Option (W × Outcome)
  unfolding run_before continue_call matches
  wrap middlewares call ctx w =
      let relevant = keep (λ (mw : Middleware W). matches mw ctx.tool_name) middlewares in
      continue_call relevant call (run_before relevant ctx w)
