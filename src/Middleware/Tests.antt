-- ===== src/Middleware/Tests.antt =====
-- Runs and instances of the model of core/middleware/chain.py, around a tool whose database is locked
-- for the first calls.
use elite_reasoning_mcp.Prelude.{
  ℕ, suc, String, ◌≡◌, refl, arith, true, ◌⊎◌, inl, inr, Option, none, some, List, [], ◌∷◌, ltb,
  if◌then◌else◌, lower, contains, elem,
}
use elite_reasoning_mcp.GitDiff.Paths.{join}
use elite_reasoning_mcp.Middleware.{
  Raised, other, CallContext, Value, text, go_on, Middleware, RetryMiddleware,
}
use elite_reasoning_mcp.Middleware.Retry.{Ending, execute, Attempts, execute-Attempts}
use elite_reasoning_mcp.Middleware.Chain.{
  Args, Outcome, returned, raised, wrap, run_after, reverse_onto,
}
use elite_reasoning_mcp.Middleware.Chain.Calls.{
  Called, Answered, wrap-Called, wrap-Faithful, Faithful, pre,
}

-- The state counts the calls; the first `locked` of them fail.
abbrev call : ℕ → Args → ℕ → ℕ × (Raised ⊎ Value)
call locked args n = (
  suc n,
  if ltb n locked then inl (other "OperationalError: Database is locked") else inr (text "ok"),
)

abbrev retrying : RetryMiddleware
retrying = record { max_retries = 2; initial_delay = 500; backoff_factor = 2 }

abbrev noting : String → Option RetryMiddleware → Middleware ℕ
noting note retry = record {
  name = note;
  applies_to = none;
  before = λ ctx w. (w, ctx, go_on);
  after = λ ctx result w. record {
    world = w;
    context = ctx;
    mutated = result;
    returned = some (record result { augmentations = note ∷ result.augmentations });
  };
  retry = retry;
  fallback = some (("search_decisions", "check_anti_patterns" ∷ []) ∷ []);
}

abbrev middlewares : List (Middleware ℕ)
middlewares = noting "first" none ∷ noting "second" (some retrying) ∷ []

abbrev ctx : CallContext
ctx = record { tool_name = "search_decisions"; args = []; session_id = "default"; metadata = [] }

program : Unit {0}
unfolding wrap lower contains elem join run_after reverse_onto execute
program = tt

two_failures :
    wrap middlewares (call 2) ctx 0 ≡ some (3, returned (text "first\n\nsecond\n\n---\n\nok"))
unfolding program
two_failures = refl

abbrev Suggests : Option (ℕ × Outcome) → Type 0
Suggests none = ⊥
Suggests (some (n, returned v)) = ⊥
Suggests (some (n, raised e)) =
    (n ≡ 3) × (e.retryable ≡ true) × (e.fallback_tools ≡ "check_anti_patterns" ∷ [])

three_failures : Suggests (wrap middlewares (call 3) ctx 0)
unfolding program
three_failures = (refl, refl, refl)

execute-Attempts_example :
    (e : Ending ℕ) × (execute (some retrying) (call 2 []) 3 0 0 ≡ some e)
    × Attempts (some retrying) (call 2 []) 0 0 e
execute-Attempts_example =
    execute-Attempts (some retrying) (call 2 []) 3 0 0 (omega arith) (omega arith)

wrap-Called_example :
    (out : ℕ × Outcome) × (wrap middlewares (call 2) ctx 0 ≡ some out)
    × (Answered middlewares (call 2) ctx 0 out ⊎ Called middlewares (call 2) ctx 0 out)
wrap-Called_example = wrap-Called middlewares (call 2) ctx 0

unanswered : (pre middlewares (call 2) ctx 0).answer ≡ none
unfolding program
unanswered = refl

wrap-Faithful_example :
    Faithful middlewares (call 2) ctx 0 (3, returned (text "first\n\nsecond\n\n---\n\nok"))
wrap-Faithful_example =
    wrap-Faithful middlewares (call 2) ctx 0 (3, returned (text "first\n\nsecond\n\n---\n\nok"))
      unanswered two_failures
