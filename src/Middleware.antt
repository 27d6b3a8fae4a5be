-- ===== src/Middleware.antt =====
-- The middleware chain around a tool: core/tools/errors.py, core/middleware/base.py, fallback.py and
-- chain.py. A tool and the hooks of a middleware change a state `W` of their own, which is passed
-- along. Times are milliseconds; the clock and the logs are left out.
pub mod Retry
pub mod Attempts
pub mod Chain
mod Tests
use Prim.Native.String.{◌++◌ as ◌+++◌}
use Prim.Native.Nat.{◌^◌}
use elite_reasoning_mcp.Prelude.{
  ℕ, ◌*◌, String, Bool, true, false, ◌||◌, ◌⊎◌, inl, inr, Option, none, some, List, [], ◌∷◌, ◌++◌,
  if◌then◌else◌, leb, str_eq, starts_with, any, keep, first, lower, contains, elem,
}
use elite_reasoning_mcp.Prelude.Nil.{is_nil}
use elite_reasoning_mcp.GitDiff.Paths.{join}

abbrev pub transient_error_markers : List String
transient_error_markers =
    "sqlite_busy" ∷ "database is locked" ∷ "connection refused" ∷ "timeout" ∷ "rate limit" ∷ "429"
    ∷ "503" ∷ "temporary failure" ∷ []

unfoldable pub is_transient_error : String → Bool
unfolding lower contains
is_transient_error error = any (λ marker. contains marker (lower error)) transient_error_markers

pub record EliteToolError : Type 0 where
  pub code : String
  pub message : String
  pub retryable : Bool
  pub fallback_tools : List String

-- An exception of a tool: one of its own, or any other, with its text.
pub data Raised : Type 0 where
  elite : EliteToolError → Raised
  other : String → Raised

unfoldable pub with_fallbacks : EliteToolError → List String → EliteToolError
unfolding join
with_fallbacks error tools = if is_nil tools then error else record error {
  message = error.message +++ (" Try: " +++ (join ", " tools +++ "."));
  fallback_tools = tools;
}

pub data Entry : Type 0 where
  number : ℕ → Entry
  texts : List String → Entry
  phrase : String → Entry

pub record CallContext : Type 0 where
  pub tool_name : String
  pub args : List (String × String)
  pub session_id : String
  pub metadata : List (String × Entry)

unfoldable pub set_entry : String → Entry → List (String × Entry) → List (String × Entry)
set_entry key e entries =
    keep (λ (kv : String × Entry). if str_eq kv.0 key then false else true) entries ++ (key, e) ∷ []

-- What a tool returns: a text, a model with a field `warnings`, or anything else.
pub data Value : Type 0 where
  text : String → Value
  model : String → List String → Value
  structured : String → Value

pub record CallResult : Type 0 where
  pub value : Value
  pub short_circuited : Bool
  pub augmentations : List String

-- What `before` does: raise, return None, or return a result.
pub data Before : Type 0 where
  failed : Before
  go_on : Before
  early : CallResult → Before

pub record RetryMiddleware : Type 0 where
  pub max_retries : ℕ
  pub initial_delay : ℕ
  pub backoff_factor : ℕ

pub record AfterHook (W : Type 0) : Type 0 where
  pub world : W
  pub context : CallContext
  pub mutated : CallResult
  pub returned : Option CallResult

-- `after` may change the result that it is given, and returns one or raises (`none`).
pub record Middleware (W : Type 0) : Type 0 where
  pub name : String
  pub applies_to : Option (List String)
  pub before : CallContext → W → W × CallContext × Before
  pub after : CallContext → CallResult → W → AfterHook W
  pub retry : Option RetryMiddleware
  pub fallback : Option (List (String × List String))

unfoldable pub matches : {W : Type 0} → Middleware W → String → Bool
unfolding elem
matches mw tool_name = elim mw.applies_to [ none ↦ true | some names ↦ elem tool_name names ]

unfoldable pub should_retry : RetryMiddleware → Raised → ℕ → Bool
unfolding is_transient_error
should_retry mw (elite error) attempt =
    if leb mw.max_retries attempt then false else error.retryable
should_retry mw (other error) attempt =
    if leb mw.max_retries attempt then false else is_transient_error error

unfoldable pub delay_for : RetryMiddleware → ℕ → ℕ
delay_for mw attempt = mw.initial_delay * mw.backoff_factor ^ attempt

unfoldable pub fallbacks_for : List (String × List String) → String → List String
fallbacks_for [] tool_name = []
fallbacks_for ((name, tools) ∷ registry) tool_name =
    if str_eq name tool_name then tools else fallbacks_for registry tool_name
