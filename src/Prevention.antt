-- ===== src/Prevention.antt =====
-- core/middleware/prevention.py: the middleware that emits the events of a tool call to the event bus,
-- which stands in Prevention/Bus, over the table of Prevention/Rows.
mod Rows
mod Bus
pub mod Index
pub mod Counting
pub mod Names
pub mod Kept
pub mod Hooks
mod Tests
unfoldable pub use Rows.*
unfoldable pub use Bus.*
use Prim.Native.Nat.{◌%◌}
use Prim.Native.Char.{code}
use Prim.Native.String.{◌++◌ as ◌+++◌, count}
use elite_reasoning_mcp.Prelude.{
  ℕ, suc, ◌*◌, String, Bool, true, false, not, ◌&&◌, ◌||◌, Option, none, some, List, [], ◌∷◌, ◌++◌,
  map, ltb, leb, ◌==◌, if◌then◌else◌, str_eq, starts_with, lower, contains, words, elem, any, keep,
  take_chars, length,
}
use elite_reasoning_mcp.Prelude.Nil.{is_nil}
use elite_reasoning_mcp.GitDiff.Paths.{join}
use elite_reasoning_mcp.Middleware.{
  CallContext, CallResult, Entry, texts, phrase, set_entry, Before, go_on, AfterHook, Middleware,
}

abbrev pub reload_interval : ℕ
reload_interval = 50

abbrev pub exempt_tools : List String
exempt_tools = "get_user_profile" ∷ "update_user_config" ∷ []

-- The state of the middleware.
pub record Prevention : Type 0 where
  pub bus : EventBus
  pub eval_count : ℕ

unfoldable pub count_call : World → Prevention → Prevention
unfolding reload
count_call world p =
    let n = suc p.eval_count in
    record { bus = if n % reload_interval == 0 then reload world p.bus else p.bus; eval_count = n }

pub record Noted : Type 0 where
  pub context : CallContext
  pub warnings : List String
  pub bus : EventBus

-- the events of a tool that is given a prompt
unfoldable pub emit_prompt : World → EventPayload → Noted → Noted
unfolding emit phase_for_prompt take_chars set_entry
emit_prompt world payload n =
    let prompt = text_at n.context.args "user_prompt" "" in
    let with_prompt = payload ++ ("prompt", take_chars 500 prompt) ∷ [] in
    let (received, bus) = emit world "prompt.received" with_prompt n.bus in
    elim (phase_for_prompt prompt) [
      | none ↦ record n { warnings = n.warnings ++ received; bus = bus }
      | some phase ↦
          let (phased, bus') =
            emit world ("phase.before:" +++ phase) (with_prompt ++ ("phase", phase) ∷ []) bus in
          record {
            context = record n.context {
              metadata = set_entry "workflow_phase" (phrase phase) n.context.metadata;
            };
            warnings = n.warnings ++ (received ++ phased);
            bus = bus';
          }
    ]

unfoldable pub keep_warnings : List String → CallContext → CallContext
unfolding set_entry
keep_warnings [] ctx = ctx
keep_warnings (w ∷ ws) ctx = record ctx {
  metadata = set_entry "prevention_warnings" (texts (w ∷ ws)) ctx.metadata;
}

unfoldable pub tool_payload : CallContext → EventPayload
unfolding take_chars join
tool_payload ctx =
    ("tool_name", ctx.tool_name) ∷ ("args_text", take_chars 500 (join " " (values ctx.args))) ∷ []

unfoldable pub before_call : World → CallContext → Prevention → Prevention × CallContext × Before
unfolding count_call emit tool_payload emit_prompt keep_warnings elem
before_call world ctx p =
    let p' = count_call world p in
    let payload = tool_payload ctx in
    let (warnings, bus) = emit world ("tool.before:" +++ ctx.tool_name) payload p'.bus in
    let noted : Noted = record { context = ctx; warnings = warnings; bus = bus } in
    let n = if elem ctx.tool_name prompt_tools then emit_prompt world payload noted else noted in
    if elem ctx.tool_name exempt_tools
    then (p', ctx, go_on)
    else (record p' { bus = n.bus }, keep_warnings n.warnings n.context, go_on)

-- `none` is a value that no list can be added to.
abbrev pub warnings_of : Entry → Option (List String)
warnings_of (texts ws) = some ws
warnings_of v = none

-- `ctx.metadata.get("prevention_warnings", [])`
unfoldable pub kept_warnings : List (String × Entry) → Option (List String)
kept_warnings [] = some []
kept_warnings ((k, v) ∷ entries) =
    if str_eq k "prevention_warnings" then warnings_of v else kept_warnings entries

unfoldable pub add_warnings : List String → CallResult → CallResult
unfolding join
add_warnings [] result = result
add_warnings (w ∷ ws) result = record result {
  augmentations = ("Prevention: " +++ join " | " (w ∷ ws)) ∷ result.augmentations;
}

unfoldable pub after_call : World → CallContext → CallResult → Prevention → AfterHook Prevention
unfolding emit kept_warnings add_warnings
after_call world ctx result p =
    let (post_warnings, bus) =
      emit world ("tool.after:" +++ ctx.tool_name) (("tool_name", ctx.tool_name) ∷ []) p.bus in
    elim (kept_warnings ctx.metadata) [
      | none ↦ record {
        world = record p { bus = bus };
        context = ctx;
        mutated = result;
        returned = none;
      }
      | some warnings ↦ record {
        world = record p { bus = bus };
        context = ctx;
        mutated = add_warnings (warnings ++ post_warnings) result;
        returned = some (add_warnings (warnings ++ post_warnings) result);
      }
    ]

unfoldable pub prevention_middleware : World → Middleware Prevention
unfolding before_call after_call
prevention_middleware world = record {
  name = "prevention_rules";
  applies_to = none;
  before = before_call world;
  after = after_call world;
  retry = none;
  fallback = none;
}
