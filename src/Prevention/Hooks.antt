-- ===== src/Prevention/Hooks.antt =====
-- The hooks of the middleware around a tool call, whatever the database does.
use Prim.Native.String.{◌++◌ as ◌+++◌}
use elite_reasoning_mcp.Prelude.{
  ◌≤◌, String, ◌≡◌, refl, ◌∙◌, false, inl, inr, some, List, [], ◌∷◌, ◌++◌, arith, length, elem,
  str_eq, str_eq_iff, Bool-cases, Option-cases,
}
use elite_reasoning_mcp.Middleware.{
  CallContext, CallResult, go_on, AfterHook, Entry, texts, set_entry,
}
use elite_reasoning_mcp.Prevention.{
  World, EventPayload, emit, Prevention, count_call, Noted, emit_prompt, keep_warnings, before_call,
  kept_warnings, add_warnings, after_call, exempt_tools, text_at, phase_for_prompt, tool_payload,
  prompt_tools,
}
use elite_reasoning_mcp.Prevention.Kept.{rules_in, emit-rules, count_call-rules, emit_prompt-rules}

-- setting another entry of the metadata
kept_warnings-set_other :
    (key : String) (v : Entry) (m : List (String × Entry))
    → str_eq key "prevention_warnings" ≡ false
    → kept_warnings (set_entry key v m) ≡ kept_warnings m
unfolding set_entry kept_warnings
kept_warnings-set_other key v [] h = rw h refl
kept_warnings-set_other key v ((k, w) ∷ m) h = elim (Bool-cases (str_eq k key)) [
  | inl e ↦
      let g : str_eq k "prevention_warnings" ≡ false = rw ((str_eq_iff k key).0 e) h in
      rw (e, g) (kept_warnings-set_other key v m h)
  | inr e ↦ rw e (rw (kept_warnings-set_other key v m h) refl)
]

kept_warnings-set :
    (ws : List String) (m : List (String × Entry))
    → kept_warnings (set_entry "prevention_warnings" (texts ws) m) ≡ some ws
unfolding set_entry kept_warnings
kept_warnings-set ws [] = refl
kept_warnings-set ws ((k, w) ∷ m) = elim (Bool-cases (str_eq k "prevention_warnings")) [
  | inl e ↦ rw e (kept_warnings-set ws m)
  | inr e ↦ rw (e, e) (kept_warnings-set ws m)
]

-- the warnings of a context are a list
abbrev pub HasWarnings : CallContext → Type 0
HasWarnings ctx = (ws : List String) × (kept_warnings ctx.metadata ≡ some ws)

keep_warnings-HasWarnings :
    (ws : List String) (ctx : CallContext) → HasWarnings ctx → HasWarnings (keep_warnings ws ctx)
unfolding keep_warnings
keep_warnings-HasWarnings [] ctx h = h
keep_warnings-HasWarnings (w ∷ ws) ctx h = (w ∷ ws, kept_warnings-set (w ∷ ws) ctx.metadata)

keep_warnings-same :
    (ws : List String) (ctx : CallContext)
    → ((keep_warnings ws ctx).tool_name ≡ ctx.tool_name) × ((keep_warnings ws ctx).args ≡ ctx.args)
unfolding keep_warnings
keep_warnings-same [] ctx = (refl, refl)
keep_warnings-same (w ∷ ws) ctx = (refl, refl)

emit_prompt-HasWarnings :
    (world : World) (payload : EventPayload) (n : Noted)
    → HasWarnings n.context
    → HasWarnings (emit_prompt world payload n).context
      × ((emit_prompt world payload n).context.tool_name ≡ n.context.tool_name)
      × ((emit_prompt world payload n).context.args ≡ n.context.args)
unfolding emit_prompt
emit_prompt-HasWarnings world payload n h =
    elim (Option-cases (phase_for_prompt (text_at n.context.args "user_prompt" ""))) [
      | inl e ↦ rw (emit_prompt, e) (h, refl, refl)
      | inr (phase, e) ↦
          rw (emit_prompt, e)
            ((h.0, kept_warnings-set_other "workflow_phase" _ _ refl ∙ h.1), refl, refl)
    ]

add_warnings-same :
    (ws : List String) (result : CallResult)
    → ((add_warnings ws result).value ≡ result.value)
      × ((add_warnings ws result).short_circuited ≡ result.short_circuited)
      × ((lines : List String) × ((add_warnings ws result).augmentations
            ≡ lines ++ result.augmentations)
          × (length lines ≤ 1))
unfolding add_warnings
add_warnings-same [] result = (refl, refl, ([], refl, omega arith))
add_warnings-same (w ∷ ws) result = (refl, refl, (_ ∷ [], refl, omega arith))

-- A hook that returns a result, with at most one augmentation more than another has.
abbrev pub HasResult : CallResult → AfterHook Prevention → Type 0
HasResult result hook =
    (hook.returned ≡ some hook.mutated)
    × (hook.mutated.value ≡ result.value)
    × (hook.mutated.short_circuited ≡ result.short_circuited)
    × ((lines : List String) × (hook.mutated.augmentations ≡ lines ++ result.augmentations)
        × (length lines ≤ 1))

before_call-GoesOn :
    (world : World) (ctx : CallContext) (p : Prevention)
    → HasWarnings ctx
    → ((before_call world ctx p).2 ≡ go_on)
      × ((before_call world ctx p).1.tool_name ≡ ctx.tool_name)
      × ((before_call world ctx p).1.args ≡ ctx.args)
      × HasWarnings (before_call world ctx p).1
      × (rules_in (before_call world ctx p).0.bus.store ≡ rules_in p.bus.store)
unfolding before_call
before_call-GoesOn world ctx p h =
    let event = "tool.before:" +++ ctx.tool_name in
    let payload = tool_payload ctx in
    let p' = count_call world p in
    let out = emit world event payload p'.bus in
    let noted : Noted = record { context = ctx; warnings = out.0; bus = out.1 } in
    let n = emit_prompt world payload noted in
    let counted = emit-rules world event payload p'.bus ∙ count_call-rules world p in
    let (h', t, g) = emit_prompt-HasWarnings world payload noted h in
    let (t', g') = keep_warnings-same n.warnings n.context in
    let (u, v) = keep_warnings-same out.0 ctx in
    elim (Bool-cases (elem ctx.tool_name exempt_tools)) [
      | inl e ↦ rw (before_call, e) (refl, refl, refl, h, count_call-rules world p)
      | inr e ↦ elim (Bool-cases (elem ctx.tool_name prompt_tools)) [
        | inl k ↦
            rw (before_call, e, k)
              (
                refl,
                t' ∙ t,
                g' ∙ g,
                keep_warnings-HasWarnings n.warnings n.context h',
                emit_prompt-rules world payload noted ∙ counted,
              )
        | inr k ↦
            rw (before_call, e, k) (refl, u, v, keep_warnings-HasWarnings out.0 ctx h, counted)
      ]
    ]

after_call-Returns :
    (world : World) (ctx : CallContext) (result : CallResult) (p : Prevention)
    → HasWarnings ctx
    → ((after_call world ctx result p).returned ≡ some (after_call world ctx result p).mutated)
      × ((after_call world ctx result p).mutated.value ≡ result.value)
      × ((after_call world ctx result p).mutated.short_circuited ≡ result.short_circuited)
      × ((lines : List String) × ((after_call world ctx result p).mutated.augmentations
            ≡ lines ++ result.augmentations)
          × (length lines ≤ 1))
      × (rules_in (after_call world ctx result p).world.bus.store ≡ rules_in p.bus.store)
unfolding after_call
after_call-Returns world ctx result p (ws, h) =
    let out =
      emit world ("tool.after:" +++ ctx.tool_name) (("tool_name", ctx.tool_name) ∷ []) p.bus in
    let (v, c, l) = add_warnings-same (ws ++ out.0) result in
    rw (after_call, h)
      (
        refl,
        v,
        c,
        l,
        emit-rules world ("tool.after:" +++ ctx.tool_name) (("tool_name", ctx.tool_name) ∷ [])
            p.bus,
      )

-- Around a tool call whose context has no warnings or a list of them, whatever the database does: the
-- hook before the call never answers in place of the tool, and leaves its name and its arguments as
-- they are; the hook after it returns the tool's result, with the value that the tool gave, the marks
-- and augmentations that it had, and at most one line more, in front; and the table has the same rules
-- as before, but for their counters and the marks of their last evaluation.
pub call-PassesThrough :
    (world : World) (ctx : CallContext) (result : CallResult) (p : Prevention) (ws : List String)
    → kept_warnings ctx.metadata ≡ some ws
    → ((before_call world ctx p).2 ≡ go_on)
      × ((before_call world ctx p).1.tool_name ≡ ctx.tool_name)
      × ((before_call world ctx p).1.args ≡ ctx.args)
      × HasResult result
          (after_call world (before_call world ctx p).1 result (before_call world ctx p).0)
      × (rules_in
            (after_call world
              (before_call world ctx p).1
              result
              (before_call world ctx p).0).world.bus.store
          ≡ rules_in p.bus.store)
call-PassesThrough world ctx result p ws h =
    let (g, t, a, w, r) = before_call-GoesOn world ctx p (ws, h) in
    let (e, v, c, l, q) =
      after_call-Returns world (before_call world ctx p).1 result (before_call world ctx p).0 w in
    (g, t, a, (e, v, c, l), q ∙ r)
