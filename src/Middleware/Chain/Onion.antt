-- ===== src/Middleware/Chain/Onion.antt =====
-- The order of the hooks after a call, in core/middleware/chain.py.
use elite_reasoning_mcp.Prelude.{◌≡◌, refl, List, [], ◌∷◌}
use elite_reasoning_mcp.Middleware.{Middleware}
use elite_reasoning_mcp.Middleware.Chain.{PostState, after_one, run_after, reverse_onto}

module _ {W : Type 0} where
  -- Each middleware around what the later ones have made of the result.
  unfoldable pub onion : List (Middleware W) → PostState W → PostState W
  onion [] s = s
  onion (mw ∷ rest) s = after_one mw (onion rest s)

  run_after-onto :
      (done relevant : List (Middleware W)) (s : PostState W)
      → run_after (reverse_onto done relevant) s ≡ run_after done (onion relevant s)
  unfolding run_after reverse_onto onion
  run_after-onto done [] s = refl
  run_after-onto done (mw ∷ rest) s = run_after-onto (mw ∷ done) rest s

  -- The hooks after a call nest: the first middleware is the last to see the result, as all the
  -- others have left it.
  pub run_after-onion :
      (relevant : List (Middleware W)) (s : PostState W)
      → run_after (reverse_onto [] relevant) s ≡ onion relevant s
  unfolding run_after
  run_after-onion relevant s = run_after-onto [] relevant s
