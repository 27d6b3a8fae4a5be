-- ===== src/Middleware/Attempts.antt =====
-- The calls of the tool behind an ending of the attempts, one after another, in the loop of
-- `MiddlewareChain.wrap` of core/middleware/chain.py.
use elite_reasoning_mcp.Prelude.{ℕ, zero, suc, ◌+◌, ◌≡◌, ap, true, false, ◌⊎◌, inl, Option, arith}
use elite_reasoning_mcp.Middleware.{Raised, Value, RetryMiddleware}
use elite_reasoning_mcp.Middleware.Retry.{Ending, is_retried, Attempts, succeeds, gives_up, repeats}

module _ {W : Type 0} (retry : Option RetryMiddleware) (call : W → W × (Raised ⊎ Value)) where
  -- The state after so many calls.
  abbrev pub after_calls : ℕ → W → W
  after_calls zero w = w
  after_calls (suc n) w = after_calls n (call w).0

  -- So many calls, one after another, each raise an error that is retried at its attempt.
  abbrev pub Retried : ℕ → ℕ → W → Type 0
  Retried zero attempt w = Unit
  Retried (suc n) attempt w =
      ((error : Raised) × ((call w).1 ≡ inl error) × (is_retried retry error attempt ≡ true))
      × Retried n (suc attempt) (call w).0

  -- The ending is that of the call after the retried ones, and its error is not retried.
  pub record Tried (attempt : ℕ) (w : W) (e : Ending W) : Type 0 where
    pub more : ℕ
    pub counted : e.attempts ≡ more + attempt
    pub retried : Retried more attempt w
    pub last : call (after_calls more w) ≡ (e.world, e.result)
    pub ended : (error : Raised) → e.result ≡ inl error → is_retried retry error e.attempts ≡ false

  pub Attempts-Tried :
      (attempt : ℕ) (w : W) (e : Ending W) → Attempts retry call attempt w e → Tried attempt w e
  Attempts-Tried _ _ _ (succeeds attempt w value k) = record {
    more = 0;
    counted = omega arith;
    retried = tt;
    last = ap (λ r. ((call w).0, r)) k;
    ended = λ error h. absurd (ground arith);
  }
  Attempts-Tried _ _ _ (gives_up attempt w error k b) = record {
    more = 0;
    counted = omega arith;
    retried = tt;
    last = ap (λ r. ((call w).0, r)) k;
    ended = λ x h. let same : error ≡ x = ground arith in rw (← same) b;
  }
  Attempts-Tried _ _ _ (repeats attempt w error e k b r) =
      let rest = Attempts-Tried (suc attempt) (call w).0 e r in
      record {
        more = suc rest.more;
        counted = omega (arith, rest.counted);
        retried = ((error, k, b), rest.retried);
        last = rest.last;
        ended = rest.ended;
      }
