-- ===== src/Middleware/Retry.antt =====
-- The execution loop of `MiddlewareChain.wrap` of core/middleware/chain.py: attempts, until one
-- succeeds or its error is not to be retried.
use elite_reasoning_mcp.Prelude.{
  ℕ, zero, suc, ◌+◌, ◌≤◌, ◌<◌, ◌≡◌, refl, ap, Bool, true, false, ◌⊎◌, inl, inr, Option, none, some,
  List, [], ◌∷◌, if◌then◌else◌, arith, Bool-cases, Sum-cases,
}
use elite_reasoning_mcp.Middleware.{
  Raised, elite, other, Value, RetryMiddleware, should_retry, delay_for,
}

pub record Ending (W : Type 0) : Type 0 where
  pub world : W
  pub result : Raised ⊎ Value
  pub attempts : ℕ
  pub slept : List ℕ

-- retry_middleware is not None and retry_middleware.should_retry(exc, attempt)
unfoldable pub is_retried : Option RetryMiddleware → Raised → ℕ → Bool
unfolding should_retry
is_retried none error attempt = false
is_retried (some mw) error attempt = should_retry mw error attempt

unfoldable pub sleep_for : Option RetryMiddleware → ℕ → ℕ
unfolding delay_for
sleep_for none attempt = 0
sleep_for (some mw) attempt = delay_for mw attempt

abbrev pub limit_of : Option RetryMiddleware → ℕ
limit_of none = 0
limit_of (some mw) = mw.max_retries

module _ {W : Type 0} (retry : Option RetryMiddleware) (call : W → W × (Raised ⊎ Value)) where
  abbrev pub after_sleep : ℕ → Option (Ending W) → Option (Ending W)
  after_sleep delay none = none
  after_sleep delay (some e) = some (record e { slept = delay ∷ e.slept })

  -- `while True`, for as many rounds as there is fuel
  unfoldable pub execute : ℕ → ℕ → W → Option (Ending W)
  unfolding is_retried sleep_for
  execute zero attempt w = none
  execute (suc fuel) attempt w =
      let again = execute fuel (suc attempt) (call w).0 in
      elim (call w).1 [
        | inr value ↦
            some (record { world = (call w).0; result = inr value; attempts = attempt; slept = [] })
        | inl error ↦
            if is_retried retry error attempt
            then after_sleep (sleep_for retry attempt) again
            else some
                (record { world = (call w).0; result = inl error; attempts = attempt; slept = [] })
      ]

  -- The attempts that lead from a state to an ending, as a relation.
  pub data Attempts : ℕ → W → Ending W → Type 0 where
    succeeds :
        (attempt : ℕ) (w : W) (value : Value)
        → (call w).1 ≡ inr value
        → Attempts attempt w
            (record { world = (call w).0; result = inr value; attempts = attempt; slept = [] })
    gives_up :
        (attempt : ℕ) (w : W) (error : Raised)
        → (call w).1 ≡ inl error
        → is_retried retry error attempt ≡ false
        → Attempts attempt w
            (record { world = (call w).0; result = inl error; attempts = attempt; slept = [] })
    repeats :
        (attempt : ℕ) (w : W) (error : Raised) (e : Ending W)
        → (call w).1 ≡ inl error
        → is_retried retry error attempt ≡ true
        → Attempts (suc attempt) (call w).0 e
        → Attempts attempt w (record e { slept = sleep_for retry attempt ∷ e.slept })

  retried_below :
      (r : Option RetryMiddleware) (error : Raised) (attempt : ℕ)
      → is_retried r error attempt ≡ true
      → attempt < limit_of r
  unfolding is_retried should_retry
  retried_below none error attempt h = absurd (ground arith)
  retried_below (some mw) (elite error) attempt h = ground arith
  retried_below (some mw) (other error) attempt h = ground arith

  -- With at least as many rounds of fuel as attempts are left, and one, the loop ends, and its
  -- ending is one that the attempts lead to.
  pub execute-Attempts :
      (fuel attempt : ℕ) (w : W)
      → attempt ≤ limit_of retry
      → limit_of retry < fuel + attempt
      → (e : Ending W) × (execute fuel attempt w ≡ some e) × Attempts attempt w e
  unfolding execute
  execute-Attempts zero attempt w below enough = absurd (omega arith)
  execute-Attempts (suc fuel) attempt w below enough = elim (Sum-cases (call w).1) [
    | inr (value, k) ↦ (_, rw (k, execute) refl, succeeds attempt w value k)
    | inl (error, k) ↦ elim (Bool-cases (is_retried retry error attempt)) [
      | inr b ↦ (_, rw (k, execute) (rw b refl), gives_up attempt w error k b)
      | inl b ↦
          let less = retried_below retry error attempt b in
          let (e, f, r) =
            execute-Attempts fuel (suc attempt) (call w).0 (omega arith) (omega arith) in
          (_, rw (k, execute) (rw (b, f) refl), repeats attempt w error e k b r)
    ]
  ]

  -- The number of attempts is bounded, and the waits are those of the attempts before the last.
  abbrev waits : ℕ → ℕ → List ℕ
  waits zero attempt = []
  waits (suc n) attempt = sleep_for retry attempt ∷ waits n (suc attempt)

  pub record Bounded (attempt : ℕ) (e : Ending W) : Type 0 where
    pub more : ℕ
    pub counted : e.attempts ≡ more + attempt
    pub limited : e.attempts ≤ limit_of retry
    pub waited : e.slept ≡ waits more attempt

  pub Attempts-Bounded :
      (attempt : ℕ) (w : W) (e : Ending W)
      → attempt ≤ limit_of retry
      → Attempts attempt w e
      → Bounded attempt e
  Attempts-Bounded _ _ _ below (succeeds attempt w value k) = record {
    more = 0;
    counted = omega arith;
    limited = below;
    waited = refl;
  }
  Attempts-Bounded _ _ _ below (gives_up attempt w error k b) = record {
    more = 0;
    counted = omega arith;
    limited = below;
    waited = refl;
  }
  Attempts-Bounded _ _ _ below (repeats attempt w error e' k b r) =
      let less = retried_below retry error attempt b in
      let rest = Attempts-Bounded (suc attempt) (call w).0 e' (omega arith) r in
      record {
        more = suc rest.more;
        counted = omega (arith, rest.counted);
        limited = rest.limited;
        waited = ap (◌∷◌ (sleep_for retry attempt)) rest.waited;
      }
