-- ===== src/Continuity/Due.antt =====
-- How a new record changes which checks of core/orchestration/continuity.py are due.
use elite_reasoning_mcp.Prelude.{String, ◌≡◌, true, false, List, [], ◌∷◌, arith, str_eq, str_eq_iff}
use elite_reasoning_mcp.Workflow.{Evidence}
use elite_reasoning_mcp.Continuity.{is_passing, is_outcome, failed_unmet, is_due, is_stale}

module _ (e : Evidence) (evidence : List Evidence) (prefix check : String) where
  -- A passing record of the check, in front of the list: the check is not due.
  pub due-cons_self : is_passing check e ≡ true → is_due (e ∷ evidence) prefix check ≡ false
  unfolding is_due
  due-cons_self h = ground arith

  -- A record of another check that is no outcome leaves a check due or not due.
  pub due-cons_ne :
      is_passing check e ≡ false
      → is_outcome e ≡ false
      → is_due (e ∷ evidence) prefix check ≡ is_due evidence prefix check
  unfolding is_due
  due-cons_ne h o = ground arith

  passed-unmet : is_passing "outcomes" e ≡ true → failed_unmet (e ∷ evidence) ≡ []
  unfolding failed_unmet
  passed-unmet o =
      let passed : e.verification_status ≡ "PASS" =
        ground (arith, str_eq_iff e.verification_status "PASS") in
      let failed : str_eq e.verification_status "FAIL" ≡ false = rw passed in ground arith

  -- A passing outcome check ends all staleness.
  pub due-cons_outcome :
      is_passing check e ≡ false
      → is_passing "outcomes" e ≡ true
      → is_due evidence prefix check ≡ false
      → is_due (e ∷ evidence) prefix check ≡ false
  unfolding is_stale is_due
  due-cons_outcome h o d = rw (passed-unmet o) (ground arith)

pub other_check :
    (k j : String) (e : Evidence)
    → is_passing k e ≡ true
    → str_eq k j ≡ false
    → str_eq e.check_kind j ≡ false
other_check k j e h d =
    let kind : e.check_kind ≡ k = ground (arith, str_eq_iff e.check_kind k) in rw kind d
