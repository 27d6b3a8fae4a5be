-- ===== src/Verification.antt =====
-- core/verification/models.py: the four outcomes of a check.
use elite_reasoning_mcp.Prelude.{String, Bool, true, false, ◌≡◌, ◌↔◌, arith}

pub data VerificationStatus : Type 0 where
  pass fail unknown not_checked : VerificationStatus

-- `.value`
unfoldable pub value : VerificationStatus → String
value pass = "PASS"
value fail = "FAIL"
value unknown = "UNKNOWN"
value not_checked = "NOT_CHECKED"

abbrev pub status_from_bool : Bool → VerificationStatus
status_from_bool true = pass
status_from_bool false = fail

abbrev pub is_pass : VerificationStatus → Bool
is_pass pass = true
is_pass _ = false

pub is_pass_iff : (s : VerificationStatus) → (is_pass s ≡ true) ↔ (s ≡ pass)
is_pass_iff pass = ground arith
is_pass_iff fail = ground arith
is_pass_iff unknown = ground arith
is_pass_iff not_checked = ground arith
