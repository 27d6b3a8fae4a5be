-- ===== src/Command/Success.antt =====
-- When a test command of core/verification/command.py counts as passed.
use elite_reasoning_mcp.Prelude.{
  ℕ, String, ◌≡◌, refl, ap, Bool, true, false, ◌⊎◌, inl, inr, List, [], ◌∷◌, arith, Bool-cases,
  Option-cases, ==_iff, is_empty, strip,
}
use elite_reasoning_mcp.Command.{
  System, Completion, completed, timed_out, os_error, exited, signalled, CommandError,
  CommandResult, Launch, is_allowlisted, is_enabled, report, launch, launch_of,
  run_allowlisted_command,
}
use elite_reasoning_mcp.Command.Launches.{IsAllowed, launch_of-Allowed}

abbrev pub has_passed : CommandError ⊎ CommandResult → Bool
has_passed (inl e) = false
has_passed (inr r) = r.passed

-- One allowed process was launched, and came to an end with the return code 0.
pub record Succeeded {W : Type 0} (sys : System W) (command : String) (w : W)
    (launched : List Launch) (after : W) : Type 0 where
  pub process : Launch
  pub only : launched ≡ process ∷ []
  pub allowed : IsAllowed sys command process
  pub stdout : String
  pub stderr : String
  pub ended : sys.run process w ≡ (completed (exited 0) stdout stderr, after)

success :
    (cleaned : String) (n : ℕ) (c : Completion)
    → (report cleaned n c).passed ≡ true
    → (out : String) × (err : String) × (c ≡ completed (exited 0) out err)
unfolding report
success cleaned n (completed (exited m) out err) h = (out, err, rw ((==_iff m 0).0 h) refl)
success cleaned n (completed (signalled m) out err) h = absurd (ground arith)
success cleaned n timed_out h = absurd (ground arith)
success cleaned n (os_error name) h = absurd (ground arith)

module _ {W : Type 0} (sys : System W) (command cwd : String) (timeout_seconds : ℕ) (w : W) where
  launch-Succeeded :
      (argv : List String)
      → IsAllowed sys command (launch_of sys.environ timeout_seconds cwd argv)
      → has_passed
          (launch sys
            (strip command)
            timeout_seconds
            (launch_of sys.environ timeout_seconds cwd argv)
            w).result
        ≡ true
      → Succeeded sys command w
          (launch sys
            (strip command)
            timeout_seconds
            (launch_of sys.environ timeout_seconds cwd argv)
            w).launched
          (launch sys
            (strip command)
            timeout_seconds
            (launch_of sys.environ timeout_seconds cwd argv)
            w).tree
  unfolding launch
  launch-Succeeded argv a h =
      let l = launch_of sys.environ timeout_seconds cwd argv in
      let (out, err, e) = success (strip command) timeout_seconds (sys.run l w).0 h in
      record {
        process = l;
        only = refl;
        allowed = a;
        stdout = out;
        stderr = err;
        ended = ap (λ c. (c, (sys.run l w).1)) e;
      }

  pub run_allowlisted_command-Succeeded :
      has_passed (run_allowlisted_command sys command cwd timeout_seconds w).result ≡ true
      → Succeeded sys command w
          (run_allowlisted_command sys command cwd timeout_seconds w).launched
          (run_allowlisted_command sys command cwd timeout_seconds w).tree
  unfolding run_allowlisted_command
  run_allowlisted_command-Succeeded h = elim (Bool-cases (is_empty (strip command))) [
    | inl e ↦ absurd (ground arith)
    | inr e ↦ elim (Bool-cases (is_allowlisted (strip command))) [
      | inr a ↦ absurd (ground arith)
      | inl a ↦ elim (Bool-cases (is_enabled sys.environ)) [
        | inr o ↦ absurd (ground arith)
        | inl o ↦ elim (Option-cases (sys.shlex_split (strip command))) [
          | inl s ↦ absurd (ground arith)
          | inr (argv, s) ↦
              let passed = rw (e, a, o, s, run_allowlisted_command) at h in
              rw (e, a, o, s)
                (launch-Succeeded argv
                  (launch_of-Allowed sys command cwd timeout_seconds argv a o s) passed)
        ]
      ]
    ]
  ]
