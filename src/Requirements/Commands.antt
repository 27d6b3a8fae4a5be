-- ===== src/Requirements/Commands.antt =====
-- What the verifier of test commands starts, and when it passes: core/verification/test_command.py.
use elite_reasoning_mcp.Prelude.{
  String, ◌≡◌, refl, ap, ◌∙◌, true, inl, inr, Option, none, some, List, [], ◌∷◌, arith, elem,
  is_empty, Bool-cases, Option-cases,
}
use elite_reasoning_mcp.Verification.{pass, fail, unknown}
use elite_reasoning_mcp.Command.{ReturnCode, is_success}
use elite_reasoning_mcp.Registry.{Requirement, VerificationResult}
use elite_reasoning_mcp.Requirements.{
  CommandHost, Finished, returned, expired, raised, Started, CommandCheck, finish, check_argv,
  check_command, allowlisted_executables, command_answer,
}

abbrev pub started_for : Requirement → List String → Started
started_for requirement argv = record {
  argv = argv;
  cwd = requirement.verifier_parameters.cwd;
  timeout = requirement.verifier_parameters.timeout_sec;
}

-- One process was started, of an executable with an allowed name, and it ended with the code 0.
pub record Succeeded (host : CommandHost) (requirement : Requirement) (c : CommandCheck)
    : Type 0 where
  pub exe : String
  pub rest : List String
  pub exit_code : ReturnCode
  pub output : String
  pub is_split : host.split requirement.verifier_parameters.command ≡ some (exe ∷ rest)
  pub is_allowed : elem (host.base_name exe) allowlisted_executables ≡ true
  pub is_started : c.started ≡ started_for requirement (exe ∷ rest) ∷ []
  pub has_returned : host.run (started_for requirement (exe ∷ rest)) ≡ returned exit_code output
  pub is_zero : is_success exit_code ≡ true

finish-zero :
    (host : CommandHost) (requirement : Requirement) (content : String) (f : Finished)
    → (finish host requirement content f).status ≡ pass
    → (exit_code : ReturnCode) × (output : String) × (f ≡ returned exit_code output)
      × (is_success exit_code ≡ true)
unfolding finish
finish-zero host requirement content (returned exit_code output) h =
    elim (Bool-cases (is_success exit_code)) [
      | inl e ↦ (exit_code, output, refl, e)
      | inr e ↦ let k : fail ≡ pass = rw e at h in absurd (ground arith)
    ]
finish-zero host requirement content expired h = absurd (ground (arith, h))
finish-zero host requirement content raised h = absurd (ground (arith, h))

-- the status of a result that was returned
status_of :
    {r result : VerificationResult} → some r ≡ some result → result.status ≡ pass → r.status ≡ pass
status_of {r} h p =
    ap (λ (o : Option VerificationResult). elim o [ none ↦ r.status | some x ↦ x.status ]) h ∙ p

abbrev blocked : Requirement → VerificationResult
blocked requirement =
    command_answer requirement fail [] ("Security gate blocked unallowlisted binary" ∷ [])

check_argv-Succeeded :
    (host : CommandHost) (requirement : Requirement) (content : String) (argv : List String)
    (result : VerificationResult)
    → host.split requirement.verifier_parameters.command ≡ some argv
    → (check_argv host requirement content argv).result ≡ some result
    → result.status ≡ pass
    → Succeeded host requirement (check_argv host requirement content argv)
unfolding check_argv
check_argv-Succeeded host requirement content [] result sp h p =
    absurd (ground (arith, status_of h p))
check_argv-Succeeded host requirement content (exe ∷ rest) result sp h p =
    elim (Bool-cases (elem (host.base_name exe) allowlisted_executables)) [
      | inl e ↦
          let launch = started_for requirement (exe ∷ rest) in
          let g : some (finish host requirement content (host.run launch)) ≡ some result =
            rw e at h in
          let (exit_code, output, f, zero) =
            finish-zero host requirement content (host.run launch) (status_of g p) in
          rw e (record {
            exe = exe;
            rest = rest;
            exit_code = exit_code;
            output = output;
            is_split = sp;
            is_allowed = e;
            is_started = refl;
            has_returned = f;
            is_zero = zero;
          })
      | inr e ↦
          let g : some (blocked requirement) ≡ some result = rw e at h in
          absurd (ground (arith, status_of g p))
    ]

-- A requirement passes only if its command was split into the name of an executable and arguments,
-- the last part of the name is on the list, the call started this one process and no other, and the
-- process ended with the code 0.
pub check_command-Succeeded :
    (host : CommandHost) (requirement : Requirement) (content : String)
    (result : VerificationResult)
    → (check_command host requirement content).result ≡ some result
    → result.status ≡ pass
    → Succeeded host requirement (check_command host requirement content)
unfolding check_command
check_command-Succeeded host requirement content result h p =
    elim (Bool-cases (is_empty requirement.verifier_parameters.command)) [
      | inl e ↦
          let g : some (command_answer requirement unknown [] []) ≡ some result = rw e at h in
          absurd (ground (arith, status_of g p))
      | inr e ↦ elim (Option-cases (host.split requirement.verifier_parameters.command)) [
        | inl k ↦ let g : none ≡ some result = rw (e, k) at h in absurd (cc g)
        | inr (argv, k) ↦
            rw (e, k)
              (check_argv-Succeeded host requirement content argv result k (rw (e, k) at h) p)
      ]
    ]
