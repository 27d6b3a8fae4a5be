-- ===== src/Verifiers/TestEvidence.antt =====
-- What a passing check "tests" of core/verification/registry.py rests on.
use elite_reasoning_mcp.Prelude.{
  String, ◌≡◌, refl, Bool, true, false, not, ◌&&◌, inl, inr, arith, Bool-cases, Sum-cases,
  if◌then◌else◌, is_empty, is_blank, strip,
}
use Prim.Native.String.{◌++◌ as ◌+++◌}
use elite_reasoning_mcp.Verification.{is_pass}
use elite_reasoning_mcp.GitDiff.{Git}
use elite_reasoning_mcp.Gate.{repository_snapshot}
use elite_reasoning_mcp.Command.{
  CommandError, command_required, unbalanced_quotes, CommandResult, Ran, not_run,
  run_allowlisted_command,
}
use elite_reasoning_mcp.Command.Success.{Succeeded, has_passed, run_allowlisted_command-Succeeded}
use elite_reasoning_mcp.Verifiers.{
  Server, VerifierRequest, Answer, host_of, status_of_command, test_execution, after_command,
  verify_tests,
}

-- An answer is an execution that passed.
abbrev pub answers_pass : Answer → Bool
answers_pass (inl e) = false
answers_pass (inr x) = is_pass x.status

abbrev pub PayloadIs : Answer → Bool → String → Type 0
PayloadIs (inl e) executed digest = ⊥
PayloadIs (inr x) executed digest =
    (x.payload.executed ≡ executed) × (x.payload.repository_snapshot_digest ≡ digest)

passed_command :
    (r : CommandResult)
    → is_pass (status_of_command r) ≡ true
    → (r.executed ≡ true) × (r.passed ≡ true)
unfolding status_of_command
passed_command r h = ground arith

abbrev root_of : Server → Git → VerifierRequest → String
root_of server git request = (repository_snapshot (host_of server git) request.project_root).root

-- The digest of the working tree in which a check ends, which is empty without a project root.
abbrev pub digest_after : Server → Git → VerifierRequest → Git → String
digest_after server git request after =
    let root = root_of server git request in
    if is_empty root then "" else (repository_snapshot (host_of server after) root).digest

after_command-Succeeded :
    (server : Server) (git : Git) (request : VerifierRequest) (root limitation : String)
    (ran : Ran Git)
    → (has_passed ran.result ≡ true
        → Succeeded server.system request.command git ran.launched ran.tree)
    → answers_pass (after_command server request root limitation ran).answer ≡ true
    → Succeeded server.system request.command git
        (after_command server request root limitation ran).launched
        (after_command server request root limitation ran).git
      × PayloadIs (after_command server request root limitation ran).answer true (
          if is_empty root
          then ""
          else (repository_snapshot
              (host_of server (after_command server request root limitation ran).git)
              root).digest)
unfolding after_command test_execution
after_command-Succeeded server git request root limitation ran f h = elim (Sum-cases ran.result) [
  | inl (e, k) ↦ absurd (raised e (rw k at h))
  | inr (r, k) ↦
      let (executed, passed) = passed_command r (rw k at h) in
      (f (rw (k, passed) refl), rw k (executed, refl))
]
  where
    raised :
        (e : CommandError)
        → answers_pass
            (after_command server request root limitation (record ran { result = inl e })).answer
          ≡ true
        → ⊥
    raised command_required g = cc
    raised unbalanced_quotes g = cc

refused :
    (server : Server) (request : VerifierRequest) (root limitation reason : String) (git : Git)
    → answers_pass (
        inr (
          test_execution server request root limitation
            (not_run reason (strip request.command))
            git))
      ≡ true
    → ⊥
unfolding test_execution
refused server request root limitation reason git h =
    let p = passed_command (not_run reason (strip request.command)) h in
    absurd (ground (arith, p.0))

-- A check of the tests passes only if it launched one process, which is an allowed test command, and
-- that process ended with the return code 0. The evidence then says that the tests were executed. If a
-- project root is given, it carries the digest of the snapshot of that repository after the run, which
-- is empty if there is none; without a root it carries no digest, and binds to no state.
pub verify_tests-Succeeded :
    (server : Server) (git : Git) (request : VerifierRequest)
    → answers_pass (verify_tests server git request).answer ≡ true
    → Succeeded server.system request.command git
        (verify_tests server git request).launched
        (verify_tests server git request).git
      × PayloadIs
          (verify_tests server git request).answer
          true
          (digest_after server git request (verify_tests server git request).git)
unfolding verify_tests
verify_tests-Succeeded server git request h =
    let before = repository_snapshot (host_of server git) request.project_root in
    elim (Bool-cases (not (is_blank request.project_root) && is_empty before.root)) [
      | inl e ↦ absurd (
          refused server request before.root before.limitation
            ("project_root is unavailable: " +++ before.limitation) git (rw (e, verify_tests) at h))
      | inr e ↦ rw e (
          after_command-Succeeded server git request before.root before.limitation
            (run_allowlisted_command server.system request.command before.root 30 git)
            (run_allowlisted_command-Succeeded server.system request.command before.root 30 git)
            (rw (e, verify_tests) at h))
    ]
