-- ===== src/Command/Tests.antt =====
-- Runs and instances of the model of core/verification/command.py.
use elite_reasoning_mcp.Prelude.{
  ℕ, ◌+◌, ◌≤◌, String, ◌≡◌, refl, some, inl, [], ◌∷◌, All, length, strip, lower, elem, drop_chars,
  decimal,
}
use elite_reasoning_mcp.Command.{
  System, completed, exited, command_required, restricted_environment, run_allowlisted_command,
}
use elite_reasoning_mcp.Command.Launches.{IsAllowed, run_allowlisted_command-Allowed}

program : Unit {0}
unfolding run_allowlisted_command restricted_environment strip lower elem drop_chars decimal
program = tt

-- The working tree is a number, which a process raises.
abbrev system : String → System ℕ
system switch = record {
  environ = ("PATH", "/bin") ∷ ("SECRET", "x") ∷ ("ELITE_ALLOW_TEST_COMMAND", switch) ∷ [];
  shlex_split = λ s. some (s ∷ []);
  run = λ l w. (completed (exited 0) "1 passed" "", w + 1);
}

test_run :
    ((run_allowlisted_command (system "1") " pytest -q " "/repo" 500 0).launched
      ≡ record {
        argv = "pytest -q" ∷ [];
        timeout = 120;
        cwd = some "/repo";
        env = ("PATH", "/bin") ∷ ("PYTHONNOUSERSITE", "1") ∷ ("PYTHONDONTWRITEBYTECODE", "1") ∷ [];
      }
        ∷ [])
    × ((run_allowlisted_command (system "1") "pytest" "" 30 0).tree ≡ 1)
    × ((run_allowlisted_command (system "0") "pytest" "" 30 0).launched ≡ [])
    × ((run_allowlisted_command (system "1") "pytestx" "" 30 0).launched ≡ [])
    × ((run_allowlisted_command (system "1") " " "" 30 0).result ≡ inl command_required)
unfolding program
test_run = (refl, refl, refl, refl, refl)

run_allowlisted_command-Allowed_example :
    (length (run_allowlisted_command (system "1") "pytest -q" "/repo" 30 0).launched ≤ 1)
    × All
        (IsAllowed (system "1") "pytest -q")
        (run_allowlisted_command (system "1") "pytest -q" "/repo" 30 0).launched
run_allowlisted_command-Allowed_example =
    run_allowlisted_command-Allowed (system "1") "pytest -q" "/repo" 30 0
