-- ===== src/Command.antt =====
-- core/verification/command.py: the test commands that the server runs itself. What the operating
-- system does with a process, and what Python's `shlex.split` makes of a text (nothing, when a quote
-- is not closed), are the argument `sys`; a process may change the working tree, which is the state
-- `W`. Of the exceptions of `subprocess.run` only the two that the code catches are modelled, and a
-- time limit is not negative.
pub mod Launches
pub mod Success
mod Tests
use Prim.Native.Nat.{min, ◌-◌}
use Prim.Native.String.{◌++◌ as ◌+++◌}
use elite_reasoning_mcp.Prelude.{
  ℕ, zero, suc, max, String, Bool, true, false, not, ◌||◌, Option, none, some, List, [], ◌∷◌, ◌++◌,
  ◌⊎◌, inl, inr, ◌==◌, if◌then◌else◌, str_eq, starts_with, is_empty, strip, lower, elem, any, keep,
  drop_chars, decimal,
}

abbrev pub allowed_test_prefixes : List String
allowed_test_prefixes =
    "pytest" ∷ "python -m pytest" ∷ "python3 -m pytest" ∷ "ruff" ∷ "python -m ruff"
    ∷ "python3 -m ruff" ∷ "pyright" ∷ "python -m pyright" ∷ "python3 -m pyright" ∷ "mypy"
    ∷ "python -m mypy" ∷ "python3 -m mypy" ∷ "tsc" ∷ "npx tsc" ∷ "npm test" ∷ "npx jest"
    ∷ "npx vitest" ∷ "yarn test" ∷ "pnpm test" ∷ "bun test" ∷ "cargo test" ∷ "cargo check"
    ∷ "cargo clippy" ∷ "go test" ∷ "go vet" ∷ "go build" ∷ "mvn test" ∷ "gradle test"
    ∷ "./gradlew test" ∷ []

abbrev pub env_allowlist : List String
env_allowlist =
    "HOME" ∷ "LANG" ∷ "LC_ALL" ∷ "PATH" ∷ "SYSTEMROOT" ∷ "TEMP" ∷ "TMP" ∷ "TMPDIR" ∷ "VIRTUAL_ENV"
    ∷ []

abbrev pub Environment : Type 0
Environment = List (String × String)

-- `os.environ.get(key, "")`
abbrev pub variable : String → Environment → String
variable key [] = ""
variable key ((k, v) ∷ env) = if str_eq k key then v else variable key env

unfoldable pub restricted_environment : Environment → Environment
unfolding elem
restricted_environment environ =
    keep (λ (entry : String × String). elem entry.0 env_allowlist) environ
    ++ (("PYTHONNOUSERSITE", "1") ∷ ("PYTHONDONTWRITEBYTECODE", "1") ∷ [])

-- A return code below zero is the number of a signal.
pub data ReturnCode : Type 0 where
  exited : ℕ → ReturnCode
  signalled : ℕ → ReturnCode

abbrev pub is_success : ReturnCode → Bool
is_success (exited n) = n == 0
is_success (signalled n) = false

pub data Completion : Type 0 where
  completed : ReturnCode → String → String → Completion
  timed_out : Completion
  os_error : String → Completion

-- The arguments of `subprocess.run`.
pub record Launch : Type 0 where
  pub argv : List String
  pub timeout : ℕ
  pub cwd : Option String
  pub env : Environment

pub record System (W : Type 0) : Type 0 where
  pub environ : Environment
  pub shlex_split : String → Option (List String)
  pub run : Launch → W → Completion × W

pub data CommandError : Type 0 where
  command_required unbalanced_quotes : CommandError

-- The dictionary that the call returns; "" stands for a missing text.
pub record CommandResult : Type 0 where
  pub passed : Bool
  pub executed : Bool
  pub reason : String
  pub returncode : Option ReturnCode
  pub output : String
  pub command : String

unfoldable pub char_count : String → ℕ
char_count String.[] = 0
char_count (String.◌∷◌ c s) = suc (char_count s)

-- `s[-n:]`
unfoldable pub last_chars : ℕ → String → String
unfolding char_count drop_chars
last_chars n s = drop_chars (char_count s - n) s

abbrev pub has_prefix : String → String → Bool
has_prefix lowered prefix = str_eq lowered prefix || starts_with lowered (prefix +++ " ")

unfoldable pub is_allowlisted : String → Bool
unfolding lower
is_allowlisted cleaned = any (has_prefix (lower cleaned)) allowed_test_prefixes

unfoldable pub is_enabled : Environment → Bool
unfolding strip
is_enabled environ = str_eq (strip (variable "ELITE_ALLOW_TEST_COMMAND" environ)) "1"

abbrev pub bounded_timeout : ℕ → ℕ
bounded_timeout timeout_seconds = max 1 (min timeout_seconds 120)

abbrev pub not_run : String → String → CommandResult
not_run reason command = record {
  passed = false;
  executed = false;
  reason = reason;
  returncode = none;
  output = "";
  command = command;
}

unfoldable pub report : String → ℕ → Completion → CommandResult
unfolding last_chars decimal
report cleaned timeout_seconds (completed code stdout stderr) = record {
  passed = is_success code;
  executed = true;
  reason = "";
  returncode = some code;
  output = last_chars 1500 (stdout +++ stderr);
  command = cleaned;
}
report cleaned timeout_seconds timed_out =
    not_run
      ("command timed out after " +++ (decimal (bounded_timeout timeout_seconds) +++ " seconds"))
      cleaned
report cleaned timeout_seconds (os_error name) =
    not_run ("command execution failed: " +++ name) cleaned

abbrev pub launch_of : Environment → ℕ → String → List String → Launch
launch_of environ timeout_seconds cwd argv = record {
  argv = argv;
  timeout = bounded_timeout timeout_seconds;
  cwd = if is_empty cwd then none else some cwd;
  env = restricted_environment environ;
}

-- What a call comes to: its result or error, the processes that it launched, and the working tree.
pub record Ran (W : Type 0) : Type 0 where
  pub result : CommandError ⊎ CommandResult
  pub launched : List Launch
  pub tree : W

module _ {W : Type 0} (sys : System W) where
  unfoldable pub launch : String → ℕ → Launch → W → Ran W
  unfolding report
  launch cleaned timeout_seconds l w =
      let done = sys.run l w in
      record {
        result = inr (report cleaned timeout_seconds done.0);
        launched = l ∷ [];
        tree = done.1;
      }

  unfoldable pub run_allowlisted_command : String → String → ℕ → W → Ran W
  unfolding launch is_allowlisted is_enabled strip
  run_allowlisted_command command cwd timeout_seconds w =
      let cleaned = strip command in
      if is_empty cleaned
      then record { result = inl command_required; launched = []; tree = w }
      else if not (is_allowlisted cleaned)
      then record {
        result = inr (not_run "command is not on the pytest/ruff allowlist" cleaned);
        launched = [];
        tree = w;
      }
      else if not (is_enabled sys.environ)
      then record {
        result =
            inr (not_run "set ELITE_ALLOW_TEST_COMMAND=1 to run allowlisted tests locally" cleaned);
        launched = [];
        tree = w;
      }
      else elim (sys.shlex_split cleaned) [
        | none ↦ record { result = inl unbalanced_quotes; launched = []; tree = w }
        | some argv ↦
            launch cleaned timeout_seconds (launch_of sys.environ timeout_seconds cwd argv) w
      ]
