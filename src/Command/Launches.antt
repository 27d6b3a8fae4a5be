-- ===== src/Command/Launches.antt =====
-- Which processes core/verification/command.py launches, and how.
use Prim.Native.String.{◌++◌ as ◌+++◌}
use text.Mathlib.TextEquality.{starts_with_iff}
use elite_reasoning_mcp.Prelude.{
  ℕ, ◌≤◌, String, ◌≡◌, refl, sym, true, ◌⊎◌, inl, inr, some, List, [], ◌∷◌, arith, All, All-append,
  All-imp, All-keep_self, any, length, Bool-cases, Option-cases, str_eq, str_eq_iff, str_eq_refl,
  keep, is_empty, strip, lower, elem,
}
use elite_reasoning_mcp.Command.{
  System, Environment, Launch, env_allowlist, restricted_environment, has_prefix,
  allowed_test_prefixes, is_allowlisted, is_enabled, launch_of, launch, run_allowlisted_command,
}

-- A text is an allowed command: one of the prefixes, alone or with a blank and arguments.
pub record IsTestCommand (text : String) : Type 0 where
  pub prefix : String
  pub arguments : String
  pub is_listed : elem prefix allowed_test_prefixes ≡ true
  pub is_written : (text ≡ prefix) ⊎ (text ≡ (prefix +++ " ") +++ arguments)

abbrev pub given_names : List String
given_names = "PYTHONNOUSERSITE" ∷ "PYTHONDONTWRITEBYTECODE" ∷ env_allowlist

pub record IsAllowed {W : Type 0} (sys : System W) (command : String) (l : Launch) : Type 0 where
  pub asked : IsTestCommand (lower (strip command))
  pub enabled : is_enabled sys.environ ≡ true
  pub argv : sys.shlex_split (strip command) ≡ some l.argv
  pub timeout : (1 ≤ l.timeout) × (l.timeout ≤ 120)
  pub environment : All (λ (entry : String × String). elem entry.0 given_names ≡ true) l.env

prefix_found :
    (text : String) (prefixes : List String)
    → any (has_prefix text) prefixes ≡ true
    → (p : String) × (elem p prefixes ≡ true) × (has_prefix text p ≡ true)
unfolding elem
prefix_found text [] h = absurd (ground arith)
prefix_found text (q ∷ prefixes) h = elim (Bool-cases (has_prefix text q)) [
  | inl e ↦ (q, rw (str_eq_refl q) refl, e)
  | inr e ↦ let (p, k, m) = prefix_found text prefixes (rw e at h) in (p, rw k (ground arith), m)
]

IsTestCommand-of :
    (text p : String)
    → elem p allowed_test_prefixes ≡ true
    → has_prefix text p ≡ true
    → IsTestCommand text
IsTestCommand-of text p e h = elim (Bool-cases (str_eq text p)) [
  | inl k ↦ record {
    prefix = p;
    arguments = "";
    is_listed = e;
    is_written = inl ((str_eq_iff text p).0 k);
  }
  | inr k ↦
      let (rest, m) = (starts_with_iff text (p +++ " ")).0 (rw k at h) in
      record { prefix = p; arguments = rest; is_listed = e; is_written = inr (sym m) }
]

restricted_environment-names :
    (environ : Environment)
    → All
        (λ (entry : String × String). elem entry.0 given_names ≡ true)
        (restricted_environment environ)
unfolding restricted_environment elem
restricted_environment-names environ =
    let kept =
      All-imp (λ (entry : String × String). elem entry.0 env_allowlist ≡ true)
        (λ (entry : String × String). elem entry.0 given_names ≡ true)
        (keep (λ (entry : String × String). elem entry.0 env_allowlist) environ)
        (λ entry h. ground arith)
        (All-keep_self (λ (entry : String × String). elem entry.0 env_allowlist) environ) in
    All-append (λ (entry : String × String). elem entry.0 given_names ≡ true)
      (keep (λ (entry : String × String). elem entry.0 env_allowlist) environ)
      (("PYTHONNOUSERSITE", "1") ∷ ("PYTHONDONTWRITEBYTECODE", "1") ∷ []) kept (refl, (refl, tt))

module _ {W : Type 0} (sys : System W) (command cwd : String) (timeout_seconds : ℕ) where
  pub launch_of-Allowed :
      (argv : List String)
      → is_allowlisted (strip command) ≡ true
      → is_enabled sys.environ ≡ true
      → sys.shlex_split (strip command) ≡ some argv
      → IsAllowed sys command (launch_of sys.environ timeout_seconds cwd argv)
  unfolding is_allowlisted
  launch_of-Allowed argv a o s =
      let (p, e, m) = prefix_found (lower (strip command)) allowed_test_prefixes a in
      record {
        asked = IsTestCommand-of (lower (strip command)) p e m;
        enabled = o;
        argv = s;
        timeout = (omega arith, omega arith);
        environment = restricted_environment-names sys.environ;
      }

module _ {W : Type 0} (sys : System W) (command cwd : String) (timeout_seconds : ℕ) (w : W) where
  -- A call launches at most one process, and each process that it launches is an allowed test
  -- command, with a time limit between 1 and 120 seconds and the allowed variables only.
  pub run_allowlisted_command-Allowed :
      (length (run_allowlisted_command sys command cwd timeout_seconds w).launched ≤ 1)
      × All
          (IsAllowed sys command)
          (run_allowlisted_command sys command cwd timeout_seconds w).launched
  unfolding run_allowlisted_command launch
  run_allowlisted_command-Allowed = elim (Bool-cases (is_empty (strip command))) [
    | inl e ↦ rw e (omega arith, tt)
    | inr e ↦ rw e (elim (Bool-cases (is_allowlisted (strip command))) [
      | inr a ↦ rw a (omega arith, tt)
      | inl a ↦ rw a (elim (Bool-cases (is_enabled sys.environ)) [
        | inr o ↦ rw o (omega arith, tt)
        | inl o ↦ rw o (elim (Option-cases (sys.shlex_split (strip command))) [
          | inl s ↦ rw s (omega arith, tt)
          | inr (argv, s) ↦
              rw s (omega arith, (launch_of-Allowed sys command cwd timeout_seconds argv a o s, tt))
        ])
      ])
    ])
  ]
