-- ===== src/Draft/Tests.antt =====
-- Runs and instances of the model of core/reasoning/constraint_check.py.
use elite_reasoning_mcp.Prelude.{
  ℕ, ◌+◌, String, ◌≡◌, ◌↔◌, refl, true, false, List, [], ◌∷◌, All, length, strip, lower, contains,
  elem, decimal, words, drop_chars, lstrip, is_blank, is_space, lower_char,
}
use elite_reasoning_mcp.Prelude.Sort.{sort_by}
use elite_reasoning_mcp.Workflow.{Constraint, Contract}
use elite_reasoning_mcp.Draft.{Python, check_draft}
use elite_reasoning_mcp.Draft.Patterns.{
  files_in, has_bullet, has_markdown, count_matches, quote_at, url_at,
}
use elite_reasoning_mcp.Draft.Met.{IsMet}
use elite_reasoning_mcp.Draft.Report.{check_draft-passed}

program : Unit {0}
unfolding check_draft strip lower contains elem decimal words drop_chars lstrip is_blank is_space
    lower_char sort_by
program = tt

abbrev python : Python
python = record { word = λ n. true; repr_list = λ ss. "[]" }

abbrev constraint : String → String → List String → ℕ → String → Constraint
constraint id kind terms value pattern = record {
  id = id;
  kind = kind;
  description = "";
  terms = terms;
  value = value;
  pattern = pattern;
}

abbrev contract : Contract
contract = record {
  goal = "fix the bug";
  deliverable = "a patch";
  constraints =
      constraint "c1" "must_include" ("pytest" ∷ "ruff" ∷ "mypy" ∷ []) 0 ""
      ∷ constraint "c2" "max_words" [] 3 ""
      ∷ constraint "c3" "scope_files" ("app.py" ∷ []) 0 ""
      ∷ [];
  do_not = [];
  next_action = "none";
}

draft_run :
    ((check_draft python "Ran PyTest, ruff on app.py" contract).unmet ≡ "c2: 5 words (cap 3)" ∷ [])
    × ((check_draft python "pytest ruff App.py" contract).passed ≡ true)
    × ((check_draft python "pytest src/b.py" contract).pass_rate ≡ (1, 3))
unfolding program
draft_run = (refl, refl, refl)

pattern_run :
    (files_in (λ n. true) 0 "see core/a.tsx, b.json and .py" ≡ "core/a.ts" ∷ "b.js" ∷ [])
    × (has_bullet true "a\n  * b" ≡ true)
    × (has_bullet true "a * b" ≡ false)
    × (has_markdown true "x\n# y" ≡ true)
    × (count_matches quote_at 0 "\"twelve chars!\" and \"short\"" ≡ 1)
    × (count_matches url_at 0 "HTTP://a.b (https://c)" ≡ 2)
unfolding program
pattern_run = (refl, refl, refl, refl, refl, refl)

check_draft-passed_example :
    (((check_draft python "pytest ruff App.py" contract).passed ≡ true)
      ↔ All (IsMet python "pytest ruff App.py") contract.constraints)
    × ((check_draft python "pytest ruff App.py" contract).pass_rate.0
          + length (check_draft python "pytest ruff App.py" contract).unmet
        ≡ length contract.constraints)
check_draft-passed_example = check_draft-passed python "pytest ruff App.py" contract
