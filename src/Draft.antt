-- ===== src/Draft.antt =====
-- core/reasoning/constraint_check.py: the lexical checks of a draft against the constraints of its
-- task contract. The regular expressions are in Draft/Patterns. What Python's `repr` makes of a list
-- of texts, and which characters beyond ASCII are letters, are the argument `python`.
pub mod Patterns
pub mod Report
pub mod Terms
pub mod Met
pub mod Scope
mod Tests
use Prim.Native.Nat.{min}
use Prim.Native.String.{◌++◌ as ◌+++◌}
use elite_reasoning_mcp.Prelude.{
  ℕ, zero, suc, ◌-◌, max, String, Bool, true, false, not, ◌&&◌, ◌||◌, List, [], ◌∷◌, map, ltb, leb,
  if◌then◌else◌, str_eq, starts_with, lower, lstrip, contains, decimal, words, elem, any, all, keep,
  take, drop_chars, length,
}
use elite_reasoning_mcp.Prelude.Nil.{is_nil}
use elite_reasoning_mcp.Prelude.Sort.{sort_by}
use elite_reasoning_mcp.Prelude.Text.{text_le}
use elite_reasoning_mcp.Workflow.{Constraint, Contract}
use elite_reasoning_mcp.Draft.Patterns.{
  has_braces, has_bullet, has_markdown, count_matches, quote_at, url_at, files_in, count_chars,
}

pub record Python : Type 0 where
  pub word : ℕ → Bool
  pub repr_list : List String → String

pub record ConstraintResult : Type 0 where
  pub id : String
  pub kind : String
  pub passed : Bool
  pub detail : String

-- `pass_rate` is the quotient of the first number by the second, before it is rounded.
pub record CheckReport : Type 0 where
  pub passed : Bool
  pub pass_rate : ℕ × ℕ
  pub results : List ConstraintResult
  pub unmet : List String

abbrev pub test_log_markers : List String
test_log_markers = "passed" ∷ "ok" ∷ "exit code 0" ∷ "exit_code=0" ∷ "ruff check" ∷ "pytest" ∷ []

abbrev pub fake_success_markers : List String
fake_success_markers =
    "proof_of_work" ∷ "quality_score" ∷ "layers_executed" ∷ "verified_perfect" ∷ []

-- `len(re.findall(r"\S+", text))`
unfoldable pub word_count : String → ℕ
unfolding words
word_count text = length (words text)

abbrev pub is_hit : String → String → Bool
is_hit text term = contains (lower term) (lower text)

unfoldable pub has_terms : String → List String → ℕ → Bool
unfolding lower contains
has_terms text terms minimum =
    if is_nil terms
    then true
    else leb (min minimum (length terms)) (length (keep (is_hit text) terms))

-- `any(marker in lower for marker in ...)`
abbrev pub has_marker : List String → String → Bool
has_marker markers low = any (λ m. contains m low) markers

abbrev pub last_200 : String → String
last_200 s = drop_chars (count_chars s - 200) s

unfoldable pub check_must_include : String → List String → Bool
unfolding has_terms
check_must_include text terms = has_terms text terms (max 1 (min 2 (length terms)))

unfoldable pub check_must_not : String → List String → Bool
unfolding has_terms contains lower
check_must_not text terms =
    (if is_nil terms then true else not (has_terms text terms 1))
    && not (has_marker fake_success_markers (lower text))

unfoldable pub check_format : String → String → Bool
unfolding has_braces has_bullet has_markdown contains lstrip
check_format text fmt =
    if str_eq fmt "json"
    then has_braces text
    else if str_eq fmt "patch"
    then contains "diff --git" text
      || any (starts_with (lstrip text)) ("---" ∷ "+++" ∷ "@@" ∷ [])
      || contains "```" text
    else if str_eq fmt "bullets"
    then has_bullet true text
    else if str_eq fmt "markdown"
    then has_markdown true text
    else true

unfoldable pub check_run_tests : String → Bool
unfolding contains lower drop_chars count_chars
check_run_tests text =
    has_marker test_log_markers (lower text) && not (contains "failed" (last_200 (lower text)))

-- The elements of a set, each of them once.
unfoldable pub as_set : List String → List String
unfolding elem
as_set [] = []
as_set (s ∷ ss) = let rest = as_set ss in if elem s ss then rest else s ∷ rest

-- `{item for item in mentioned if item.lower() not in allowed}`, without repetitions
unfoldable pub extras : (ℕ → Bool) → String → List String → List String
unfolding files_in lower elem as_set
extras word text terms =
    let allowed = map lower terms in
    as_set (keep (λ item. not (elem (lower item) allowed)) (files_in word 0 text))

abbrev pub verdict : Constraint → Bool → String → String → ConstraintResult
verdict c ok good bad = record {
  id = c.id;
  kind = c.kind;
  passed = ok;
  detail = if ok then good else bad;
}

unfoldable pub check_constraint : Python → String → Constraint → ConstraintResult
unfolding check_must_include check_must_not word_count check_format count_matches quote_at url_at
    check_run_tests extras contains lower decimal
check_constraint python text c =
    let count = word_count text in
    let cap_detail = decimal count +++ (" words (cap " +++ (decimal c.value +++ ")")) in
    let format_detail = "format=" +++ lower c.pattern in
    let quotes = count_matches quote_at 0 text in
    let urls = count_matches url_at 0 text in
    let out = extras python.word text c.terms in
    if str_eq c.kind "must_include"
    then verdict c (check_must_include text c.terms) "required terms present"
        "missing required terms"
    else if str_eq c.kind "must_not"
    then verdict c (check_must_not text c.terms) "forbidden content absent"
        "forbidden content found"
    else if str_eq c.kind "max_words"
    then verdict c (leb count (max 1 c.value)) cap_detail cap_detail
    else if str_eq c.kind "format"
    then verdict c (check_format text (lower c.pattern)) format_detail format_detail
    else if str_eq c.kind "cite_quotes"
    then verdict c (ltb 0 quotes && ltb 0 urls)
        (decimal urls +++ (" urls, " +++ (decimal quotes +++ " quotes")))
        "need verbatim quote AND url"
    else if str_eq c.kind "run_tests"
    then verdict c (check_run_tests text) "validation log present" "no passing test/lint log"
    else if str_eq c.kind "scope_files"
    then verdict c (is_nil out) "in scope"
        ("out of scope: " +++ python.repr_list (take 5 (sort_by text_le out)))
    else if str_eq c.kind "answer_directly"
    then verdict c (leb (word_count text) 400 && not (contains "elite_prepare" (lower text)))
        "direct answer" "over-tooled or too long"
    else verdict c false "" ("unknown constraint kind `" +++ (c.kind +++ "`"))

abbrev pub unmet_item : ConstraintResult → String
unmet_item r = r.id +++ (": " +++ r.detail)

unfoldable pub unmet_of : List ConstraintResult → List String
unmet_of [] = []
unmet_of (r ∷ rs) = let rest = unmet_of rs in if r.passed then rest else unmet_item r ∷ rest

unfoldable pub check_draft : Python → String → Contract → CheckReport
unfolding check_constraint unmet_of
check_draft python draft contract =
    let results = map (check_constraint python draft) contract.constraints in
    record {
      passed = is_nil (unmet_of results);
      pass_rate =
          (length (keep (λ (r : ConstraintResult). r.passed) results), max 1 (length results));
      results = results;
      unmet = unmet_of results;
    }
