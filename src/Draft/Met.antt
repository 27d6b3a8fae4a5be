-- ===== src/Draft/Met.antt =====
-- What the constraints of a contract ask of a draft (core/reasoning/constraint_check.py).
use Prim.Native.Nat.{min}
use elite_reasoning_mcp.Prelude.{
  ℕ, ◌≤◌, ◌<◌, max, String, ◌≡◌, ◌↔◌, refl, sym, ◌∙◌, Bool, true, false, not, ◌&&◌, inl, inr, List,
  [], ◌∷◌, arith, All, All-imp, map, keep, any, elem, length, leb, ltb, if◌then◌else◌, str_eq,
  Bool-cases, contains, lower,
}
use elite_reasoning_mcp.Prelude.Nil.{is_nil, is_nil-keep}
use elite_reasoning_mcp.Workflow.{Constraint}
use elite_reasoning_mcp.Draft.Patterns.{count_matches, quote_at, url_at, files_in}
use elite_reasoning_mcp.Draft.Terms.{terms_checked}
use elite_reasoning_mcp.Draft.{
  Python, ConstraintResult, word_count, is_hit, last_200, check_format, check_run_tests, as_set,
  extras, check_constraint, fake_success_markers, test_log_markers,
}

-- A draft names none of some terms, and no mark of a pretended success.
abbrev pub NamesNone : String → List String → Type 0
NamesNone text terms =
    All (λ t. is_hit text t ≡ false) terms
    × All (λ m. contains m (lower text) ≡ false) fake_success_markers

-- What each kind of constraint asks for; a kind that is not known is never met.
abbrev pub IsMet : Python → String → Constraint → Type 0
IsMet python text c =
    if str_eq c.kind "must_include"
    then min 2 (length c.terms) ≤ length (keep (is_hit text) c.terms)
    else if str_eq c.kind "must_not"
    then NamesNone text c.terms
    else if str_eq c.kind "max_words"
    then word_count text ≤ max 1 c.value
    else if str_eq c.kind "format"
    then check_format text (lower c.pattern) ≡ true
    else if str_eq c.kind "cite_quotes"
    then (0 < count_matches quote_at 0 text) × (0 < count_matches url_at 0 text)
    else if str_eq c.kind "run_tests"
    then (any (λ m. contains m (lower text)) test_log_markers ≡ true)
      × (contains "failed" (last_200 (lower text)) ≡ false)
    else if str_eq c.kind "scope_files"
    then All (λ file. elem (lower file) (map lower c.terms) ≡ true) (files_in python.word 0 text)
    else if str_eq c.kind "answer_directly"
    then (word_count text ≤ 400) × (contains "elite_prepare" (lower text) ≡ false)
    else ⊥

branch :
    (b : Bool) (r s : ConstraintResult) {P Q : Type 0}
    → (r.passed ≡ true) ↔ P
    → (s.passed ≡ true) ↔ Q
    → ((if b then r else s).passed ≡ true) ↔ (if b then P else Q)
branch true r s f g = f
branch false r s f g = g

elem_nil : (s : String) → elem s [] ≡ false
unfolding elem
elem_nil s = refl

is_nil-as_set : (ss : List String) → is_nil (as_set ss) ≡ is_nil ss
unfolding as_set
is_nil-as_set [] = refl
is_nil-as_set (s ∷ []) = rw (elem_nil s) refl
is_nil-as_set (s ∷ t ∷ ss) = elim (Bool-cases (elem s (t ∷ ss))) [
  | inl e ↦ rw e (is_nil-as_set (t ∷ ss))
  | inr e ↦ rw e refl
]

double_not : (b : Bool) → (not b ≡ false) ↔ (b ≡ true)
double_not b = ground arith

in_scope :
    (word : ℕ → Bool) (text : String) (terms : List String)
    → (is_nil (extras word text terms) ≡ true)
      ↔ All (λ file. elem (lower file) (map lower terms) ≡ true) (files_in word 0 text)
unfolding extras
in_scope word text terms =
    let files = files_in word 0 text in
    let allowed = map lower terms in
    let out = keep (λ file. not (elem (lower file) allowed)) files in
    let nil = is_nil-keep (λ file. not (elem (lower file) allowed)) files in
    (
      (λ h.
          All-imp (λ file. not (elem (lower file) allowed) ≡ false)
            (λ file. elem (lower file) allowed ≡ true) files
            (λ file. (double_not (elem (lower file) allowed)).0)
            (nil.0 (sym (is_nil-as_set out) ∙ h))),
      (λ h.
          is_nil-as_set out
          ∙ nil.1 (
              All-imp (λ file. elem (lower file) allowed ≡ true)
                (λ file. not (elem (lower file) allowed) ≡ false) files
                (λ file. (double_not (elem (lower file) allowed)).1) h)),
    )

few_words : (n m : ℕ) → (leb n m ≡ true) ↔ (n ≤ m)
few_words n m = ground arith

cited : (quotes urls : ℕ) → ((ltb 0 quotes && ltb 0 urls) ≡ true) ↔ ((0 < quotes) × (0 < urls))
cited quotes urls = ground arith

and_not : (a b : Bool) → ((a && not b) ≡ true) ↔ ((a ≡ true) × (b ≡ false))
and_not a b = ground arith

direct : (n m : ℕ) (b : Bool) → ((leb n m && not b) ≡ true) ↔ ((n ≤ m) × (b ≡ false))
direct n m b = ground arith

tests_logged :
    (text : String)
    → (check_run_tests text ≡ true) ↔ (
        (any (λ m. contains m (lower text)) test_log_markers ≡ true)
        × (contains "failed" (last_200 (lower text)) ≡ false))
unfolding check_run_tests
tests_logged text = and_not _ (contains "failed" (last_200 (lower text)))

-- A constraint counts as passed exactly if the draft does what it asks for.
pub check_constraint-IsMet :
    (python : Python) (text : String) (c : Constraint)
    → ((check_constraint python text c).passed ≡ true) ↔ IsMet python text c
unfolding check_constraint
check_constraint-IsMet python text c =
    branch (str_eq c.kind "must_include") _ _ (terms_checked text c.terms).0 (
      branch (str_eq c.kind "must_not") _ _ (terms_checked text c.terms).1 (
        branch (str_eq c.kind "max_words") _ _ (few_words (word_count text) (max 1 c.value)) (
          branch (str_eq c.kind "format") _ _ ((λ h. h), (λ h. h))
            (branch (str_eq c.kind "cite_quotes") _ _
              (cited (count_matches quote_at 0 text) (count_matches url_at 0 text))
              (branch (str_eq c.kind "run_tests") _ _ (tests_logged text) (
                branch (str_eq c.kind "scope_files") _ _ (in_scope python.word text c.terms) (
                  branch (str_eq c.kind "answer_directly") _ _
                    (direct (word_count text) 400 (contains "elite_prepare" (lower text)))
                    ((λ h. cc), (λ h. absurd h)))))))))
