-- ===== src/Draft/Patterns.antt =====
-- The regular expressions of core/reasoning/constraint_check.py, written out as scanners. Which
-- characters beyond ASCII count as letters (`\w`) is the argument `word`.
use Prim.Native.Char.{code}
use elite_reasoning_mcp.Prelude.{
  ◌+◌, ℕ, zero, suc, ◌-◌, String, Bool, true, false, not, ◌&&◌, ◌||◌, Option, none, some, List, [],
  ◌∷◌, ltb, leb, ◌==◌, if◌then◌else◌, starts_with, is_space, is_blank, lower_char, drop_chars,
  first,
}

-- `re.search(r"\{[\s\S]*\}", text)`
abbrev after_brace : String → Bool
after_brace String.[] = false
after_brace (String.◌∷◌ c s) = code c == b'}' || after_brace s

unfoldable pub has_braces : String → Bool
has_braces String.[] = false
has_braces (String.◌∷◌ c s) = code c == b'{' && after_brace s || has_braces s

-- `\s+\S`
unfoldable starts_item : String → Bool
unfolding is_space is_blank
starts_item String.[] = false
starts_item (String.◌∷◌ c s) = is_space (code c) && not (is_blank s)

-- `re.search(r"(?m)^\s*[-*]\s+\S", text)`; `fresh` says that the line has only blanks so far
unfoldable pub has_bullet : Bool → String → Bool
unfolding starts_item is_space
has_bullet fresh String.[] = false
has_bullet fresh (String.◌∷◌ c s) =
    fresh && (code c == b'-' || code c == b'*') && starts_item s
    || has_bullet (code c == 10 || fresh && is_space (code c)) s

-- `re.search(r"^#|\*\*|```", text, re.M)`
unfoldable pub has_markdown : Bool → String → Bool
has_markdown fresh String.[] = false
has_markdown fresh (String.◌∷◌ c s) =
    fresh && code c == b'#'
    || starts_with (String.◌∷◌ c s) "**"
    || starts_with (String.◌∷◌ c s) "```"
    || has_markdown (code c == 10) s

-- How many characters of a text come before the first that does not pass a test.
abbrev pub run_length : (ℕ → Bool) → String → ℕ
run_length p String.[] = 0
run_length p (String.◌∷◌ c s) = let rest = run_length p s in if p (code c) then suc rest else 0

-- `re.findall`, for a matcher that gives the length of the match at the head of a text
unfoldable pub count_matches : (String → Option ℕ) → ℕ → String → ℕ
count_matches m skip String.[] = 0
count_matches m (suc skip) (String.◌∷◌ c s) = count_matches m skip s
count_matches m zero (String.◌∷◌ c s) = elim (m (String.◌∷◌ c s)) [
  | none ↦ count_matches m zero s
  | some n ↦ suc (count_matches m (n - 1) s)
]

-- `OPEN([^CLOSE]{12,240})CLOSE`
unfoldable quoted : ℕ → ℕ → String → Option ℕ
unfolding drop_chars
quoted open_code close_code String.[] = none
quoted open_code close_code (String.◌∷◌ c s) =
    let n = run_length (λ k. not (k == close_code)) s in
    let closed = run_length (λ k. k == close_code) (drop_chars n s) in
    if code c == open_code && leb 12 n && leb n 240 && ltb 0 closed
    then some (suc (suc n))
    else none

-- `_QUOTE_RE`
unfoldable pub quote_at : String → Option ℕ
unfolding quoted
quote_at s = elim (quoted 34 34 s) [ some n ↦ some n | none ↦ quoted 8220 8221 s ]

-- `_URL_RE`: the classes are compared in lower case
unfoldable is_scheme : String → String → Bool
unfolding lower_char
is_scheme String.[] s = true
is_scheme (String.◌∷◌ p ps) String.[] = false
is_scheme (String.◌∷◌ p ps) (String.◌∷◌ c s) = code (lower_char c) == code p && is_scheme ps s

unfoldable url_tail : ℕ → String → Option ℕ
unfolding drop_chars is_space
url_tail n s =
    let k =
      run_length (λ c. not (is_space c || c == b')' || c == b'>' || c == b']')) (drop_chars n s) in
    if ltb 0 k then some (n + k) else none

unfoldable pub url_at : String → Option ℕ
unfolding is_scheme url_tail
url_at s =
    if is_scheme "http://" s
    then url_tail 7 s
    else if is_scheme "https://" s
    then url_tail 8 s
    else none

-- `[\w./-]`
abbrev pub is_file_code : (ℕ → Bool) → ℕ → Bool
is_file_code word n =
    leb b'a' n && leb n b'z'
    || leb b'A' n && leb n b'Z'
    || leb b'0' n && leb n b'9'
    || n == b'_'
    || n == b'.'
    || n == b'/'
    || n == b'-'
    || leb 128 n && word n

-- The alternatives, in the order in which they are tried.
abbrev pub extensions : List String
extensions =
    ".py" ∷ ".ts" ∷ ".js" ∷ ".tsx" ∷ ".jsx" ∷ ".md" ∷ ".toml" ∷ ".yml" ∷ ".yaml" ∷ ".json" ∷ []

-- `\.(?:py|ts|...)` at the head of a text
abbrev pub extension_at : String → Option String
extension_at s = first (starts_with s) extensions

-- `[\w./-]+\.(?:py|ts|...)` at the head of a text: the longest run that an extension follows
unfoldable pub file_at : (ℕ → Bool) → String → Option String
file_at word String.[] = none
file_at word (String.◌∷◌ c s) =
    let longer = file_at word s in
    if is_file_code word (code c)
    then elim longer [
      | some m ↦ some (String.◌∷◌ c m)
      | none ↦ elim (extension_at s) [ some e ↦ some (String.◌∷◌ c e) | none ↦ none ]
    ]
    else none

unfoldable pub count_chars : String → ℕ
count_chars String.[] = 0
count_chars (String.◌∷◌ c s) = suc (count_chars s)

-- the matches that `re.findall` lists
unfoldable pub files_in : (ℕ → Bool) → ℕ → String → List String
unfolding file_at count_chars
files_in word skip String.[] = []
files_in word (suc skip) (String.◌∷◌ c s) = files_in word skip s
files_in word zero (String.◌∷◌ c s) = elim (file_at word (String.◌∷◌ c s)) [
  | none ↦ files_in word zero s
  | some m ↦ m ∷ files_in word (count_chars m - 1) s
]
