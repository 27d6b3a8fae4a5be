-- ===== src/GitDiff/Entries.antt =====
-- The output of `git status --porcelain=v1 -z`: `_parse_porcelain_z` of
-- core/verification/git_diff.py. The code splits bytes at NUL before it decodes them; here the decoded
-- text is split, which gives the same fields.
use Prim.Native.Char.{code}
use elite_reasoning_mcp.Prelude.{
  ℕ, String, Bool, false, not, ◌&&◌, ◌||◌, List, [], ◌∷◌, ◌==◌, if◌then◌else◌, is_empty, take_chars,
  drop_chars,
}
use elite_reasoning_mcp.GitDiff.Paths.{split_on}

unfoldable pub has_letter : ℕ → String → Bool
has_letter n String.[] = false
has_letter n (String.◌∷◌ c s) = code c == n || has_letter n s

-- "R" in status or "C" in status
abbrev pub is_rename : String → Bool
is_rename status = has_letter 82 status || has_letter 67 status

abbrev pub is_short : String → Bool
is_short s = is_empty (drop_chars 3 s)

-- the loop of `_parse_porcelain_z`
unfoldable pub parse_entries : List String → List (String × String)
unfolding has_letter
parse_entries [] = []
parse_entries (raw ∷ []) = if is_short raw then [] else (take_chars 2 raw, drop_chars 3 raw) ∷ []
parse_entries (raw ∷ source ∷ rest) =
    let one = parse_entries (source ∷ rest) in
    let two = parse_entries rest in
    if is_short raw
    then one
    else if is_rename (take_chars 2 raw) && not (is_empty source)
    then (take_chars 2 raw, source) ∷ (take_chars 2 raw, drop_chars 3 raw) ∷ two
    else (take_chars 2 raw, drop_chars 3 raw) ∷ one

unfoldable pub parse_porcelain_z : String → List (String × String)
unfolding parse_entries split_on
parse_porcelain_z output = parse_entries (split_on 0 output)
