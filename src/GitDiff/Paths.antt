-- ===== src/GitDiff/Paths.antt =====
-- Repository-relative paths: `_normalize_relative_path` of core/verification/git_diff.py, with the
-- part of `PurePosixPath` that it uses. Texts have no surrogates here, so of its test for hostile
-- characters only the one for control characters is left.
use Prim.Native.Char.{Char, code}
use Prim.Native.String.{◌++◌ as ◌+++◌}
use elite_reasoning_mcp.Prelude.{
  ℕ, String, Bool, false, not, ◌&&◌, ◌||◌, Option, none, some, List, [], ◌∷◌, ltb, ◌==◌,
  if◌then◌else◌, str_eq, is_empty, strip, elem, keep,
}

abbrev pub slash : Char
slash = "/"

-- `replace("\\", "/")`
unfoldable pub forward_slashes : String → String
forward_slashes String.[] = ""
forward_slashes (String.◌∷◌ c s) =
    String.◌∷◌ (if code c == 92 then slash else c) (forward_slashes s)

-- `while candidate.startswith("./"): candidate = candidate[2:]`
unfoldable pub drop_dot_slash : String → String
drop_dot_slash (String.◌∷◌ c (String.◌∷◌ d s)) =
    if code c == 46 && code d == 47 then drop_dot_slash s else String.◌∷◌ c (String.◌∷◌ d s)
drop_dot_slash s = s

abbrev pub cons_head : Char → List String → List String
cons_head c [] = String.◌∷◌ c "" ∷ []
cons_head c (t ∷ ts) = String.◌∷◌ c t ∷ ts

-- `s.split(sep)`, for the separator with this code
unfoldable pub split_on : ℕ → String → List String
split_on sep String.[] = "" ∷ []
split_on sep (String.◌∷◌ c s) =
    let rest = split_on sep s in if code c == sep then "" ∷ rest else cons_head c rest

abbrev pub is_part : String → Bool
is_part t = not (is_empty t || str_eq t ".")

-- `PurePosixPath(s).parts` of a relative path
unfoldable pub parts : String → List String
unfolding split_on
parts s = keep is_part (split_on 47 s)

unfoldable pub join : String → List String → String
join sep [] = ""
join sep (t ∷ []) = t
join sep (t ∷ u ∷ ts) = t +++ (sep +++ join sep (u ∷ ts))

unfoldable pub is_absolute : String → Bool
is_absolute String.[] = false
is_absolute (String.◌∷◌ c s) = code c == 47

unfoldable pub has_control : String → Bool
has_control String.[] = false
has_control (String.◌∷◌ c s) = ltb (code c) 32 || has_control s

abbrev pub as_posix : List String → String
as_posix ts = elim ts [ [] ↦ "." | t ∷ us ↦ join "/" (t ∷ us) ]

unfoldable pub candidate : String → String
unfolding forward_slashes drop_dot_slash strip
candidate value = drop_dot_slash (strip (forward_slashes value))

-- `none` stands for the ValueError.
unfoldable pub normalize_relative_path : String → Option String
unfolding candidate parts join is_absolute has_control elem
normalize_relative_path value =
    let c = candidate value in
    if is_empty c || is_absolute c || elem ".." (parts c) || has_control c
    then none
    else some (as_posix (parts c))
