-- ===== src/Prelude/Text.antt =====
-- The string methods that the code uses: strip, lower, startswith, endswith, `in`.
-- `lower` maps the letters A to Z, and leaves other characters alone.
use Prim.Native.Nat.{Ordering, ℕ, zero, suc, ◌-◌, ◌/◌, ◌%◌}
use Prim.Native.Char.{Char, code, nul}
use Prim.Native.String.{String, char_at, ◌++◌, compare}
use text.Mathlib.Text.{◌==◌ as str_eq, find?}
use mathlib.Core.Bool.{Bool, true, false, ◌&&◌, ◌||◌}
use mathlib.Core.Option.{none, some}
use mathlib.Core.List.{List, [], ◌∷◌}
use elite_reasoning_mcp.Prelude.Tests.{leb, ltb, ◌==◌, if◌then◌else◌}

-- The code points that `str.strip` drops.
unfoldable pub is_space : ℕ → Bool
is_space n =
    leb 9 n && leb n 13
    || leb 28 n && leb n 32
    || n == 133
    || n == 160
    || n == 5760
    || leb 8192 n && leb n 8202
    || n == 8232
    || n == 8233
    || n == 8239
    || n == 8287
    || n == 12288

unfoldable pub lstrip : String → String
unfolding is_space
lstrip String.[] = ""
lstrip (String.◌∷◌ c s) = if is_space (code c) then lstrip s else String.◌∷◌ c s

unfoldable pub rstrip : String → String
unfolding is_space
rstrip String.[] = ""
rstrip (String.◌∷◌ c s) =
    let rest = rstrip s in if is_space (code c) && str_eq rest "" then "" else String.◌∷◌ c rest

unfoldable pub strip : String → String
unfolding lstrip rstrip
strip s = rstrip (lstrip s)

unfoldable pub lower_char : Char → Char
lower_char c =
    if leb 65 (code c) && leb (code c) 90
    then char_at "abcdefghijklmnopqrstuvwxyz" (code c - 65)
    else c

unfoldable pub lower : String → String
unfolding lower_char
lower String.[] = ""
lower (String.◌∷◌ c s) = String.◌∷◌ (lower_char c) (lower s)

-- `not s.strip()`
unfoldable pub is_blank : String → Bool
unfolding strip
is_blank s = str_eq (strip s) ""

abbrev pub is_empty : String → Bool
is_empty s = str_eq s ""

-- `t in s`
unfoldable pub contains : String → String → Bool
contains t s = elim (find? s t) [ none ↦ false | some _ ↦ true ]

unfoldable pub ends_with : String → String → Bool
ends_with s t = elim s as (λ x. Bool) [
  | String.[] ↦ str_eq "" t
  | String.◌∷◌ c (rest → ih) ↦ str_eq (String.◌∷◌ c rest) t || ih
]

-- `s in (...)`, for a collection of strings
unfoldable pub elem : String → List String → Bool
elem s [] = false
elem s (t ∷ ts) = str_eq t s || elem s ts

-- `s[:n]`
unfoldable pub take_chars : ℕ → String → String
take_chars zero s = ""
take_chars (suc n) String.[] = ""
take_chars (suc n) (String.◌∷◌ c s) = String.◌∷◌ c (take_chars n s)

-- `s[n:]`
unfoldable pub drop_chars : ℕ → String → String
drop_chars zero s = s
drop_chars (suc n) String.[] = ""
drop_chars (suc n) (String.◌∷◌ c s) = drop_chars n s

-- The last `fuel` decimal digits of a number; a number has at most one digit more than it counts.
unfoldable decimal_digits : ℕ → ℕ → String
decimal_digits zero n = ""
decimal_digits (suc fuel) n =
    let before = decimal_digits fuel (n / 10) in
    let last = String.◌∷◌ (char_at "0123456789" (n % 10)) "" in
    if ltb n 10 then last else before ++ last

-- `str(n)`
unfoldable pub decimal : ℕ → String
unfolding decimal_digits
decimal n = decimal_digits (suc n) n

-- `s <= t`
abbrev pub text_le : String → String → Bool
text_le s t = elim (compare s t) [ Ordering.gt ↦ false | _ ↦ true ]

abbrev first_letter : Char → List String → List String
first_letter c [] = String.◌∷◌ c "" ∷ []
first_letter c (w ∷ ws) = String.◌∷◌ c w ∷ ws

-- the words of a text and whether it begins with one of them
unfoldable split_words : String → List String × Bool
unfolding is_space
split_words String.[] = ([], false)
split_words (String.◌∷◌ c s) =
    let rest = split_words s in
    if is_space (code c)
    then (rest.0, false)
    else if rest.1
    then (first_letter c rest.0, true)
    else (String.◌∷◌ c "" ∷ rest.0, true)

-- `s.split()`
unfoldable pub words : String → List String
unfolding split_words
words s = (split_words s).0

-- the separator "\0"
abbrev pub nul_text : String
nul_text = String.◌∷◌ nul ""
