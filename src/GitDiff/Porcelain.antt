-- ===== src/GitDiff/Porcelain.antt =====
-- The output of `git status --porcelain=v1 -z`, written by an independent printer, and what
-- `_parse_porcelain_z` of core/verification/git_diff.py reads from it.
use Prim.Native.Char.{Char, code, nul}
use elite_reasoning_mcp.Prelude.{
  String, ◌≡◌, refl, true, false, List, [], ◌∷◌, ap, arith, All, is_empty, take_chars, drop_chars,
  ◌==◌,
}
use elite_reasoning_mcp.GitDiff.{has_letter, is_rename, parse_entries, parse_porcelain_z}
use elite_reasoning_mcp.GitDiff.Paths.{split_on}

-- A changed path under a status of two letters, or a rename or copy to a first path from a second.
pub data Change : Type 0 where
  plain : Char → Char → String → Change
  moved : Char → Char → String → String → Change

abbrev letters : Char → Char → String
letters x y = String.◌∷◌ x (String.◌∷◌ y "")

abbrev field : Char → Char → String → String
field x y path = String.◌∷◌ x (String.◌∷◌ y (String.◌∷◌ " " path))

-- a field that ends with NUL, before what follows
unfoldable terminated : String → String → String
terminated String.[] rest = String.◌∷◌ nul rest
terminated (String.◌∷◌ c s) rest = String.◌∷◌ c (terminated s rest)

unfoldable pub print : List Change → String
unfolding terminated
print [] = ""
print (plain x y path ∷ changes) = terminated (field x y path) (print changes)
print (moved x y path source ∷ changes) =
    terminated (field x y path) (terminated source (print changes))

-- Both paths of a rename count as changed.
unfoldable pub paths_of : List Change → List (String × String)
paths_of [] = []
paths_of (plain x y path ∷ changes) = (letters x y, path) ∷ paths_of changes
paths_of (moved x y path source ∷ changes) =
    (letters x y, source) ∷ (letters x y, path) ∷ paths_of changes

-- Paths are not empty and hold no NUL, and R or C marks exactly the renames and copies.
pub record IsField (x y : Char) (path : String) : Type 0 where
  pub no_nul : has_letter 0 (field x y path) ≡ false
  pub some_path : is_empty path ≡ false

pub data IsWritten : Change → Type 0 where
  is_plain :
      {x y : Char} {path : String}
      → IsField x y path
      → is_rename (letters x y) ≡ false
      → IsWritten (plain x y path)
  is_moved :
      {x y : Char} {path source : String}
      → IsField x y path
      → is_rename (letters x y) ≡ true
      → has_letter 0 source ≡ false
      → is_empty source ≡ false
      → IsWritten (moved x y path source)

no_letter :
    (c : Char) (s : String)
    → has_letter 0 (String.◌∷◌ c s) ≡ false
    → ((code c == 0) ≡ false) × (has_letter 0 s ≡ false)
unfolding has_letter
no_letter c s h = ground arith

split_on-terminated :
    (s rest : String)
    → has_letter 0 s ≡ false
    → split_on 0 (terminated s rest) ≡ s ∷ split_on 0 rest
unfolding split_on terminated has_letter
split_on-terminated String.[] rest h = refl
split_on-terminated (String.◌∷◌ c s) rest h =
    rw (no_letter c s h).0 (rw (split_on-terminated s rest (no_letter c s h).1) refl)

parse_entries-plain :
    (x y : Char) (path : String) (ts : List String)
    → is_empty path ≡ false
    → is_rename (letters x y) ≡ false
    → parse_entries (field x y path ∷ ts) ≡ (letters x y, path) ∷ parse_entries ts
unfolding parse_entries drop_chars take_chars
parse_entries-plain x y path [] n r = rw n refl
parse_entries-plain x y path (t ∷ ts) n r = rw n (rw r refl)

parse_entries-moved :
    (x y : Char) (path source : String) (ts : List String)
    → is_empty path ≡ false
    → is_empty source ≡ false
    → is_rename (letters x y) ≡ true
    → parse_entries (field x y path ∷ source ∷ ts)
      ≡ (letters x y, source) ∷ (letters x y, path) ∷ parse_entries ts
unfolding parse_entries drop_chars take_chars
parse_entries-moved x y path source ts n m r = rw n (rw r (rw m refl))

-- What the parser reads from the printed changes, whose paths are not empty and hold no NUL, are
-- the two letters and the path of each, and for a rename or a copy the source before the target.
pub parse-print :
    (changes : List Change)
    → All IsWritten changes
    → parse_porcelain_z (print changes) ≡ paths_of changes
unfolding parse_porcelain_z print paths_of split_on parse_entries drop_chars
parse-print [] h = refl
parse-print (plain x y path ∷ changes) (is_plain f r, h) =
    rw (split_on-terminated (field x y path) (print changes) f.no_nul) (
      rw (parse_entries-plain x y path (split_on 0 (print changes)) f.some_path r)
        (ap (◌∷◌ (letters x y, path)) (parse-print changes h)))
parse-print (moved x y path source ∷ changes) (is_moved f r n e, h) =
    rw (split_on-terminated (field x y path) (terminated source (print changes)) f.no_nul) (
      rw (split_on-terminated source (print changes) n) (
        rw (parse_entries-moved x y path source (split_on 0 (print changes)) f.some_path e r)
          (ap (λ ps. (letters x y, source) ∷ (letters x y, path) ∷ ps) (parse-print changes h))))
