-- ===== src/Draft/Scope.antt =====
-- What the file scope of a draft makes of JSON files (core/reasoning/constraint_check.py).
use Prim.Native.Char.{Char, code}
use Prim.Native.String.append
use Prim.Native.String.{◌++◌ as ◌+++◌}
use mathlib.Core.Path.{subst}
use elite_reasoning_mcp.Prelude.{
  ℕ, suc, ◌+◌, ◌-◌, String, ◌≡◌, refl, sym, ap, ◌∙◌, Bool, true, false, ◌&&◌, inl, inr, some, [],
  ◌∷◌, arith, leb, Bool-cases, str_eq, str_eq_iff, lower, elem,
}
use elite_reasoning_mcp.Workflow.{Constraint}
use elite_reasoning_mcp.Draft.Patterns.{is_file_code, file_at, files_in, count_chars}
use elite_reasoning_mcp.Draft.{Python, extras, as_set, check_constraint}

-- The text has nothing but small letters.
abbrev pub has_small_letters : String → Bool
has_small_letters String.[] = true
has_small_letters (String.◌∷◌ c s) = leb b'a' (code c) && leb (code c) b'z' && has_small_letters s

count_chars-lower : (s : String) → count_chars (lower s) ≡ count_chars s
unfolding count_chars lower
count_chars-lower String.[] = refl
count_chars-lower (String.◌∷◌ c s) = ap suc (count_chars-lower s)

count_chars-append : (s t : String) → count_chars (s +++ t) ≡ count_chars s + count_chars t
unfolding count_chars
count_chars-append String.[] t = rw (append.nil t) (omega arith)
count_chars-append (String.◌∷◌ c s) t =
    rw (append.cons c s t) (omega (arith, count_chars-append s t))

small_letter :
    (word : ℕ → Bool) (n : ℕ) → (leb b'a' n && leb n b'z') ≡ true → is_file_code word n ≡ true
small_letter word n h = ground arith

cons_json :
    (c : Char) (s : String) (ext : String) → String.◌∷◌ c s +++ ext ≡ String.◌∷◌ c (s +++ ext)
cons_json c s ext = append.cons c s ext

file_at-longer :
    (word : ℕ → Bool) (c : Char) (s m : String)
    → is_file_code word (code c) ≡ true
    → file_at word s ≡ some m
    → file_at word (String.◌∷◌ c s) ≡ some (String.◌∷◌ c m)
unfolding file_at
file_at-longer word c s m h e = rw (h, e) refl

file_at-last :
    (word : ℕ → Bool) (c : Char)
    → is_file_code word (code c) ≡ true
    → file_at word (String.◌∷◌ c ".json") ≡ some (String.◌∷◌ c ".js")
unfolding file_at
file_at-last word c h = rw h refl

-- The match in a name with the extension .json ends after ".js".
file_at-json :
    (word : ℕ → Bool) (c : Char) (stem : String)
    → has_small_letters (String.◌∷◌ c stem) ≡ true
    → file_at word (String.◌∷◌ c (stem +++ ".json")) ≡ some (String.◌∷◌ c (stem +++ ".js"))
file_at-json word c String.[] h =
    subst (λ s. file_at word (String.◌∷◌ c s) ≡ some (String.◌∷◌ c ("" +++ ".js")))
      (sym (append.nil ".json"))
      (subst (λ s. file_at word (String.◌∷◌ c ".json") ≡ some (String.◌∷◌ c s))
        (sym (append.nil ".js")) (file_at-last word c (small_letter word (code c) (ground arith))))
file_at-json word c (String.◌∷◌ d stem) h =
    let m = String.◌∷◌ d (stem +++ ".js") in
    subst (λ s. file_at word (String.◌∷◌ c s) ≡ some (String.◌∷◌ c (String.◌∷◌ d stem +++ ".js")))
      (sym (cons_json d stem ".json"))
      (subst
        (λ s. file_at word (String.◌∷◌ c (String.◌∷◌ d (stem +++ ".json"))) ≡ some (String.◌∷◌ c s))
        (sym (cons_json d stem ".js"))
        (file_at-longer word c (String.◌∷◌ d (stem +++ ".json")) m
          (small_letter word (code c) (ground arith)) (file_at-json word d stem (ground arith))))

files_in-json_rest :
    (word : ℕ → Bool) (stem : String) → files_in word (count_chars stem + 3) (stem +++ ".json") ≡ []
unfolding files_in count_chars file_at
files_in-json_rest word String.[] =
    subst (λ s. files_in word 3 s ≡ []) (sym (append.nil ".json")) refl
files_in-json_rest word (String.◌∷◌ c stem) =
    subst (λ s. files_in word (suc (count_chars stem) + 3) s ≡ []) (sym (cons_json c stem ".json"))
      (subst (λ n. files_in word n (String.◌∷◌ c (stem +++ ".json")) ≡ [])
        (suc_add (count_chars stem) 3) (files_in-json_rest word stem))
  where
    suc_add : (m n : ℕ) → suc (m + n) ≡ suc m + n
    suc_add m n = omega arith

files_in-step :
    (word : ℕ → Bool) (c : Char) (s m : String) (n : ℕ)
    → file_at word (String.◌∷◌ c s) ≡ some m
    → count_chars m - 1 ≡ n
    → files_in word 0 (String.◌∷◌ c s) ≡ m ∷ files_in word n s
unfolding files_in
files_in-step word c s m n e k = rw (e, files_in) (rw k refl)

files_in-json :
    (word : ℕ → Bool) (c : Char) (stem : String)
    → has_small_letters (String.◌∷◌ c stem) ≡ true
    → files_in word 0 (String.◌∷◌ c (stem +++ ".json")) ≡ String.◌∷◌ c (stem +++ ".js") ∷ []
files_in-json word c stem h =
    let size : count_chars (String.◌∷◌ c (stem +++ ".js")) - 1 ≡ count_chars stem + 3 =
      unfold count_chars in omega (arith, count_chars-append stem ".js") in
    files_in-step word c (stem +++ ".json") (String.◌∷◌ c (stem +++ ".js")) (count_chars stem + 3)
      (file_at-json word c stem h) size
    ∙ ap (λ rest. String.◌∷◌ c (stem +++ ".js") ∷ rest) (files_in-json_rest word stem)

js-ne-json : (stem : String) → str_eq (lower (stem +++ ".json")) (lower (stem +++ ".js")) ≡ false
js-ne-json stem = elim (Bool-cases (str_eq (lower (stem +++ ".json")) (lower (stem +++ ".js")))) [
  | inr e ↦ e
  | inl e ↦
      let same =
        ap count_chars ((str_eq_iff (lower (stem +++ ".json")) (lower (stem +++ ".js"))).0 e) in
      absurd (
        unfold count_chars in
        omega (
          arith,
          same,
          count_chars-lower (stem +++ ".json"),
          count_chars-lower (stem +++ ".js"),
          count_chars-append stem ".json",
          count_chars-append stem ".js",
        ))
]

-- A draft that consists of the name of a JSON file, in small letters, fails the file scope also
-- where just this file is allowed: the name is read as one that ends in ".js".
pub json_refused :
    (python : Python) (name_head : Char) (name_tail : String) (c : Constraint)
    → has_small_letters (String.◌∷◌ name_head name_tail) ≡ true
    → c.kind ≡ "scope_files"
    → c.terms ≡ (String.◌∷◌ name_head name_tail +++ ".json") ∷ []
    → (check_constraint python (String.◌∷◌ name_head name_tail +++ ".json") c).passed ≡ false
unfolding check_constraint extras as_set elem
json_refused python d stem c letters k t =
    let found : files_in python.word 0 (String.◌∷◌ d stem +++ ".json")
        ≡ (String.◌∷◌ d stem +++ ".js") ∷ [] =
      subst (λ s. files_in python.word 0 s ≡ (String.◌∷◌ d stem +++ ".js") ∷ [])
        (sym (cons_json d stem ".json"))
        (subst (λ s. files_in python.word 0 (String.◌∷◌ d (stem +++ ".json")) ≡ s ∷ [])
          (sym (cons_json d stem ".js")) (files_in-json python.word d stem letters)) in
    rw (k, t) (rw found (rw (js-ne-json (String.◌∷◌ d stem)) refl))
