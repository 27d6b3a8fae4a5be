-- ===== src/GitDiff/Inside.antt =====
-- Where the paths that `_normalize_relative_path` of core/verification/git_diff.py returns lead.
use Prim.Native.Char.{Char, code}
use Prim.Native.String.{◌++◌ as ◌+++◌}
use Prim.Native.String.append
use elite_reasoning_mcp.Prelude.{
  String, ◌≡◌, refl, ◌∙◌, Bool, true, false, ◌||◌, Option, none, some, List, [], ◌∷◌, ap, arith,
  All, All-imp, All-imp₂, ◌==◌, if◌then◌else◌, inl, inr, elem, keep, keep_all, All-keep,
  All-keep_self, Bool-cases,
}
use elite_reasoning_mcp.GitDiff.Paths.{
  split_on, cons_head, parts, join, is_part, as_posix, is_absolute, candidate,
  normalize_relative_path,
}

unfoldable has_slash : String → Bool
has_slash String.[] = false
has_slash (String.◌∷◌ c s) = code c == 47 || has_slash s

no_slash :
    (c : Char) (s : String)
    → has_slash (String.◌∷◌ c s) ≡ false
    → ((code c == 47) ≡ false) × (has_slash s ≡ false)
unfolding has_slash
no_slash c s h = ground arith

cons_head-has_slash :
    (c : Char) (ts : List String)
    → (code c == 47) ≡ false
    → All (λ t. has_slash t ≡ false) ts
    → All (λ t. has_slash t ≡ false) (cons_head c ts)
unfolding has_slash
cons_head-has_slash c [] e h = (rw e refl, tt)
cons_head-has_slash c (t ∷ ts) e h = (rw e h.0, h.1)

split_on-has_slash : (s : String) → All (λ t. has_slash t ≡ false) (split_on 47 s)
unfolding split_on has_slash
split_on-has_slash String.[] = (refl, tt)
split_on-has_slash (String.◌∷◌ c s) = elim (Bool-cases (code c == 47)) [
  | inl e ↦ rw e (refl, split_on-has_slash s)
  | inr e ↦ rw e (cons_head-has_slash c (split_on 47 s) e (split_on-has_slash s))
]

split_on-plain : (s : String) → has_slash s ≡ false → split_on 47 s ≡ s ∷ []
unfolding split_on has_slash
split_on-plain String.[] h = refl
split_on-plain (String.◌∷◌ c s) h =
    rw (no_slash c s h).0 (rw (split_on-plain s (no_slash c s h).1) refl)

split_on-join :
    (s t : String) → has_slash s ≡ false → split_on 47 (s +++ ("/" +++ t)) ≡ s ∷ split_on 47 t
unfolding split_on has_slash
split_on-join String.[] t h =
    rw (append.nil ("/" +++ t)) (rw (append.cons "/" "" t) (rw (append.nil t) refl))
split_on-join (String.◌∷◌ c s) t h =
    rw (append.cons c s ("/" +++ t))
      (rw (no_slash c s h).0 (rw (split_on-join s t (no_slash c s h).1) refl))

abbrev Part : String → Type 0
Part t = (has_slash t ≡ false) × (is_part t ≡ true)

split_on-joined :
    (t : String) (ts : List String) → All Part (t ∷ ts) → split_on 47 (join "/" (t ∷ ts)) ≡ t ∷ ts
unfolding join
split_on-joined t [] h = split_on-plain t h.0.0
split_on-joined t (u ∷ ts) h =
    split_on-join t (join "/" (u ∷ ts)) h.0.0 ∙ ap (◌∷◌ t) (split_on-joined u ts h.1)

-- A joined path has the parts that it was joined from.
parts-as_posix : (ts : List String) → All Part ts → parts (as_posix ts) ≡ ts
unfolding parts
parts-as_posix [] h = refl
parts-as_posix (t ∷ ts) h =
    ap (keep is_part) (split_on-joined t ts h)
    ∙ keep_all is_part (t ∷ ts) (All-imp _ _ (t ∷ ts) (λ t p. p.1) h)

parts-Part : (s : String) → All Part (parts s)
unfolding parts
parts-Part s =
    All-imp₂ _ _ _ (parts s) (λ t h k. (h, k))
      (All-keep _ is_part (split_on 47 s) (split_on-has_slash s))
      (All-keep_self is_part (split_on 47 s))

is_absolute-Part : (t : String) → Part t → is_absolute t ≡ false
unfolding is_absolute has_slash
is_absolute-Part String.[] h = refl
is_absolute-Part (String.◌∷◌ c t) h = ground arith

absolute_head : (t u : String) → Part t → is_absolute (t +++ u) ≡ false
unfolding is_absolute has_slash
absolute_head String.[] u h = absurd (ground (arith, h))
absolute_head (String.◌∷◌ c t) u h = rw (append.cons c t u) (ground arith)

is_absolute-as_posix : (ts : List String) → All Part ts → is_absolute (as_posix ts) ≡ false
unfolding join is_absolute
is_absolute-as_posix [] h = refl
is_absolute-as_posix (t ∷ []) h = is_absolute-Part t h.0
is_absolute-as_posix (t ∷ u ∷ ts) h = absolute_head t _ h.0

returned :
    (b : Bool) (s p : String)
    → ◌≡◌ {A = Option String} (if b then none else some s) (some p)
    → (b ≡ false) × (p ≡ s)
returned true s p h = absurd (ground arith)
returned false s p h = (refl, ground arith)

-- A path that is returned is relative, and none of its parts is "..".
pub normalize_relative_path-inside :
    (value path : String)
    → normalize_relative_path value ≡ some path
    → (is_absolute path ≡ false) × (elem ".." (parts path) ≡ false)
unfolding normalize_relative_path
normalize_relative_path-inside value path h =
    let r = returned _ _ path h in
    rw r.1 (
      is_absolute-as_posix (parts (candidate value)) (parts-Part (candidate value)),
      rw (parts-as_posix (parts (candidate value)) (parts-Part (candidate value)))
          (ground (arith, r.0)),
    )
