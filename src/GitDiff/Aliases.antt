-- ===== src/GitDiff/Aliases.antt =====
-- Different paths that `_normalize_relative_path` of core/verification/git_diff.py takes for one.
use Prim.Native.Char.{code}
use elite_reasoning_mcp.Prelude.{String, ◌≡◌, refl, ap, ◌==◌, Bool-cases, inl, inr}
use elite_reasoning_mcp.Prelude.Text.{strip, lstrip, is_space}
use elite_reasoning_mcp.GitDiff.Paths.{forward_slashes, candidate, normalize_relative_path, slash}

forward_slashes_idem : (s : String) → forward_slashes (forward_slashes s) ≡ forward_slashes s
unfolding forward_slashes
forward_slashes_idem String.[] = refl
forward_slashes_idem (String.◌∷◌ c s) = elim (Bool-cases (code c == 92)) [
  | inl e ↦ rw e (ap (String.◌∷◌ slash) (forward_slashes_idem s))
  | inr e ↦ rw e (rw e (ap (String.◌∷◌ c) (forward_slashes_idem s)))
]

candidate-space : (s : String) → candidate (String.◌∷◌ " " s) ≡ candidate s
unfolding candidate forward_slashes strip lstrip is_space
candidate-space s = refl

candidate-slashes : (s : String) → candidate (forward_slashes s) ≡ candidate s
unfolding candidate
candidate-slashes s = rw (forward_slashes_idem s) refl

-- A path that begins with a space is taken for the one without it, and a path with backslashes for
-- the one with slashes in their place.
pub normalize_relative_path_aliases :
    (s : String)
    → (normalize_relative_path (String.◌∷◌ " " s) ≡ normalize_relative_path s)
      × (normalize_relative_path (forward_slashes s) ≡ normalize_relative_path s)
unfolding normalize_relative_path
normalize_relative_path_aliases s = (rw (candidate-space s) refl, rw (candidate-slashes s) refl)
