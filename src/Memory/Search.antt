-- ===== src/Memory/Search.antt =====
-- What a search of the memory items of core/memory/persistent_store.py returns.
use Prim.Native.Nat.{min}
use elite_reasoning_mcp.Prelude.{
  ℕ, ◌≤◌, ◌<◌, String, ◌≡◌, ◌⊎◌, refl, Bool, true, false, not, ◌&&◌, ◌||◌, List, [], ◌∷◌, map,
  arith, All, All-imp₂, All-keep, All-keep_self, All-take, inl, inr, length, length-take-le, take,
  keep, lower, strip, is_empty, str_eq, str_eq_iff, leb, leb→le, if◌then◌else◌, ◌==◌,
}
use elite_reasoning_mcp.Prelude.Text.{text_le}
use elite_reasoning_mcp.Prelude.Sort.{sort_by, All-sort_by}
use elite_reasoning_mcp.Prelude.Nil.{All-map}
use elite_reasoning_mcp.Workflow.{bounded}
use elite_reasoning_mcp.Memory.{
  Privacy, Item, Table, Result, is_sensitive, is_eligible, terms_of, match_score, read_item,
  result_of, matching, ranks_before, scores_before, search_memory_items,
}
use elite_reasoning_mcp.Memory.Safety.{IsSafe, TableSafe}

-- What a search may show. Only a search that asks for the quarantine shows an item of it, which may be
-- sensitive or little trusted.
pub record IsShowable (p : Privacy) (now scope : String) (min_trust : ℕ)
    (include_quarantined : Bool) (terms : List String) (r : Result) : Type 0 where
  pub free : include_quarantined ≡ false → r.row.quarantined ≡ false
  pub insensitive : r.row.quarantined ≡ false → is_sensitive r.row.privacy_class ≡ false
  pub safe_trust : r.row.quarantined ≡ false → 50 ≤ r.row.trust_score
  pub trusted : min 100 min_trust ≤ r.row.trust_score
  pub current : (r.row.expires_at ≡ "") ⊎ (text_le now r.row.expires_at ≡ true)
  pub in_scope : (scope ≡ "") ⊎ ((r.row.scope ≡ lower (strip scope)) ⊎ (r.row.scope ≡ "global"))
  pub redacted : r.shown ≡ read_item p r.row
  pub scored : r.match_score ≡ match_score terms r.row
  pub relevant : (terms ≡ []) ⊎ (0 < r.match_score)

conjuncts :
    (a b c d : Bool) → (a && b && c && d) ≡ true → (a ≡ true) × (b ≡ true) × (c ≡ true) × (d ≡ true)
conjuncts a b c d h = ground arith

either_text : (s : String) (b : Bool) → (is_empty s || b) ≡ true → (s ≡ "") ⊎ (b ≡ true)
either_text s b h = ground (arith, str_eq_iff s "")

outside :
    (include_quarantined quarantined : Bool)
    → (if include_quarantined then true else not quarantined) ≡ true
    → include_quarantined ≡ false
    → quarantined ≡ false
outside include_quarantined quarantined h k = ground (arith, h, k)

relevant_of :
    (terms : List String) (r : Result)
    → matching terms r ≡ true
    → (terms ≡ []) ⊎ (0 < r.match_score)
relevant_of [] r m = inl refl
relevant_of (t ∷ ts) r m = inr (ground arith)

scope_of :
    (asked own : String)
    → (if is_empty asked then true else str_eq own (lower (strip asked)) || str_eq own "global")
      ≡ true
    → (asked ≡ "") ⊎ ((own ≡ lower (strip asked)) ⊎ (own ≡ "global"))
scope_of asked own h = scope_cases asked own (lower (strip asked)) h
  where
    scope_cases :
        (asked own wanted : String)
        → (if is_empty asked then true else str_eq own wanted || str_eq own "global") ≡ true
        → (asked ≡ "") ⊎ ((own ≡ wanted) ⊎ (own ≡ "global"))
    scope_cases asked own wanted h =
        ground (arith, str_eq_iff asked "", str_eq_iff own wanted, str_eq_iff own "global")

module _ (p : Privacy) (now scope : String) (min_trust : ℕ) (include_quarantined : Bool)
    (terms : List String) where
  IsShowable-of :
      (x : Item)
      → IsSafe x
      → is_eligible now scope min_trust include_quarantined x ≡ true
      → matching terms (result_of p terms x) ≡ true
      → IsShowable p now scope min_trust include_quarantined terms (result_of p terms x)
  unfolding is_eligible
  IsShowable-of x s e m =
      let (t, c, q, k) =
        conjuncts (leb (min 100 min_trust) x.trust_score) _
          (if include_quarantined then true else not x.quarantined) _ e in
      record {
        free = λ asked. outside include_quarantined x.quarantined q asked;
        insensitive = s.insensitive;
        safe_trust = s.trusted;
        trusted = leb→le _ _ t;
        current = either_text x.expires_at _ c;
        in_scope = scope_of scope x.scope k;
        redacted = refl;
        scored = refl;
        relevant = relevant_of terms (result_of p terms x) m;
      }

  rows-IsShowable :
      (rows : List Item)
      → All IsSafe rows
      → All (λ x. is_eligible now scope min_trust include_quarantined x ≡ true) rows
      → All
          (IsShowable p now scope min_trust include_quarantined terms)
          (keep (matching terms) (map (result_of p terms) rows))
  rows-IsShowable rows s e =
      All-imp₂
        (λ r.
          matching terms r ≡ true → IsShowable p now scope min_trust include_quarantined terms r)
        _ _ (keep (matching terms) (map (result_of p terms) rows)) (λ r k m. k m)
        (All-keep _ (matching terms) (map (result_of p terms) rows) (
          (All-map (result_of p terms) _ rows).1
            (All-imp₂ _ _ _ rows (λ x a b m. IsShowable-of x a b m) s e)))
        (All-keep_self (matching terms) (map (result_of p terms) rows))

-- How many results a limit allows: 0 stands for the usual 8.
abbrev pub results_for : ℕ → ℕ
results_for limit = if limit == 0 then 8 else min 50 limit

bounded_results : (limit : ℕ) → bounded 50 8 limit ≡ results_for limit
bounded_results limit = grind arith

-- A search returns at most 8 items if the limit is 0, and otherwise at most 50 and at most the limit.
-- On a table whose items outside of the quarantine are safe, each of them is trusted as much as was
-- asked for, not expired, of the scope or global, redacted, and matches a term of the query if there
-- is one; it is outside of the quarantine if the search does not ask for it, and each item outside of
-- the quarantine is of no sensitive class and has a trust of at least 50.
pub search_memory_items_sound :
    (p : Privacy) (now query scope : String) (limit min_trust : ℕ) (include_quarantined : Bool)
    (t : Table)
    → TableSafe t
    → (length (search_memory_items p now query scope limit min_trust include_quarantined t)
        ≤ results_for limit)
      × All
          (IsShowable p now scope min_trust include_quarantined (terms_of query))
          (search_memory_items p now query scope limit min_trust include_quarantined t)
unfolding search_memory_items
search_memory_items_sound p now query scope limit min_trust include_quarantined t h =
    let n = bounded 50 8 limit in
    let eligible = is_eligible now scope min_trust include_quarantined in
    let found = sort_by ranks_before (keep eligible t.items) in
    let shown =
      sort_by scores_before
        (keep (matching (terms_of query)) (map (result_of p (terms_of query)) (take 200 found))) in
    (
      rw (← (bounded_results limit)) (length-take-le n shown),
      All-take _ n shown (
          All-sort_by scores_before _ _ (
            rows-IsShowable p now scope min_trust include_quarantined (terms_of query)
              (take 200 found)
              (All-take _ 200 found
                (All-sort_by ranks_before _ _ (All-keep IsSafe eligible t.items h)))
              (All-take _ 200 found
                (All-sort_by ranks_before _ _ (All-keep_self eligible t.items))))),
    )
