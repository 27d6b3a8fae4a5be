-- ===== src/Memory.antt =====
-- The long-term memory of core/memory/persistent_store.py (EliteStore): the table `memory_items` and
-- the methods that write, search, read, approve and delete its rows, which stand in the order of their
-- ids. Confidence and trust are hundredths; times are the code's texts, which are compared as texts.
-- The redaction of core/privacy.py and SHA-256 are arguments.
mod Rows
pub mod Safety
pub mod Search
pub mod Recording
mod Tests
unfoldable pub use Rows.*
use Prim.Native.Nat.{min}
use Prim.Native.Char.{nul}
use Prim.Native.String.{◌++◌ as ◌+++◌, count}
use elite_reasoning_mcp.Prelude.{
  ℕ, zero, suc, ◌+◌, String, Bool, true, false, not, ◌&&◌, ◌||◌, Option, none, some, List, [], ◌∷◌,
  ◌++◌, map, max, if◌then◌else◌, ltb, leb, ◌==◌, str_eq, is_empty, any, keep, first, take, strip,
  lower, take_chars, contains, elem,
}
use elite_reasoning_mcp.Prelude.Text.{nul_text, text_le, words}
use elite_reasoning_mcp.Prelude.Sort.{sort_by}
use elite_reasoning_mcp.Workflow.{text_or, bounded}

abbrev pub same_hash : Item → Item → Bool
same_hash row x = str_eq x.content_hash row.content_hash

-- UPDATE memory_items ... WHERE content_hash = ?
unfoldable pub overwrite : Item → Item → Item
overwrite row x =
    if same_hash row x
    then record x {
      confidence = row.confidence;
      trust_score = row.trust_score;
      privacy_class = row.privacy_class;
      expires_at = row.expires_at;
      tags = row.tags;
      quarantined = row.quarantined;
      updated_at = row.updated_at;
    }
    else x

-- the INSERT, and the UPDATE after an IntegrityError: the content hash is UNIQUE
unfoldable pub put_item : Item → Table → ℕ × Table
unfolding overwrite
put_item row t = elim (first (same_hash row) t.items) [
  | none ↦ (row.id, record { items = t.items ++ row ∷ []; next_id = suc t.next_id })
  | some found ↦ (found.id, record t { items = map (overwrite row) t.items })
]

-- `none` stands for the ValueError.
unfoldable pub record_memory_item : Privacy → String → NewItem → Table → Option (ℕ × Table)
unfolding item_row put_item
record_memory_item p now new t =
    if is_empty (stored_content new) then none else some (put_item (item_row p now t.next_id new) t)

-- the WHERE clause of a search
unfoldable pub is_eligible : String → String → ℕ → Bool → Item → Bool
unfolding strip lower
is_eligible now scope min_trust include_quarantined x =
    leb (min 100 min_trust) x.trust_score
    && (is_empty x.expires_at || text_le now x.expires_at)
    && (if include_quarantined then true else not x.quarantined)
    && (if is_empty scope
        then true
        else str_eq x.scope (lower (strip scope)) || str_eq x.scope "global")

-- ORDER BY trust_score DESC, confidence DESC, updated_at DESC
abbrev pub ranks_before : Item → Item → Bool
ranks_before x y =
    if x.trust_score == y.trust_score
    then if x.confidence == y.confidence
      then text_le y.updated_at x.updated_at
      else ltb y.confidence x.confidence
    else ltb y.trust_score x.trust_score

unfoldable pub terms_of : String → List String
unfolding words lower
terms_of query = take 8 (keep (λ term. ltb 2 (count term)) (words (lower query)))

unfoldable pub haystack : Item → String
unfolding lower
haystack x = lower (
    x.memory_type
    +++ (" " +++ (x.scope +++ (" " +++ (x.source +++ (" " +++ (x.content +++ (" " +++ x.tags))))))))

unfoldable pub match_score : List String → Item → ℕ
unfolding haystack contains
match_score [] x = 0
match_score (term ∷ terms) x =
    let rest = match_score terms x in if contains term (haystack x) then suc rest else rest

-- a row as it is read: its texts are redacted once more
unfoldable pub read_item : Privacy → Item → Item
read_item p x = record x {
  memory_type = p.redact_text x.memory_type 80;
  scope = p.redact_text x.scope 128;
  source = p.redact_text x.source 80;
  content = p.redact_text x.content 5000;
  privacy_class = p.redact_text x.privacy_class 64;
  expires_at = p.redact_text x.expires_at 64;
  tags = p.redact_text x.tags 500;
}

pub record Result : Type 0 where
  pub row : Item
  pub shown : Item
  pub match_score : ℕ

-- the key of the last sort, in reverse
abbrev pub scores_before : Result → Result → Bool
scores_before x y =
    if x.match_score == y.match_score
    then if x.row.trust_score == y.row.trust_score
      then leb y.row.confidence x.row.confidence
      else ltb y.row.trust_score x.row.trust_score
    else ltb y.match_score x.match_score

abbrev pub matching : List String → Result → Bool
matching [] r = true
matching (term ∷ terms) r = not (r.match_score == 0)

abbrev pub result_of : Privacy → List String → Item → Result
result_of p terms x = record { row = x; shown = read_item p x; match_score = match_score terms x }

unfoldable pub search_memory_items :
    Privacy → String → String → String → ℕ → ℕ → Bool → Table → List Result
unfolding is_eligible terms_of match_score read_item sort_by
search_memory_items p now query scope limit min_trust include_quarantined t =
    let rows =
      take 200 (
        sort_by ranks_before
          (keep (is_eligible now scope min_trust include_quarantined) t.items)) in
    let terms = terms_of query in
    take (bounded 50 8 limit)
      (sort_by scores_before (keep (matching terms) (map (result_of p terms) rows)))

abbrev pub has_id : ℕ → Item → Bool
has_id memory_id x = x.id == memory_id

unfoldable pub get_memory_item : Privacy → ℕ → Bool → Table → Option Item
unfolding read_item
get_memory_item p memory_id include_quarantined t =
    elim (first
      (λ (x : Item).
        has_id memory_id x && (if include_quarantined then true else not x.quarantined))
      t.items) [ none ↦ none | some x ↦ some (read_item p x) ]

unfoldable pub is_approvable : ℕ → Item → Bool
unfolding is_sensitive lower
is_approvable memory_id x =
    has_id memory_id x && x.quarantined && not (is_sensitive (lower x.privacy_class))

unfoldable pub approve_memory_item : String → ℕ → ℕ → Table → Bool × Table
unfolding is_approvable
approve_memory_item now memory_id trust_score t = (
  any (is_approvable memory_id) t.items,
  record t {
    items =
        map
          (λ (x : Item).
            if is_approvable memory_id x
            then record x {
              quarantined = false;
              trust_score = max 50 (min 100 trust_score);
              updated_at = now;
            }
            else x)
          t.items;
  },
)

unfoldable pub delete_memory_item : ℕ → Table → Bool × Table
delete_memory_item memory_id t = (
  any (has_id memory_id) t.items,
  record t { items = keep (λ x. not (has_id memory_id x)) t.items },
)
