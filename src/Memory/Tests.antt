-- ===== src/Memory/Tests.antt =====
-- Runs and instances of the model of the memory items of core/memory/persistent_store.py.
use elite_reasoning_mcp.Prelude.{
  ℕ, ◌≤◌, String, ◌≡◌, refl, Bool, true, false, none, some, List, [], ◌∷◌, map, All, length, elem,
  lower, strip, contains, take_chars, if◌then◌else◌,
}
use elite_reasoning_mcp.Prelude.Text.{words}
use elite_reasoning_mcp.Prelude.Sort.{sort_by}
use elite_reasoning_mcp.Memory.{
  Privacy, Item, NewItem, Table, Result, record_memory_item, search_memory_items, terms_of,
  get_memory_item, delete_memory_item, is_sensitive, put_item, secret_detected,
}
use elite_reasoning_mcp.Memory.Safety.{
  Write, remember, approve, TableSafe, write_all, write_all-TableSafe,
}
use elite_reasoning_mcp.Memory.Search.{IsShowable, search_memory_items_sound}

-- A redaction that knows one secret.
abbrev privacy : Privacy
privacy = record {
  redact_text = λ s n. if contains "sk-1" s then "[REDACTED]" else s;
  sha256 = λ s. s;
}

abbrev note : String → ℕ → String → NewItem
note content trust privacy_class = record {
  memory_type = "fact";
  content = content;
  scope = "Global";
  source = "manual";
  confidence = 70;
  trust_score = trust;
  privacy_class = privacy_class;
  expires_at = "";
  tags = "";
}

abbrev empty_table : Table
empty_table = record { items = []; next_id = 1 }

abbrev noon : String
noon = "2026-01-01 12:00:00"

abbrev writes : List Write
writes =
    remember noon (note "the tests use pytest" 70 "internal")
    ∷ remember noon (note "the key is sk-1" 90 "internal")
    ∷ remember noon (note "unsure about pytest" 20 "internal")
    ∷ approve noon 2 90
    ∷ approve noon 3 10
    ∷ []

abbrev written : Table
written = write_all privacy writes empty_table

program : Unit {0}
unfolding write_all search_memory_items words terms_of get_memory_item is_sensitive contains
    secret_detected strip lower take_chars sort_by elem put_item record_memory_item
program = tt

-- The secret stays in the quarantine; the doubtful item leaves it, with a trust of one half.
written_run :
    (map {B = ℕ × Bool × ℕ} (λ (x : Item). (x.id, x.quarantined, x.trust_score)) written.items
      ≡ (1, false, 70) ∷ (2, true, 90) ∷ (3, false, 50) ∷ [])
    × (map
          (λ (r : Result). r.row.id)
          (search_memory_items privacy noon "Pytest" "" 0 50 false written)
        ≡ 1 ∷ 3 ∷ [])
    × (get_memory_item privacy 2 false written ≡ none)
    × ((delete_memory_item 2 written).0 ≡ true)
unfolding program delete_memory_item
written_run = (refl, refl, refl, refl)

write_all-TableSafe_example : TableSafe written
write_all-TableSafe_example = write_all-TableSafe privacy writes empty_table tt

search_memory_items_sound_example :
    (length (search_memory_items privacy noon "Pytest" "" 8 50 true written) ≤ 8)
    × All
        (IsShowable privacy noon "" 50 true (terms_of "Pytest"))
        (search_memory_items privacy noon "Pytest" "" 8 50 true written)
search_memory_items_sound_example =
    search_memory_items_sound privacy noon "Pytest" "" 8 50 true written write_all-TableSafe_example

abbrev once : Table
once =
    write_all privacy (remember noon (note "the tests use pytest" 70 "internal") ∷ []) empty_table

recorded_once :
    record_memory_item privacy noon (note "the tests use pytest" 70 "internal") empty_table
    ≡ some (1, once)
unfolding program
recorded_once = refl
