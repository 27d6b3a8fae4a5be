-- ===== src/MemoryTool/Tests.antt =====
-- Runs and instances of the model of elite_memory (core/tools/gateway.py).
use elite_reasoning_mcp.Prelude.{
  ℕ, String, ◌≡◌, refl, Bool, true, false, List, [], ◌∷◌, arith, map, strip, lower, elem,
  take_chars, contains, decimal, is_blank,
}
use elite_reasoning_mcp.Prelude.Sort.{sort_by}
use elite_reasoning_mcp.Prelude.Text.{words}
use elite_reasoning_mcp.Memory.{
  Item, Table, search_memory_items, record_memory_item, get_memory_item, approve_memory_item,
  delete_memory_item, item_row,
}
use elite_reasoning_mcp.MemoryTool.{
  Library, MemoryRequest, search, remembered, remember, approve, forget, associative, elite_memory,
}
use elite_reasoning_mcp.MemoryTool.Kept.{Holds, elite_memory-Holds}

program : Unit {0}
unfolding elite_memory search remembered remember approve forget associative strip lower elem
    take_chars contains decimal is_blank sort_by words search_memory_items record_memory_item
    get_memory_item approve_memory_item delete_memory_item item_row
program = tt

abbrev lib : Library
lib = record {
  privacy = record { redact_text = λ s n. take_chars n s; sha256 = λ s. s };
  recall = λ query k items. items;
}

abbrev request : String → ℕ → Bool → MemoryRequest
request action memory_id confirm = record {
  action = action;
  query = "tea";
  content = "Tea at four";
  memory_type = "fact";
  scope = "global";
  memory_id = memory_id;
  trust_score = 90;
  privacy_class = "internal";
  confirm = confirm;
}

abbrev item : ℕ → Item
item n = record {
  id = n;
  memory_type = "fact";
  scope = "global";
  source = "manual";
  content = "tea";
  confidence = 70;
  trust_score = 70;
  privacy_class = "internal";
  expires_at = "";
  tags = "";
  quarantined = false;
  content_hash = "h";
  created_at = "1";
  updated_at = "1";
}

abbrev table : Table
table = record { items = item 1 ∷ item 2 ∷ []; next_id = 3 }

abbrev ids : Table → List ℕ
ids t = map (λ (x : Item). x.id) t.items

memory_run :
    (ids (elite_memory lib "5" (request " Forget" 1 true) table).1 ≡ 2 ∷ [])
    × (ids (elite_memory lib "5" (request "forget" 1 false) table).1 ≡ 1 ∷ 2 ∷ [])
    × (ids (elite_memory lib "5" (request "remember" 1 true) table).1 ≡ 1 ∷ 2 ∷ 3 ∷ [])
    × (ids (elite_memory lib "5" (request "drop" 1 true) table).1 ≡ 1 ∷ 2 ∷ [])
unfolding program
memory_run = (refl, refl, refl, refl)

elite_memory-Holds_example : Holds 2 (elite_memory lib "5" (request "forget" 1 true) table).1
elite_memory-Holds_example =
    elite_memory-Holds lib "5" (request "forget" 1 true) table 2 refl
      (λ f. absurd (omega (arith, f.named)))
