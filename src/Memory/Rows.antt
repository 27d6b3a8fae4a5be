-- ===== src/Memory/Rows.antt =====
-- The rows of `memory_items` of core/memory/persistent_store.py, and the row that
-- `record_memory_item` makes of its arguments.
use Prim.Native.Nat.{min}
use Prim.Native.String.{◌++◌ as ◌+++◌, count}
use elite_reasoning_mcp.Prelude.{
  ℕ, String, Bool, not, ◌&&◌, ◌||◌, List, [], ◌∷◌, max, if◌then◌else◌, ltb, str_eq, any, strip,
  lower, take_chars, elem,
}
use elite_reasoning_mcp.Prelude.Text.{nul_text}
use elite_reasoning_mcp.Workflow.{text_or}

pub record Privacy : Type 0 where
  pub redact_text : String → ℕ → String
  pub sha256 : String → String

abbrev pub sensitive_memory_classes : List String
sensitive_memory_classes =
    "secret" ∷ "credential" ∷ "credentials" ∷ "highly_sensitive" ∷ "private_key" ∷ "secret_detected"
    ∷ []

unfoldable pub is_sensitive : String → Bool
unfolding elem
is_sensitive privacy_class = elem privacy_class sensitive_memory_classes

pub record Item : Type 0 where
  pub id : ℕ
  pub memory_type : String
  pub scope : String
  pub source : String
  pub content : String
  pub confidence : ℕ
  pub trust_score : ℕ
  pub privacy_class : String
  pub expires_at : String
  pub tags : String
  pub quarantined : Bool
  pub content_hash : String
  pub created_at : String
  pub updated_at : String

pub record NewItem : Type 0 where
  pub memory_type : String
  pub content : String
  pub scope : String
  pub source : String
  pub confidence : ℕ
  pub trust_score : ℕ
  pub privacy_class : String
  pub expires_at : String
  pub tags : String

pub record Table : Type 0 where
  pub items : List Item
  pub next_id : ℕ

-- (value or default).strip().lower()[:limit]
unfoldable pub raw_word : String → String → ℕ → String
unfolding strip lower take_chars
raw_word value default limit = take_chars limit (lower (strip (text_or value default)))

unfoldable pub redact : Privacy → String → String
redact p raw = p.redact_text raw (max (count raw) 1)

abbrev pub is_redacted : Privacy → String → Bool
is_redacted p raw = not (str_eq (redact p raw) raw)

abbrev pub stored_content : NewItem → String
stored_content new = take_chars 5000 (strip new.content)

unfoldable pub secret_detected : Privacy → NewItem → Bool
unfolding redact raw_word strip take_chars
secret_detected p new =
    is_redacted p (stored_content new)
    || any (is_redacted p) (
        raw_word new.memory_type "fact" 80
        ∷ raw_word new.scope "global" 128
        ∷ raw_word new.source "manual" 80
        ∷ raw_word new.privacy_class "internal" 64
        ∷ take_chars 64 new.expires_at
        ∷ take_chars 500 new.tags
        ∷ [])

unfoldable pub classify : Privacy → NewItem → String
unfolding redact raw_word secret_detected is_sensitive
classify p new =
    let privacy_class = redact p (raw_word new.privacy_class "internal" 64) in
    if secret_detected p new && not (is_sensitive privacy_class)
    then "secret_detected"
    else privacy_class

abbrev pub is_quarantined : ℕ → ℕ → String → Bool
is_quarantined confidence trust_score privacy_class =
    ltb confidence 40 || ltb trust_score 50 || is_sensitive privacy_class

unfoldable pub item_row : Privacy → String → ℕ → NewItem → Item
unfolding classify redact raw_word is_sensitive strip take_chars
item_row p now id new =
    let memory_type = redact p (raw_word new.memory_type "fact" 80) in
    let scope = redact p (raw_word new.scope "global" 128) in
    let source = redact p (raw_word new.source "manual" 80) in
    let content = redact p (stored_content new) in
    let privacy_class = classify p new in
    record {
      id = id;
      memory_type = memory_type;
      scope = scope;
      source = source;
      content = take_chars 5000 content;
      confidence = min 100 new.confidence;
      trust_score = min 100 new.trust_score;
      privacy_class = privacy_class;
      expires_at = redact p (take_chars 64 new.expires_at);
      tags = redact p (take_chars 500 new.tags);
      quarantined = is_quarantined (min 100 new.confidence) (min 100 new.trust_score) privacy_class;
      content_hash = p.sha256 (
          memory_type
          +++ (nul_text +++ (scope +++ (nul_text +++ (source +++ (nul_text +++ content))))));
      created_at = now;
      updated_at = now;
    }
