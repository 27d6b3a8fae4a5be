-- ===== src/MemoryTool.antt =====
-- core/tools/gateway.py: the tool elite_memory, over the memory of core/memory/persistent_store.py. The
-- ranking of core/memory/hipporag.py is the argument `recall`; trust is in hundredths.
pub mod Kept
mod Tests
use Prim.Native.String.{◌++◌ as ◌+++◌}
use elite_reasoning_mcp.Prelude.{
  ℕ, String, Bool, true, false, not, Option, none, some, List, [], ◌∷◌, ◌⊎◌, inl, inr, map, ltb,
  if◌then◌else◌, str_eq, is_empty, is_blank, strip, lower, decimal,
}
use elite_reasoning_mcp.Memory.{
  Privacy, Item, NewItem, Table, Result, record_memory_item, search_memory_items, get_memory_item,
  approve_memory_item, delete_memory_item,
}
use elite_reasoning_mcp.Gateway.{GatewayError, validation_error, raised}
use elite_reasoning_mcp.Workflow.{text_or}

pub record MemoryRequest : Type 0 where
  pub action : String
  pub query : String
  pub content : String
  pub memory_type : String
  pub scope : String
  pub memory_id : ℕ
  pub trust_score : ℕ
  pub privacy_class : String
  pub confirm : Bool

-- `MemoryResult` of core/api/schemas.py
pub record MemoryResult : Type 0 where
  pub action : String
  pub memory_id : Option ℕ
  pub quarantined : Option Bool
  pub deleted : Option Bool
  pub items : List Item

pub record Library : Type 0 where
  pub privacy : Privacy
  pub recall : String → ℕ → List Item → List Item

abbrev pub Reply : Type 0
Reply = (GatewayError ⊎ MemoryResult) × Table

abbrev result :
    String → Option ℕ → Option Bool → Option Bool → List Item → GatewayError ⊎ MemoryResult
result action memory_id quarantined deleted items = inr (record {
  action = action;
  memory_id = memory_id;
  quarantined = quarantined;
  deleted = deleted;
  items = items;
})

abbrev refuse : String → Table → Reply
refuse message t = (inl (validation_error message), t)

abbrev item_list : Option Item → List Item
item_list none = []
item_list (some x) = x ∷ []

abbrev shown_items : List Result → List Item
shown_items = map (λ (r : Result). r.shown)

module _ (lib : Library) (now : String) (request : MemoryRequest) (t : Table) where
  unfoldable pub search : Reply
  search = (
    result "search" none none none (
        shown_items (search_memory_items lib.privacy now request.query request.scope 8 50 false t)),
    t,
  )

  abbrev pub new_item : NewItem
  new_item = record {
    memory_type = request.memory_type;
    content = request.content;
    scope = request.scope;
    source = "explicit_gateway";
    confidence = 70;
    trust_score = request.trust_score;
    privacy_class = request.privacy_class;
    expires_at = "";
    tags = "";
  }

  -- the ValueError of `record_memory_item`, or the item as it was stored
  unfoldable pub remembered : Option (ℕ × Table) → Reply
  remembered none = (inl (raised "content is required"), t)
  remembered (some (item_id, after)) =
      let item = get_memory_item lib.privacy item_id true after in
      (
        result "remember" (some item_id)
            (some (elim item [ none ↦ false | some x ↦ x.quarantined ])) none (item_list item),
        after,
      )

  unfoldable pub remember : Reply
  remember =
      if is_blank request.content
      then refuse "content is required for action=remember." t
      else remembered (record_memory_item lib.privacy now new_item t)

  unfoldable pub approve : Reply
  approve =
      let approved = approve_memory_item now request.memory_id request.trust_score t in
      if ltb request.memory_id 1
      then refuse "memory_id is required for action=approve." t
      else if not approved.0
      then refuse
          ("Quarantined memory item `" +++ (decimal request.memory_id +++ "` was not found."))
          approved.1
      else (
        result "approve" (some request.memory_id) (some false) none
            (item_list (get_memory_item lib.privacy request.memory_id true approved.1)),
        approved.1,
      )

  unfoldable pub forget : Reply
  forget =
      let deleted = delete_memory_item request.memory_id t in
      if ltb request.memory_id 1
      then refuse "memory_id is required for action=forget." t
      else if not request.confirm
      then refuse "action=forget permanently deletes memory; re-run with confirm=true." t
      else if not deleted.0
      then refuse ("Memory item `" +++ (decimal request.memory_id +++ "` was not found.")) deleted.1
      else (result "forget" (some request.memory_id) none (some true) [], deleted.1)

  unfoldable pub associative : Reply
  associative =
      let items =
        shown_items
          (search_memory_items lib.privacy now request.query request.scope 20 30 false t) in
      (
        result "associative" none none none
            (lib.recall (text_or request.query request.content) 8 items),
        t,
      )

  unfoldable pub elite_memory : Reply
  elite_memory =
      let action = lower (strip request.action) in
      if str_eq action "search"
      then search
      else if str_eq action "remember"
      then remember
      else if str_eq action "approve"
      then approve
      else if str_eq action "forget"
      then forget
      else if str_eq action "associative"
      then associative
      else refuse "action must be search, remember, approve, forget, or associative." t
