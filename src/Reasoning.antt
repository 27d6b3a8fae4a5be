-- ===== src/Reasoning.antt =====
-- The reasoning traces of core/memory/persistent_store.py (EliteStore): the tables `reasoning_traces`
-- and `reasoning_branches` and the methods that write them. With the connection pool each statement
-- commits by itself, so what a method has written before an IntegrityError stays. The ids of rows,
-- other errors of the database, the related decisions and `live_confidence` are left out.
pub mod Links
pub mod Branches
mod Tests
use Prim.Native.String.{◌++◌ as ◌+++◌}
use elite_reasoning_mcp.Prelude.{
  ℕ, String, Bool, true, false, not, ◌&&◌, Option, none, some, List, [], ◌∷◌, ◌++◌, map, leb,
  if◌then◌else◌, str_eq, any, keep, first,
}
use elite_reasoning_mcp.Prelude.Sort.{sort_by}

pub record Trace : Type 0 where
  pub session_id : String
  pub thought_id : String
  pub branch_id : String
  pub parent_thought_id : Option String
  pub thought_type : String
  pub content : String
  pub confidence : Option ℕ
  pub status : String
  pub superseded_by : Option String
  pub created_at : ℕ

pub record Branch : Type 0 where
  pub branch_id : String
  pub session_id : String
  pub forked_from_thought_id : String
  pub fork_reason : String
  pub status : String
  pub winning_thought_id : Option String
  pub created_at : ℕ
  pub closed_at : Option ℕ

-- What a method comes to: it is done, it answers with an error, or SQLite raises an IntegrityError.
pub data Answer : Type 0 where
  done not_found integrity_error : Answer

abbrev pub is_thought : String → String → Trace → Bool
is_thought session_id thought_id x =
    str_eq x.session_id session_id && str_eq x.thought_id thought_id

abbrev pub has_thought : String → String → List Trace → Bool
has_thought session_id thought_id traces = any (is_thought session_id thought_id) traces

-- INSERT INTO reasoning_traces, with UNIQUE(session_id, thought_id)
unfoldable pub insert_thought : Trace → List Trace → Answer × List Trace
insert_thought x traces =
    if has_thought x.session_id x.thought_id traces
    then (integrity_error, traces)
    else (done, traces ++ x ∷ [])

unfoldable pub record_thought :
    ℕ
    → String
    → String
    → String
    → String
    → String
    → Option String
    → Option ℕ
    → List Trace
    → Answer × List Trace
unfolding insert_thought
record_thought now session_id thought_id branch_id content thought_type parent confidence traces =
    insert_thought
      (record {
        session_id = session_id;
        thought_id = thought_id;
        branch_id = branch_id;
        parent_thought_id = parent;
        thought_type = thought_type;
        content = content;
        confidence = confidence;
        status = "open";
        superseded_by = none;
        created_at = now;
      })
      traces

unfoldable pub supersede : String → String → String → List Trace → List Trace
supersede session_id old new traces =
    map
      (λ (x : Trace).
        if is_thought session_id old x
        then record x { status = "superseded"; superseded_by = some new }
        else x)
      traces

abbrev pub revision_of : ℕ → String → Trace → String → String → String → String → Trace
revision_of now session_id old old_thought_id new_thought_id new_content reason = record {
  session_id = session_id;
  thought_id = new_thought_id;
  branch_id = old.branch_id;
  parent_thought_id = some old_thought_id;
  thought_type = "revision";
  content = new_content +++ ("\n\n[Revision reason: " +++ (reason +++ "]"));
  confidence = none;
  status = "open";
  superseded_by = none;
  created_at = now;
}

unfoldable pub revise_thought :
    ℕ → String → String → String → String → String → List Trace → Answer × List Trace
unfolding insert_thought supersede
revise_thought now session_id old_thought_id new_thought_id new_content reason traces =
    elim (first (is_thought session_id old_thought_id) traces) [
      | none ↦ (not_found, traces)
      | some old ↦
          insert_thought
            (revision_of now session_id old old_thought_id new_thought_id new_content reason)
            (supersede session_id old_thought_id new_thought_id traces)
    ]

abbrev pub trace_le : Trace → Trace → Bool
trace_le x y = leb x.created_at y.created_at

unfoldable pub get_branch_trace : String → String → List Trace → List Trace
unfolding sort_by
get_branch_trace session_id branch_id traces =
    sort_by trace_le
      (keep (λ (x : Trace). str_eq x.session_id session_id && str_eq x.branch_id branch_id) traces)

abbrev pub is_branch : String → String → Branch → Bool
is_branch session_id branch_id b = str_eq b.session_id session_id && str_eq b.branch_id branch_id

-- INSERT INTO reasoning_branches, with PRIMARY KEY(session_id, branch_id)
unfoldable pub create_branch :
    ℕ → String → String → String → String → List Branch → Answer × List Branch
create_branch now session_id branch_id from_thought_id reason branches =
    if any (is_branch session_id branch_id) branches then (integrity_error, branches) else (
      done,
      branches
          ++ record {
            branch_id = branch_id;
            session_id = session_id;
            forked_from_thought_id = from_thought_id;
            fork_reason = reason;
            status = "active";
            winning_thought_id = none;
            created_at = now;
            closed_at = none;
          }
            ∷ [],
    )

abbrev pub crown : ℕ → String → String → String → Branch → Branch
crown now session_id branch_id winning_thought_id b =
    if is_branch session_id branch_id b
    then record b {
      status = "winning";
      winning_thought_id = some winning_thought_id;
      closed_at = some now;
    }
    else b

abbrev pub abandon : ℕ → String → String → Branch → Branch
abandon now session_id branch_id b =
    if str_eq b.session_id session_id
      && not (str_eq b.branch_id branch_id)
      && str_eq b.status "active"
    then record b { status = "abandoned"; closed_at = some now }
    else b

unfoldable pub conclude_branch : ℕ → String → String → String → List Branch → List Branch
conclude_branch now session_id branch_id winning_thought_id branches =
    map (abandon now session_id branch_id)
      (map (crown now session_id branch_id winning_thought_id) branches)
