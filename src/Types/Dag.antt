-- ===== src/Types/Dag.antt =====
-- `DagNode`, `DagNodeBuilder` (crates/common/icn-types/src/dag/mod.rs) and the in-memory store of nodes with
-- its batches (dag_store.rs). The type of CIDs and their texts are those of the library `cid`; the errors of
-- libraries are texts.
use icn_v.Base.{
  ℕ, String, List, [], ◌∷◌, Option, none, some, Result, ok, err, ◌>>=◌, ok_or, string_eq,
}
use icn_v.HashMap.{HashMap, get, insert, remove, values}

pub data DagEventType : Type 0 where
  genesis proposal vote execution attestation receipt anchor : DagEventType

pub record DagNode (Cid : Type 0) : Type 0 where
  pub content : String
  pub parent : Option Cid
  pub event_type : DagEventType
  pub timestamp : ℕ
  pub scope_id : String

pub data DagError (Cid : Type 0) : Type 0 where
  malformed_cid ipld_encode ipld_decode cbor : String → DagError Cid
  link_not_found : Cid → DagError Cid
  link_invalid_in_node : (reason : String) → Option Cid → (link_value : String) → DagError Cid
  node_validation : (reason : String) → Option Cid → DagError Cid
  integrity : Cid → (reason : String) → DagError Cid
  cycle_detected traversal_failure unspecified : String → DagError Cid

pub record DagNodeBuilder (Cid : Type 0) : Type 0 where
  pub content : Option String
  pub parent : Option Cid
  pub event_type : Option DagEventType
  pub timestamp : Option ℕ
  pub scope_id : Option String

module _ {Cid : Type 0} where
  -- "TODO: Fix multihash::Code import and re-enable CID generation"
  unfoldable pub cid : DagNode Cid → Result Cid (DagError Cid)
  cid node = err (
      node_validation "CID generation temporarily disabled due to multihash::Code import issue"
        none)

  unfoldable pub builder : DagNode Cid → DagNodeBuilder Cid
  builder n = record {
    content = some n.content;
    parent = n.parent;
    event_type = some n.event_type;
    timestamp = some n.timestamp;
    scope_id = some n.scope_id;
  }

  -- `DagNodeBuilder::new`, and its setters.
  abbrev pub new_builder : DagNodeBuilder Cid
  new_builder = record {
    content = none;
    parent = none;
    event_type = none;
    timestamp = none;
    scope_id = none;
  }

  unfoldable pub set_content : String → DagNodeBuilder Cid → DagNodeBuilder Cid
  set_content content b = record b { content = some content }

  unfoldable pub set_parent : Cid → DagNodeBuilder Cid → DagNodeBuilder Cid
  set_parent parent b = record b { parent = some parent }

  unfoldable pub set_event_type : DagEventType → DagNodeBuilder Cid → DagNodeBuilder Cid
  set_event_type event_type b = record b { event_type = some event_type }

  unfoldable pub set_timestamp : ℕ → DagNodeBuilder Cid → DagNodeBuilder Cid
  set_timestamp timestamp b = record b { timestamp = some timestamp }

  unfoldable pub set_scope_id : String → DagNodeBuilder Cid → DagNodeBuilder Cid
  set_scope_id scope_id b = record b { scope_id = some scope_id }

  abbrev pub required : String → DagError Cid
  required reason = node_validation reason none

  unfoldable pub build : DagNodeBuilder Cid → Result (DagNode Cid) (DagError Cid)
  build b = do
    content ← ok_or (required "Content is required for DagNode") b.content
    event_type ← ok_or (required "Event type is required for DagNode") b.event_type
    timestamp ← ok_or (required "Timestamp is required for DagNode") b.timestamp
    scope_id ← ok_or (required "Scope ID is required for DagNode") b.scope_id
    ok (record {
      content = content;
      parent = b.parent;
      event_type = event_type;
      timestamp = timestamp;
      scope_id = scope_id;
    })

abbrev pub Nodes : Type 0 → Type 0
Nodes Cid = HashMap String (DagNode Cid)

-- The staged changes of a `DagStoreBatch`: `none` removes, `some` inserts.
abbrev pub Staged : Type 0 → Type 0
Staged Cid = HashMap String (Option (DagNode Cid))

module _ {Cid : Type 0} (to_string : Cid → String) where
  unfoldable pub insert_node :
      DagNode Cid → Nodes Cid → Result (Unit {0}) (DagError Cid) × Nodes Cid
  insert_node node store = elim (cid node) [
    | err e ↦ (err e, store)
    | ok c ↦ (ok tt, insert (to_string c) node store)
  ]

  unfoldable pub stage_insert :
      DagNode Cid → Staged Cid → Result (Unit {0}) (DagError Cid) × Staged Cid
  stage_insert node staged = elim (cid node) [
    | err e ↦ (err e, staged)
    | ok c ↦ (ok tt, insert (to_string c) (some node) staged)
  ]

module _ {Cid : Type 0} where
  unfoldable pub remove_node : String → Nodes Cid → Result (Unit {0}) (DagError Cid) × Nodes Cid
  remove_node id store = (ok tt, remove id store)

  unfoldable pub stage_remove : String → Staged Cid → Result (Unit {0}) (DagError Cid) × Staged Cid
  stage_remove id staged = (ok tt, insert id none staged)

  abbrev pub get_node : String → Nodes Cid → Result (Option (DagNode Cid)) (DagError Cid)
  get_node id store = ok (get id store)

  abbrev pub list_nodes : Nodes Cid → Result (List (DagNode Cid)) (DagError Cid)
  list_nodes store = ok (values store)

  abbrev pub apply_change : String → Option (DagNode Cid) → Nodes Cid → Nodes Cid
  apply_change id (some node) store = insert id node store
  apply_change id none store = remove id store

  -- The loop of `commit` over `staged.drain()`.
  unfoldable pub commit_loop : Staged Cid → Nodes Cid → Nodes Cid
  commit_loop [] store = store
  commit_loop ((id, change) ∷ staged) store = commit_loop staged (apply_change id change store)

  -- `begin_batch`, and `rollback` or the drop of a batch that was not committed: nothing is staged.
  abbrev pub begin_batch : Staged Cid
  begin_batch = []

  abbrev pub rollback : Staged Cid → Staged Cid
  rollback staged = []

  unfoldable pub commit : Staged Cid → Nodes Cid → Result (Unit {0}) (DagError Cid) × Nodes Cid
  commit staged store = (ok tt, commit_loop staged store)
