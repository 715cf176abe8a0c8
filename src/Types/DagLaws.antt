-- ===== src/Types/DagLaws.antt =====
-- The builder of nodes and the store of nodes (icn-types/src/dag/mod.rs, dag_store.rs).
use icn_v.Base.{ℕ, String, ◌≡◌, refl, ◌↔◌, [], ◌∷◌, none, some, arith, ok, err, string_eq, All}
use icn_v.HashMap.{insert, remove}
use icn_v.Types.Dag.{
  DagNode, DagEventType, DagError, DagNodeBuilder, cid, builder, build, required, Nodes, Staged,
  insert_node, stage_insert, remove_node, stage_remove, begin_batch, rollback, commit_loop, commit,
}

module _ {Cid : Type 0} where
  -- A builder builds a node exactly when it is the builder made from this node, that is when it has the
  -- content, the event type, the timestamp, the scope and the parent of the node. Otherwise one of the
  -- first four is missing, and the error names the first that is.
  pub build-builder :
      (b : DagNodeBuilder Cid)
      → ((n : DagNode Cid) → (build b ≡ ok n) ↔ (b ≡ builder n))
        × (b.content ≡ none → build b ≡ err (required "Content is required for DagNode"))
        × ((c : String)
            → b.content ≡ some c
            → (b.event_type ≡ none → build b ≡ err (required "Event type is required for DagNode"))
              × ((t : DagEventType)
                  → b.event_type ≡ some t
                  → (b.timestamp ≡ none
                      → build b ≡ err (required "Timestamp is required for DagNode"))
                    × ((at : ℕ)
                        → b.timestamp ≡ some at
                        → b.scope_id ≡ none
                        → build b ≡ err (required "Scope ID is required for DagNode"))))
  unfolding build builder
  build-builder b = (
    λ n. (λ e. ground arith, λ e. rw e refl),
    λ e. ground arith,
    λ c e. (λ f. ground arith, λ t f. (λ g. ground arith, λ at g h. ground arith)),
  )

  abbrev RemovesOnly : Staged Cid → Type 0
  RemovesOnly staged = All (λ e. e.1 ≡ none) staged

  insert-RemovesOnly :
      (id : String) (staged : Staged Cid) → RemovesOnly staged → RemovesOnly (insert id none staged)
  unfolding insert
  insert-RemovesOnly id [] h = (refl, tt)
  insert-RemovesOnly id ((k, change) ∷ staged) h = ground (arith, insert-RemovesOnly id staged h.1)

  commit_loop-nil : (staged : Staged Cid) → RemovesOnly staged → commit_loop staged [] ≡ []
  unfolding commit_loop remove
  commit_loop-nil [] h = refl
  commit_loop-nil ((k, none) ∷ staged) h = commit_loop-nil staged h.1
  commit_loop-nil ((k, some n) ∷ staged) h = ground arith

module _ {Cid : Type 0} (to_string : Cid → String) where
  -- The batches and the stores that the operations lead to.
  pub data Batch : Staged Cid → Type 0 where
    opened : Batch begin_batch
    rolled_back : (s : Staged Cid) → Batch s → Batch (rollback s)
    insert_staged :
        (n : DagNode Cid) (s : Staged Cid) → Batch s → Batch (stage_insert to_string n s).1
    remove_staged : (id : String) (s : Staged Cid) → Batch s → Batch (stage_remove id s).1

  pub data Reachable : Nodes Cid → Type 0 where
    created : Reachable []
    inserted :
        (n : DagNode Cid) (m : Nodes Cid) → Reachable m → Reachable (insert_node to_string n m).1
    removed : (id : String) (m : Nodes Cid) → Reachable m → Reachable (remove_node id m).1
    committed : (s : Staged Cid) (m : Nodes Cid) → Batch s → Reachable m → Reachable (commit s m).1

  Batch-RemovesOnly : (s : Staged Cid) → Batch s → RemovesOnly s
  unfolding stage_insert stage_remove cid
  Batch-RemovesOnly s opened = tt
  Batch-RemovesOnly s (rolled_back t b) = tt
  Batch-RemovesOnly s (insert_staged n t b) = Batch-RemovesOnly t b
  Batch-RemovesOnly s (remove_staged id t b) = insert-RemovesOnly id t (Batch-RemovesOnly t b)

  -- The store stays empty: no sequence of insertions, removals and committed batches, of staged insertions and
  -- removals, ever puts a node into it, and every insertion into it fails.
  pub Reachable-empty :
      (m : Nodes Cid)
      → Reachable m
      → (m ≡ [])
        × ((n : DagNode Cid) → (e : DagError Cid) × ((insert_node to_string n m).0 ≡ err e))
  unfolding insert_node remove_node commit remove cid
  Reachable-empty m r = (stays_empty m r, λ n. (_, refl))
    where
      stays_empty : (m : Nodes Cid) → Reachable m → m ≡ []
      stays_empty m created = refl
      stays_empty m (inserted n o r) = stays_empty o r
      stays_empty m (removed id o r) = rw (stays_empty o r) refl
      stays_empty m (committed s o b r) =
          rw (stays_empty o r) (commit_loop-nil s (Batch-RemovesOnly s b))
