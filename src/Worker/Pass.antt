-- ===== src/Worker/Pass.antt =====
-- crates/no-sql-store/src/worker/service/partitions.rs: the pass over all partitions, and the batches
-- that a worker receives. The number of partitions is an argument of the pass.
pub mod Retention
pub mod Nodes
pub mod Obsolete
pub mod Recipients
pub mod Journal
use rust_accelerator_no_sql.Map
use rust_accelerator_no_sql.Prelude.{
  zero, suc, ◌==◌, ◌++◌, ◌&&◌, unwrap_or, not, inr, inl, ◌⊎◌, arith, refl, if◌then◌else◌, ◌∷◌, [],
  List, some, none, Option, false, true, Bool, ◌≡◌, ℕ,
}
use rust_accelerator_no_sql.Worker.{
  remove_partition_from_replica, get_currently_synced_actual_nodes, changes, WorkerProtocol,
  snapshot, SyncState, SyncPhase, State,
}
use rust_accelerator_no_sql.Map.{Map}
use rust_accelerator_no_sql.Store.{
  remove_partition, stable_partition_revision, prune_partition_changes, RuntimeStore,
}
use rust_accelerator_no_sql.Map.Set.{add, filter_set, extend, Set}
use rust_accelerator_no_sql.Common.{Partitions, Node, NodeId, Me, PartitionId, Partition}
use Prim.Native.Nat.{min}
use rust_accelerator_no_sql.Worker.Sync.{sync_partition_to_recipient, node_owns_partition, Readings}

unfoldable pub record_completed_sync :
    State → Me → PartitionId → NodeId → State × List WorkerProtocol
record_completed_sync state me partition_id recipient_id = (
  if node_owns_partition state.partitions partition_id me.id
      then record state {
        actual_nodes_sync_completion = Map.insert state.actual_nodes_sync_completion partition_id (
            Map.insert
              (unwrap_or (Map.get state.actual_nodes_sync_completion partition_id) Map.empty)
              recipient_id state.partitions_last_update_time);
      }
      else state,
  elim state.elected_leader_id [
    | none ↦ []
    | some leader_id ↦ remove_partition_from_replica leader_id me.id partition_id ∷ []
  ],
)

-- The recipients' states of a partition with one of them set; `or_default` leaves an entry in any case.
unfoldable pub set_recipient :
    Map (Map SyncState) → PartitionId → NodeId → Option SyncState → Map (Map SyncState)
set_recipient sync partition_id recipient_id outcome =
    let states = unwrap_or (Map.get sync partition_id) Map.empty in
    Map.insert sync partition_id
      (elim outcome [ none ↦ states | some s ↦ Map.insert states recipient_id s ])

unfoldable pub recipient_state : Map (Map SyncState) → PartitionId → NodeId → Option SyncState
recipient_state sync partition_id recipient_id = elim (Map.get sync partition_id) [
  | none ↦ none
  | some states ↦ Map.get states recipient_id
]

unfoldable pub sync_recipient :
    State → RuntimeStore → Me → PartitionId → NodeId → Readings → State × List WorkerProtocol
sync_recipient state store me partition_id recipient_id t =
    let (outcome, output, completed) =
      sync_partition_to_recipient (recipient_state state.sync partition_id recipient_id) store me
        partition_id recipient_id t in
    let state' = record state {
      sync = set_recipient state.sync partition_id recipient_id outcome;
    } in
    if completed
    then (
      (record_completed_sync state' me partition_id recipient_id).0,
      output ++ (record_completed_sync state' me partition_id recipient_id).1,
    )
    else (state', output)

unfoldable pub sync_recipients :
    State
    → RuntimeStore
    → Me
    → PartitionId
    → List NodeId
    → (NodeId → Readings)
    → State × List WorkerProtocol
sync_recipients state store me partition_id [] clock = (state, [])
sync_recipients state store me partition_id (recipient_id ∷ ids) clock =
    let (state', output) =
      sync_recipient state store me partition_id recipient_id (clock recipient_id) in
    let (state'', outputs) = sync_recipients state' store me partition_id ids clock in
    (state'', output ++ outputs)

unfoldable pub needed_revision : SyncPhase → ℕ
needed_revision (snapshot revision) = revision
needed_revision (changes confirmed_revision pending_revision) = confirmed_revision

-- `map(..).min()` over the copies under way.
unfoldable pub min_revision : List SyncState → Option ℕ
min_revision [] = none
min_revision (s ∷ rest) = some (elim (min_revision rest) [
  | none ↦ needed_revision s.phase
  | some r ↦ min (needed_revision s.phase) r
])

unfoldable pub or_else : Option ℕ → Option ℕ → Option ℕ
or_else none other = other
or_else (some a) other = some a

unfoldable pub prune_through : RuntimeStore → PartitionId → Option ℕ → RuntimeStore
prune_through store partition_id none = store
prune_through store partition_id (some revision) =
    prune_partition_changes store partition_id revision

-- The recipients that have left are forgotten.
unfoldable pub forget_gone : Map (Map SyncState) → Map Node → PartitionId → Map (Map SyncState)
forget_gone sync nodes partition_id = elim (Map.get sync partition_id) [
  | none ↦ sync
  | some states ↦
      Map.insert sync partition_id (Map.retain (λ id _. Map.contains_key nodes id) states)
]

unfoldable pub unconfirmed : Map SyncState → Map SyncState
unconfirmed states = Map.retain (λ _ s. not s.confirmed) states

-- The end of `sync_partition`: confirmed copies are dropped and the journal is pruned.
unfoldable pub finish_partition : State → RuntimeStore → PartitionId → State × RuntimeStore
finish_partition state store partition_id = elim (Map.get state.sync partition_id) [
  | none ↦ (state, prune_through store partition_id (stable_partition_revision store partition_id))
  | some states ↦ (
    record state { sync = Map.insert state.sync partition_id (unconfirmed states) },
    prune_through store partition_id (
        or_else (min_revision (Map.values (unconfirmed states)))
          (stable_partition_revision store partition_id)),
  )
]

unfoldable pub sync_partition :
    State
    → RuntimeStore
    → Me
    → PartitionId
    → List NodeId
    → (NodeId → Readings)
    → State × RuntimeStore × List WorkerProtocol
sync_partition state store me partition_id recipient_ids clock =
    let started = record state { sync = forget_gone state.sync state.nodes partition_id } in
    let (copied, output) = sync_recipients started store me partition_id recipient_ids clock in
    let (state', store') = finish_partition copied store partition_id in (state', store', output)

unfoldable pub set_contains : Option Set → NodeId → Bool
set_contains none id = false
set_contains (some s) id = Map.contains_key s id

unfoldable pub set_is_empty : Option Set → Bool
set_is_empty none = true
set_is_empty (some s) = Map.is_empty s

-- An old replica copies to every owner but itself.
unfoldable pub owners_but : Option Partition → NodeId → Set
owners_but none me = Map.empty
owners_but (some p) me =
    extend (if p.master == me then Map.empty else add Map.empty p.master)
      (Map.keys (filter_set (λ id. not (id == me)) p.replicas))

-- An owner that is not new copies to the new replicas that are not in step yet.
unfoldable pub new_but_synced : Option Set → NodeId → Option Set → Set
new_but_synced none me synced = Map.empty
new_but_synced (some new_replicas) me synced =
    if Map.contains_key new_replicas me
    then Map.empty
    else filter_set (λ id. not (set_contains synced id)) new_replicas

unfoldable pub get_node_ids_curr_node_has_to_sync_the_partition_to :
    PartitionId → NodeId → Partitions → Map Node → Option Set → Set
get_node_ids_curr_node_has_to_sync_the_partition_to partition_id me partitions cluster_nodes
      synced =
    filter_set (Map.contains_key cluster_nodes) (
      if set_contains (Map.get partitions.old_replicas partition_id) me
      then owners_but (Map.get partitions.mapping partition_id) me
      else if set_is_empty (Map.get partitions.old_replicas partition_id)
          && node_owns_partition partitions partition_id me
      then new_but_synced (Map.get partitions.new_replicas partition_id) me synced
      else Map.empty)

-- The loop `for partition_id in partition_id..partition_id + count`.
unfoldable pub sync_loop :
    ℕ
    → ℕ
    → State
    → RuntimeStore
    → Me
    → Map Set
    → (PartitionId → NodeId → Readings)
    → State × RuntimeStore × List WorkerProtocol
sync_loop zero partition_id state store me synced clock = (state, store, [])
sync_loop (suc count) partition_id state store me synced clock =
    let recipient_ids = Map.keys (
      get_node_ids_curr_node_has_to_sync_the_partition_to partition_id me.id state.partitions
        state.nodes (Map.get synced partition_id)) in
    let (state', store', output) =
      sync_partition state store me partition_id recipient_ids (clock partition_id) in
    let (state'', store'', outputs) =
      sync_loop count (suc partition_id) state' store' me synced clock in
    (state'', store'', output ++ outputs)

-- A partition with no copy under way is dropped from the store, unless this node owns it.
unfoldable pub drop_obsolete :
    List (PartitionId × Map SyncState) → Partitions → RuntimeStore → Me → RuntimeStore
drop_obsolete [] partitions store me = store
drop_obsolete ((partition_id, states) ∷ rest) partitions store me =
    drop_obsolete rest partitions
      (if Map.is_empty states && not (node_owns_partition partitions partition_id me.id)
        then remove_partition store partition_id
        else store)
      me

unfoldable pub remove_completed_syncs_and_obsolete_partitions :
    State → RuntimeStore → Me → State × RuntimeStore
remove_completed_syncs_and_obsolete_partitions state store me = (
  record state { sync = Map.retain (λ _ states. not (Map.is_empty states)) state.sync },
  drop_obsolete state.sync.entries state.partitions store me,
)

unfoldable pub sync_partitions :
    ℕ
    → State
    → RuntimeStore
    → Me
    → (PartitionId → NodeId → Readings)
    → State × RuntimeStore × List WorkerProtocol
sync_partitions amount state store me clock =
    let (state', store', output) =
      sync_loop amount 0 state store me (get_currently_synced_actual_nodes state) clock in
    let (state'', store'') = remove_completed_syncs_and_obsolete_partitions state' store' me in
    (state'', store'', output)
