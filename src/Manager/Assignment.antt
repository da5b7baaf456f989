-- ===== src/Manager/Assignment.antt =====
-- crates/no-sql-store/src/manager/service/partitions.rs: which workers hold a partition. `none` is
-- a panic, of an `expect` or of an index. The number of partitions is an argument, as in the source.
pub mod Index
pub mod Stability
pub mod Migration
pub mod Ownership
pub mod Places
pub mod Mapping
pub mod Distribution
pub mod Examples
use rust_accelerator_no_sql.Map
use rust_accelerator_no_sql.Map.Set
use rust_accelerator_no_sql.Prelude.{
  map, [], ◌∷◌, ◌^◌, zero, option_eq, [], contains, ◌&&◌, ◌%◌, length, leb, none, ◌==◌, not, some,
  get_elem?, ltb, ◌-◌, Bool, Option, if◌then◌else◌, suc, List, ℕ,
}
use rust_accelerator_no_sql.Map.Set.{extend, set_eq, filter_set, add}
use rust_accelerator_no_sql.Manager.{
  cluster_state, ManagerProtocol, ClusterState, Me, Node, Set, PartitionId, NodeId, other_nodes,
  State,
}
use rust_accelerator_no_sql.Map.{Map}
use rust_accelerator_no_sql.Common.{partitions_amount, Partition, is_worker}

-- `while replica >= total_amount`, with fuel.
unfoldable pub reduce_replica : ℕ → ℕ → ℕ → ℕ
reduce_replica zero total_amount replica = replica
reduce_replica (suc fuel) total_amount replica =
    let next = reduce_replica fuel total_amount (replica - total_amount) in
    if leb total_amount replica then next else replica

unfoldable pub calc_replica_index : ℕ → ℕ → ℕ → ℕ
unfolding reduce_replica
calc_replica_index total_amount master_partition_index replica =
    let r = reduce_replica replica total_amount replica in
    if ltb master_partition_index r
    then total_amount - (r - master_partition_index)
    else master_partition_index - r

-- One turn of the loop over the replicas of a partition.
unfoldable pub place : List NodeId → ℕ → PartitionId → ℕ → Map Partition → Option (Map Partition)
unfolding calc_replica_index
place ids master_index partition_id replica mapping =
    elim (get_elem? ids (calc_replica_index (length ids) master_index replica)) [
      | none ↦ none
      | some id ↦
          if replica == 0
          then some (Map.insert mapping partition_id (record { master = id; replicas = Map.empty }))
          else elim (Map.get mapping partition_id) [
            | none ↦ none
            | some p ↦
                some (Map.insert mapping partition_id (record p { replicas = add p.replicas id }))
          ]
    ]

-- `for replica in replica..replica + count`.
unfoldable pub place_replicas :
    ℕ → List NodeId → ℕ → PartitionId → ℕ → Map Partition → Option (Map Partition)
unfolding place
place_replicas zero ids master_index partition_id replica mapping = some mapping
place_replicas (suc count) ids master_index partition_id replica mapping =
    elim (place ids master_index partition_id replica mapping) [
      | none ↦ none
      | some mapping' ↦ place_replicas count ids master_index partition_id (suc replica) mapping'
    ]

-- `for partition in partition..partition + count`.
unfoldable pub place_partitions : ℕ → List NodeId → ℕ → ℕ → Map Partition → Option (Map Partition)
unfolding place_replicas
place_partitions zero ids replication_factor partition mapping = some mapping
place_partitions (suc count) ids replication_factor partition mapping =
    elim (place_replicas replication_factor ids (partition % length ids) (partition % 2 ^ 16) 0
      mapping) [
        | none ↦ none
        | some mapping' ↦ place_partitions count ids replication_factor (suc partition) mapping'
      ]

-- The new master, if it did not own the partition before.
unfoldable pub promoted_master : Partition → Partition → Set
promoted_master old_mapping new_mapping =
    if not (new_mapping.master == old_mapping.master)
      && not (Map.contains_key old_mapping.replicas new_mapping.master)
    then add Map.empty new_mapping.master
    else Map.empty

unfoldable pub joining_replicas : Partition → Partition → Set
joining_replicas old_mapping new_mapping =
    filter_set (λ r. not (r == old_mapping.master) && not (Map.contains_key old_mapping.replicas r))
      new_mapping.replicas

-- The owners of the new assignment that did not own the partition before.
unfoldable pub new_owners : Partition → Partition → Set
new_owners old_mapping new_mapping =
    extend (promoted_master old_mapping new_mapping)
      (Map.keys (joining_replicas old_mapping new_mapping))

unfoldable pub record_new_replica : Map Partition → Map Set → PartitionId → Partition → Map Set
record_new_replica new_mapping new_replicas partition_id old =
    elim (Map.get new_mapping partition_id) [
      | none ↦ new_replicas
      | some new ↦ Map.insert new_replicas partition_id (new_owners old new)
    ]

-- The loop over the old mapping, which fills `new_replicas`.
unfoldable pub record_new_replicas :
    List (PartitionId × Partition) → Map Partition → Map Set → Map Set
record_new_replicas [] new_mapping new_replicas = new_replicas
record_new_replicas ((partition_id, old) ∷ rest) new_mapping new_replicas =
    record_new_replicas rest new_mapping
      (record_new_replica new_mapping new_replicas partition_id old)

unfoldable pub calculate_new_mapping : State → ℕ → ℕ → List NodeId → Option State
unfolding place_partitions record_new_replicas
calculate_new_mapping state amount replication_factor ids =
    elim (place_partitions amount ids replication_factor 0 Map.empty) [
      | none ↦ none
      | some new_mapping ↦ some (record state {
        partitions = record (state.partitions) {
          mapping = new_mapping;
          new_replicas =
              record_new_replicas state.partitions.mapping.entries new_mapping
                state.partitions.new_replicas;
        };
      })
    ]

unfoldable pub owners : Partition → Set
owners p = add p.replicas p.master

unfoldable pub add_owners : Map Set → PartitionId → Partition → Map Set
unfolding owners
add_owners old_replicas partition_id p = elim (Map.get old_replicas partition_id) [
  | some replicas ↦
      Map.insert old_replicas partition_id (add (extend replicas (Map.keys p.replicas)) p.master)
  | none ↦ Map.insert old_replicas partition_id (owners p)
]

unfoldable pub add_all_owners : List (PartitionId × Partition) → Map Set → Map Set
unfolding add_owners
add_all_owners [] old_replicas = old_replicas
add_all_owners ((partition_id, p) ∷ rest) old_replicas =
    add_all_owners rest (add_owners old_replicas partition_id p)

-- `retain` with a closure that first drops the ids that are gone.
unfoldable pub retain_current : Map Set → List NodeId → Map Set
retain_current old_replicas ids =
    Map.retain (λ _ replicas. not (Map.is_empty replicas))
      (Map.map_values (λ _ replicas. filter_set (contains ids) replicas) old_replicas)

unfoldable pub copy_current_mapping_to_old : State → List NodeId → State
unfolding add_all_owners retain_current
copy_current_mapping_to_old state ids = record state {
  partitions = record (state.partitions) {
    old_replicas =
        retain_current
          (add_all_owners state.partitions.mapping.entries state.partitions.old_replicas) ids;
  };
}

-- An update of the partitions only: the list of nodes is empty.
unfoldable pub create_new_workers_state : State → Option ClusterState
create_new_workers_state state = elim state.epoch [
  | none ↦ none
  | some epoch ↦ elim state.elected_leader_id [
    | none ↦ none
    | some leader_id ↦
        some (record {
          epoch = epoch;
          leader_id = leader_id;
          nodes = [];
          partitions = state.partitions;
        })
  ]
]

unfoldable pub worker_ids : Map Node → Set
worker_ids nodes = Map.map_values (λ _ _. tt) (Map.retain (λ _ node. is_worker node) nodes)

unfoldable pub is_assigned : State → Bool
is_assigned state =
    Map.len state.workers_with_calculated_partitions == Map.len (worker_ids state.nodes)
    && set_eq (worker_ids state.nodes) state.workers_with_calculated_partitions

unfoldable pub reassign : State → Me → ℕ → List NodeId → Option (State × List ManagerProtocol)
unfolding copy_current_mapping_to_old calculate_new_mapping create_new_workers_state other_nodes
reassign state me replication_factor [] = some (
  record (copy_current_mapping_to_old state []) { workers_with_calculated_partitions = Map.empty },
  [],
)
reassign state me replication_factor (id ∷ ids) =
    elim (calculate_new_mapping (copy_current_mapping_to_old state (id ∷ ids)) partitions_amount
      replication_factor (id ∷ ids)) [
        | none ↦ none
        | some state' ↦ elim (create_new_workers_state state') [
          | none ↦ none
          | some workers_state ↦ some (
            record state' { workers_with_calculated_partitions = Set.from_list (id ∷ ids) },
            map (λ recipient_id. cluster_state recipient_id workers_state)
                (other_nodes state'.nodes me),
          )
        ]
      ]

unfoldable pub worker_partitions : State → Me → ℕ → Option (State × List ManagerProtocol)
worker_partitions state me replication_factor =
    if option_eq state.elected_leader_id (some me.id) && not (is_assigned state)
    then reassign state me replication_factor (Map.keys (worker_ids state.nodes))
    else some (state, [])
