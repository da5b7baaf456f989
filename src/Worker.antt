-- ===== src/Worker.antt =====
-- crates/no-sql-store/src/worker/service/state.rs and src/worker/domain.rs: a worker's state and
-- its messages. The handlers are in the modules below.
pub mod Membership
pub mod Sync
pub mod Pass
pub mod Batch
pub mod Service
pub mod Epochs
pub mod Requests
pub mod Grpc
pub mod Examples
use rust_accelerator_no_sql.Map
use rust_accelerator_no_sql.Prelude.{
  ◌&&◌, map, not, ◌==◌, String, inr, inl, ◌⊎◌, arith, refl, if◌then◌else◌, ◌∷◌, [], List, some,
  none, Option, false, true, Bool, ◌≡◌, ℕ,
}
use rust_accelerator_no_sql.Store.{Key}
use rust_accelerator_no_sql.Common.{
  PartitionId, ClusterState, is_worker, is_manager, Me, Heartbeat, Partitions, Node,
  default_partitions, NodeId,
}
use rust_accelerator_no_sql.Map.{Map}
use rust_accelerator_no_sql.Map.Set.{Set}

-- A phase of a copy: the partition's records in the order of their keys, then the changes since.
pub data SyncPhase : Type 0 where
  snapshot : (revision : ℕ) → SyncPhase
  changes : (confirmed_revision pending_revision : ℕ) → SyncPhase

pub record SyncState : Type 0 where
  pub prev_max_key : Option Key
  pub curr_max_key : Key
  pub phase : SyncPhase
  pub confirmed : Bool
  pub last_start_time : ℕ

pub record State : Type 0 where
  pub epoch : Option ℕ
  pub elected_leader_id : Option NodeId
  pub nodes : Map Node
  pub partitions : Partitions
  pub partitions_last_update_time : ℕ
  pub sync : Map (Map SyncState)
  pub actual_nodes_sync_completion : Map (Map ℕ)

unfoldable pub new : Map Node → State
unfolding default_partitions
new nodes = record {
  epoch = none;
  elected_leader_id = none;
  nodes = nodes;
  partitions = default_partitions;
  partitions_last_update_time = 0;
  sync = Map.empty;
  actual_nodes_sync_completion = Map.empty;
}

-- The nodes of one partition that are in step with the last update of the partitions.
unfoldable pub currently_synced : ℕ → Map ℕ → Set
currently_synced last_update node_id_to_time =
    Map.map_values (λ _ _. tt) (Map.retain (λ _ time. time == last_update) node_id_to_time)

unfoldable pub get_currently_synced_actual_nodes : State → Map Set
get_currently_synced_actual_nodes state =
    Map.retain (λ _ nodes. not (Map.is_empty nodes))
      (Map.map_values (λ _ times. currently_synced state.partitions_last_update_time times)
        state.actual_nodes_sync_completion)

-- `domain::Record`.
pub record BatchRecord : Type 0 where
  pub key : Key
  pub value : List ℕ
  pub ttl : ℕ
  pub creation_time_ms : ℕ
  pub deleted : Bool

pub record SyncBatchRequest : Type 0 where
  pub sender_id : NodeId
  pub records : List BatchRecord

-- `WorkerProtocol`: what a worker receives, and what it sends.
pub data WorkerProtocol : Type 0 where
  new_connection :
      (id : Option NodeId) (host : String) (port : ℕ) (is_manager : Bool) → WorkerProtocol
  heartbeat : (id : NodeId) (beat : Heartbeat) → WorkerProtocol
  get_cluster_state : (id : NodeId) → WorkerProtocol
  cluster_state : (state : ClusterState) → WorkerProtocol
  node_disconnected : (id : NodeId) → WorkerProtocol
  leader : (id : NodeId) (epoch ts : ℕ) → WorkerProtocol
  remove_partition_from_replica :
      (id replica_id : NodeId) (partition_id : PartitionId) → WorkerProtocol
  sync_batch : (recipient_id : NodeId) (request : SyncBatchRequest) → WorkerProtocol
  sync_batch_response :
      (recipient_id : NodeId) (partition_id_to_max_applied_key : Map Key) → WorkerProtocol

-- Every known manager, this node left out, is asked for the cluster's state.
unfoldable pub ask_managers : Map Node → Me → List WorkerProtocol
ask_managers nodes me =
    map get_cluster_state
      (Map.keys (Map.retain (λ id node. not (id == me.id) && is_manager node) nodes))

-- The pattern `Some(Node { node_type: .., .. })`, for each of the two types.
unfoldable pub get_manager : Map Node → NodeId → Option Node
get_manager nodes id = elim (Map.get nodes id) [
  | none ↦ none
  | some node ↦ if is_manager node then some node else none
]

unfoldable pub get_worker : Map Node → NodeId → Option Node
get_worker nodes id = elim (Map.get nodes id) [
  | none ↦ none
  | some node ↦ if is_worker node then some node else none
]
