-- ===== src/Manager.antt =====
-- crates/no-sql-store/src/manager/service/state.rs and src/manager/domain.rs: a manager's state
-- and its messages. The handlers are in the modules below, one for each file of the service.
pub mod Election
pub mod Heartbeats
pub mod Connection
pub mod Cluster
pub mod Assignment
pub mod Service
pub mod Grpc
pub mod Examples
use rust_accelerator_no_sql.Prelude.{
  if◌then◌else◌, ◌&&◌, ◌==◌, map, not, List, ℕ, Bool, Option, none, some, String,
}
use rust_accelerator_no_sql.Map
use rust_accelerator_no_sql.Map.{Map}
use rust_accelerator_no_sql.Map.Set.{Set}
use rust_accelerator_no_sql.Common.{
  is_manager, Me, NodeId, PartitionId, Node, Partitions, Heartbeat, ClusterState,
  default_partitions,
}
use Prim.Native.String.{then}

pub record State : Type 0 where
  pub epoch : Option ℕ
  pub elected_leader_id : Option NodeId
  pub nodes : Map Node
  pub partitions : Partitions
  pub workers_with_calculated_partitions : Set

unfoldable pub new : Map Node → Option ℕ → State
unfolding default_partitions Map.empty
new nodes epoch = record {
  epoch = epoch;
  elected_leader_id = none;
  nodes = nodes;
  partitions = default_partitions;
  workers_with_calculated_partitions = Map.empty;
}

-- `ManagerProtocol`: what a manager receives, and what it sends.
pub data ManagerProtocol : Type 0 where
  new_connection :
      (id : Option NodeId) (host : String) (port : ℕ) (is_manager : Bool) → ManagerProtocol
  heartbeat : (id : NodeId) (beat : Heartbeat) → ManagerProtocol
  get_cluster_state : (id : NodeId) → ManagerProtocol
  cluster_state : (recipient_id : NodeId) (state : ClusterState) → ManagerProtocol
  vote_request : (id : NodeId) (epoch ts : ℕ) → ManagerProtocol
  vote_response : (id leader_id : NodeId) (ts : ℕ) → ManagerProtocol
  leader : (id : NodeId) (epoch ts : ℕ) → ManagerProtocol
  node_disconnected : (id : NodeId) → ManagerProtocol
  remove_partition_from_replica :
      (id replica_id : NodeId) (partition_id : PartitionId) → ManagerProtocol

-- The managers of the membership, this node left out.
unfoldable pub other_managers : Map Node → Me → List NodeId
unfolding Map.keys Map.retain
other_managers nodes me =
    Map.keys (Map.retain (λ id node. not (id == me.id) && is_manager node) nodes)

unfoldable pub ask_managers : Map Node → Me → List ManagerProtocol
unfolding other_managers
ask_managers nodes me = map get_cluster_state (other_managers nodes me)

-- Every known node but this one.
unfoldable pub other_nodes : Map Node → Me → List NodeId
unfolding Map.keys Map.remove
other_nodes nodes me = Map.keys (Map.remove nodes me.id)

-- The pattern `Some(Node { node_type: NodeType::Manager, .. })`.
unfoldable pub get_manager : Map Node → NodeId → Option Node
unfolding Map.get
get_manager nodes id = elim (Map.get nodes id) [
  | none ↦ none
  | some node ↦ if is_manager node then some node else none
]
