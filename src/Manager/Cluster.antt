-- ===== src/Manager/Cluster.antt =====
-- crates/no-sql-store/src/manager/service/cluster_state.rs: snapshots of the cluster, received
-- from the leader and sent to those who ask.
pub mod Acceptance
pub mod Membership
use rust_accelerator_no_sql.Map
use rust_accelerator_no_sql.Manager.{
  remove_partition_from_replica, cluster_state, new_connection, Set, ManagerProtocol, State,
}
use rust_accelerator_no_sql.Prelude.{
  if◌then◌else◌, contains, ◌++◌, ◌==◌, option_lt, ◌∷◌, ◌||◌, ◌&&◌, [], true, is_some, option_eq,
  ltb, none, not, some, map, Option, ℕ, List,
}
use rust_accelerator_no_sql.Map.{Map}
use rust_accelerator_no_sql.Common.{
  worker, manager, Partitions, NodeType, Me, PartitionId, Node, ClusterNode, NodeId,
}

-- The state with the snapshot's epoch and leader, if the snapshot is accepted.
unfoldable pub accept : State → ℕ → NodeId → Option State
accept state epoch leader_id =
    if not (is_some state.epoch) || option_lt state.epoch (some epoch)
    then some (record state { epoch = some epoch; elected_leader_id = some leader_id })
    else if option_eq state.epoch (some epoch) && option_eq state.elected_leader_id (some leader_id)
    then some state
    else none

abbrev pub item_ids : List ClusterNode → List NodeId
item_ids items = map (λ item. item.id) items

-- A complete snapshot keeps this node and the nodes that it names. An empty list of nodes is an
-- update of the partitions only.
unfoldable pub prune_nodes : Map Node → List ClusterNode → Me → Map Node
unfolding Map.retain
prune_nodes nodes [] me = nodes
prune_nodes nodes (item ∷ items) me =
    Map.retain (λ id _. id == me.id || contains (item_ids (item ∷ items)) id) nodes

-- An unknown manager is connected to; an unknown worker is recorded.
unfoldable pub add_node : Map Node → ClusterNode → NodeType → Map Node × List ManagerProtocol
unfolding Map.insert
add_node nodes item manager = (nodes, new_connection none item.host item.port true ∷ [])
add_node nodes item worker = (
  Map.insert nodes item.id (record {
    host = item.host;
    port = item.port;
    last_heartbeat = item.last_heartbeat;
    node_type = worker;
  }),
  [],
)

unfoldable pub merge_item : Map Node → ClusterNode → Map Node × List ManagerProtocol
unfolding add_node Map.get Map.insert
merge_item nodes item = elim (Map.get nodes item.id) [
  | some node ↦ (
    if ltb node.last_heartbeat item.last_heartbeat
        then Map.insert nodes item.id (record node { last_heartbeat = item.last_heartbeat })
        else nodes,
    [],
  )
  | none ↦ add_node nodes item item.node_type
]

unfoldable pub merge_items : Map Node → List ClusterNode → Map Node × List ManagerProtocol
unfolding merge_item
merge_items nodes [] = (nodes, [])
merge_items nodes (item ∷ items) =
    let (nodes', output) = merge_item nodes item in
    let (merged, outputs) = merge_items nodes' items in (merged, output ++ outputs)

unfoldable pub handle_cluster_state :
    State → ℕ → NodeId → List ClusterNode → Partitions → Me → State × List ManagerProtocol
unfolding accept prune_nodes merge_items
handle_cluster_state state epoch leader_id items partitions me =
    elim (accept state epoch leader_id) [
      | none ↦ (state, [])
      | some accepted ↦
          let (nodes, output) = merge_items (prune_nodes accepted.nodes items me) items in
          (record accepted { partitions = partitions; nodes = nodes }, output)
    ]

unfoldable pub to_cluster_node : NodeId × Node → ClusterNode
to_cluster_node (id, node) = record {
  id = id;
  host = node.host;
  port = node.port;
  last_heartbeat = node.last_heartbeat;
  node_type = node.node_type;
}

-- A manager that knows no leader has nothing to tell.
unfoldable pub handle_get_cluster_state : State → NodeId → List ManagerProtocol
unfolding to_cluster_node
handle_get_cluster_state state id = elim state.epoch [
  | none ↦ []
  | some epoch ↦ elim state.elected_leader_id [
    | none ↦ []
    | some leader_id ↦
        cluster_state id (record {
          epoch = epoch;
          leader_id = leader_id;
          nodes = map to_cluster_node state.nodes.entries;
          partitions = state.partitions;
        })
        ∷ []
  ]
]

-- `old_replicas` without one replica of one partition, and without the partition when that was the last.
unfoldable pub remove_old_replica : Map Set → PartitionId → NodeId → Map Set
unfolding Map.get Map.insert Map.remove Map.contains_key Map.is_empty
remove_old_replica old_replicas partition_id replica_id = elim (Map.get old_replicas partition_id) [
  | none ↦ old_replicas
  | some replicas ↦
      let rest = Map.remove replicas replica_id in
      if Map.contains_key replicas replica_id && Map.is_empty rest
      then Map.remove old_replicas partition_id
      else Map.insert old_replicas partition_id rest
]

unfoldable pub handle_remove_old_partition :
    State → NodeId → NodeId → PartitionId → Me → State × List ManagerProtocol
unfolding remove_old_replica Map.keys Map.remove
handle_remove_old_partition state id replica_id partition_id me = (
  record state {
    partitions = record (state.partitions) {
      old_replicas = remove_old_replica state.partitions.old_replicas partition_id replica_id;
    };
  },
  if option_eq state.elected_leader_id (some me.id)
      then map (λ recipient_id. remove_partition_from_replica recipient_id replica_id partition_id)
          (Map.keys (Map.remove (Map.remove (Map.remove state.nodes replica_id) id) me.id))
      else [],
)
