-- ===== src/Worker/Membership.antt =====
-- crates/no-sql-store/src/worker/service: election.rs, cluster_state.rs, connection.rs and
-- heartbeat.rs, by which a worker follows the cluster.
use rust_accelerator_no_sql.Map
use rust_accelerator_no_sql.Prelude.{
  map, ◌&&◌, add64, contains, option_eq, leb, ◌||◌, ◌++◌, ◌==◌, max, ◌+◌, is_some, option_lt,
  String, ◌-◌, not, u64_mod, ltb, if◌then◌else◌, ◌∷◌, [], List, some, none, Option, false, true,
  Bool, ℕ,
}
use rust_accelerator_no_sql.Worker.{
  heartbeat, get_manager, get_worker, get_cluster_state, ask_managers, new_connection,
  WorkerProtocol, State,
}
use rust_accelerator_no_sql.Map.{Map}
use rust_accelerator_no_sql.Common.{
  worker, ClusterNode, partitions_eq, Me, manager, Node, Partitions, NodeId, NodeType,
}

unfoldable pub handle_leader : State → NodeId → ℕ → ℕ → Me → State × List WorkerProtocol
handle_leader state id epoch ts me =
    if option_lt state.epoch (some epoch)
    then elim (get_manager state.nodes id) [
      | some node ↦ (
        record state {
          nodes = Map.insert state.nodes id (record node { last_heartbeat = ts });
          elected_leader_id = some id;
          epoch = some epoch;
        },
        [],
      )
      | none ↦ (state, ask_managers state.nodes me)
    ]
    else (state, [])

unfoldable pub accept : State → ℕ → NodeId → Option State
accept state epoch leader_id =
    if not (is_some state.epoch) || option_lt state.epoch (some epoch)
    then some (record state { epoch = some epoch; elected_leader_id = some leader_id })
    else if option_eq state.epoch (some epoch) && option_eq state.elected_leader_id (some leader_id)
    then some state
    else none

-- `u64::saturating_add(1)`.
unfoldable pub saturating_suc : ℕ → ℕ
saturating_suc n = if ltb n (u64_mod - 1) then n + 1 else n

-- A change of the partitions takes a time that is later than that of the change before.
unfoldable pub update_time : State → Partitions → ℕ → ℕ
unfolding saturating_suc
update_time state partitions now =
    if partitions_eq state.partitions partitions
    then state.partitions_last_update_time
    else max now (saturating_suc state.partitions_last_update_time)

unfoldable pub prune_nodes : Map Node → List ClusterNode → Me → Map Node
prune_nodes nodes [] me = nodes
prune_nodes nodes (item ∷ items) me =
    Map.retain (λ id _. id == me.id || contains (map (λ i. i.id) (item ∷ items)) id) nodes

unfoldable pub is_manager_item : NodeType → Bool
is_manager_item manager = true
is_manager_item worker = false

-- An unknown node of either type is connected to.
unfoldable pub merge_item : Map Node → ClusterNode → Map Node × List WorkerProtocol
unfolding is_manager_item
merge_item nodes item = elim (Map.get nodes item.id) [
  | some node ↦ (
    if ltb node.last_heartbeat item.last_heartbeat
        then Map.insert nodes item.id (record node { last_heartbeat = item.last_heartbeat })
        else nodes,
    [],
  )
  | none ↦ (nodes, new_connection none item.host item.port (is_manager_item item.node_type) ∷ [])
]

unfoldable pub merge_items : Map Node → List ClusterNode → Map Node × List WorkerProtocol
merge_items nodes [] = (nodes, [])
merge_items nodes (item ∷ items) =
    let (nodes', output) = merge_item nodes item in
    let (merged, outputs) = merge_items nodes' items in (merged, output ++ outputs)

unfoldable pub handle_cluster_state :
    State → ℕ → NodeId → List ClusterNode → Partitions → Me → ℕ → State × List WorkerProtocol
handle_cluster_state state epoch leader_id items partitions me now =
    elim (accept state epoch leader_id) [
      | none ↦ (state, [])
      | some accepted ↦
          let (nodes, output) = merge_items (prune_nodes accepted.nodes items me) items in
          (
            record accepted {
              partitions_last_update_time = update_time accepted partitions now;
              partitions = partitions;
              nodes = nodes;
            },
            output,
          )
    ]

unfoldable pub handle_remove_old_partition : State → NodeId → Me → List WorkerProtocol
handle_remove_old_partition state replica_id me =
    if Map.contains_key state.nodes replica_id then ask_managers state.nodes me else []

unfoldable pub handle_node_disconnected : State → NodeId → State
handle_node_disconnected state id =
    if Map.contains_key state.nodes id
    then record state { nodes = Map.remove state.nodes id }
    else state

unfoldable pub handle_new_connection :
    State → Option NodeId → String → ℕ → Bool → ℕ → State × List WorkerProtocol
handle_new_connection state none host port is_manager now = (state, [])
handle_new_connection state (some id) host port is_manager now = (
  record state {
    nodes = Map.insert state.nodes id (record {
      host = host;
      port = port;
      last_heartbeat = now;
      node_type = if is_manager then manager else worker;
    });
  },
  if is_manager then get_cluster_state id ∷ [] else [],
)

abbrev pub heartbeat_interval_ms : ℕ
heartbeat_interval_ms = 200

unfoldable pub heartbeats : State → Me → ℕ → State × List WorkerProtocol
heartbeats state me now = elim (get_worker state.nodes me.id) [
  | none ↦ (state, [])
  | some node ↦
      if leb (add64 node.last_heartbeat heartbeat_interval_ms) now
      then (
        record state {
          nodes = Map.insert state.nodes me.id (record node { last_heartbeat = now });
        },
        map (λ id. heartbeat id (record { id = me.id; ts = now }))
            (Map.keys (Map.remove state.nodes me.id)),
      )
      else (state, [])
]

unfoldable pub handle_heartbeat : State → NodeId → ℕ → Me → State × List WorkerProtocol
handle_heartbeat state id ts me = elim (Map.get state.nodes id) [
  | none ↦ (state, ask_managers state.nodes me)
  | some node ↦ (
    record state {
      nodes =
          Map.insert state.nodes id (record node { last_heartbeat = max node.last_heartbeat ts });
    },
    [],
  )
]
