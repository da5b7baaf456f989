-- ===== src/Manager/Connection.antt =====
-- crates/no-sql-store/src/manager/service/connection.rs.
use rust_accelerator_no_sql.Map
use rust_accelerator_no_sql.Manager.{Map, get_cluster_state, ManagerProtocol, Me, NodeId, State}
use rust_accelerator_no_sql.Prelude.{
  if◌then◌else◌, ◌∷◌, not, ◌&&◌, [], none, ◌==◌, List, ◌||◌, Bool, some, option_eq, ℕ, String,
  Option,
}
use rust_accelerator_no_sql.Common.{Node, worker, manager}

-- The state after the node has left: without a leader if that was it, or if this node is alone.
unfoldable pub without_node : State → NodeId → Map Node → State
unfolding Map.len
without_node state id nodes =
    if option_eq (some id) state.elected_leader_id || Map.len nodes == 1
    then record state { nodes = nodes; elected_leader_id = none }
    else record state { nodes = nodes }

unfoldable pub handle_node_disconnected : State → NodeId → State
unfolding without_node Map.contains_key Map.remove
handle_node_disconnected state id =
    if Map.contains_key state.nodes id
    then without_node state id (Map.remove state.nodes id)
    else state

-- An outgoing connection has no id yet, and changes nothing.
unfoldable pub handle_new_connection :
    State → Option NodeId → String → ℕ → Me → Bool → ℕ → State × List ManagerProtocol
unfolding Map.insert
handle_new_connection state none host port me is_manager now = (state, [])
handle_new_connection state (some id) host port me is_manager now = (
  record state {
    nodes = Map.insert state.nodes id (record {
      host = host;
      port = port;
      last_heartbeat = now;
      node_type = if is_manager then manager else worker;
    });
  },
  if is_manager && not (option_eq state.elected_leader_id (some me.id))
      then get_cluster_state id ∷ []
      else [],
)
