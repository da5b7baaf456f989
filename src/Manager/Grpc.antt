-- ===== src/Manager/Grpc.antt =====
-- crates/no-sql-store/src/manager/grpc/input.rs, output.rs and session.rs: the events that a manager
-- receives and sends. A session is its node's id and whether its channel is closed; a send on a
-- channel that is open succeeds. The service's own channel is open.
pub mod Delivery
pub mod ToWorkers
pub mod Handshake
pub mod Connections
use rust_accelerator_no_sql.Map
use rust_accelerator_no_sql.Map.{Map}
use rust_accelerator_no_sql.Prelude.{
  ℕ, String, Bool, true, false, not, List, [], ◌∷◌, ◌++◌, Option, none, some, map_option, ◌==◌, ◌%◌,
  ◌^◌, if◌then◌else◌,
}
use rust_accelerator_no_sql.Common.{
  PartitionId, NodeId, Me, Heartbeat, ClusterState, Config, replication_factor,
}
use rust_accelerator_no_sql.Manager.{
  ManagerProtocol, new_connection, heartbeat, get_cluster_state, cluster_state, vote_request,
  vote_response, leader, node_disconnected, remove_partition_from_replica,
}
use rust_accelerator_no_sql.Wire
use rust_accelerator_no_sql.Wire.{WireClusterState, ManagerEvent, WorkerEvent}
use rust_accelerator_no_sql.Conversions.{Uuid, cluster_state_to_domain, cluster_state_to_grpc}
use rust_accelerator_no_sql.Channels.{Received, message, stop, or_panic, receive_all}

-- The arms of `input_from_worker`.
unfoldable pub receive_from_worker : Uuid → NodeId → WorkerEvent → Received ManagerProtocol
receive_from_worker uuid id (WorkerEvent.remove_partition_from_replica replica partition_id) =
    or_panic (
      map_option (λ replica_id. remove_partition_from_replica id replica_id (partition_id % 2 ^ 16))
        (uuid.parse_str replica))
receive_from_worker uuid id (WorkerEvent.heartbeat node ts) =
    or_panic (
      map_option (λ node_id. heartbeat id (record { id = node_id; ts = ts })) (uuid.parse_str node))
receive_from_worker uuid id WorkerEvent.get_cluster_state = message (get_cluster_state id)
receive_from_worker uuid id (WorkerEvent.cluster_state s) = stop
receive_from_worker uuid id (WorkerEvent.manager_leader l epoch ts) = stop
receive_from_worker uuid id (WorkerEvent.connect request_id addr factor) = stop
receive_from_worker uuid id (WorkerEvent.connect_response response_id) = stop

unfoldable pub input_from_worker :
    Uuid → NodeId → String → ℕ → List WorkerEvent → List ManagerProtocol × Bool
input_from_worker uuid id host port events =
    let received = receive_all (receive_from_worker uuid id) events in
    (new_connection (some id) host port false ∷ received.0, received.1)

-- The arms of `input_from_manager`.
unfoldable pub receive_from_manager : Uuid → Me → NodeId → ManagerEvent → Received ManagerProtocol
receive_from_manager uuid me id (ManagerEvent.remove_partition_from_replica replica partition_id) =
    or_panic (
      map_option (λ replica_id. remove_partition_from_replica id replica_id (partition_id % 2 ^ 16))
        (uuid.parse_str replica))
receive_from_manager uuid me id (ManagerEvent.heartbeat node ts) =
    or_panic (
      map_option (λ node_id. heartbeat id (record { id = node_id; ts = ts })) (uuid.parse_str node))
receive_from_manager uuid me id ManagerEvent.get_cluster_state = message (get_cluster_state id)
receive_from_manager uuid me id (ManagerEvent.cluster_state state) = elim state.partitions [
  | none ↦ stop
  | some partitions ↦
      or_panic (map_option (cluster_state me.id) (cluster_state_to_domain uuid state partitions))
]
receive_from_manager uuid me id (ManagerEvent.vote_request epoch ts) =
    message (vote_request id epoch ts)
receive_from_manager uuid me id (ManagerEvent.vote_response leader_text ts) =
    or_panic (map_option (λ leader_id. vote_response id leader_id ts) (uuid.parse_str leader_text))
receive_from_manager uuid me id (ManagerEvent.leader leader_text epoch ts) =
    or_panic (map_option (λ leader_id. leader leader_id epoch ts) (uuid.parse_str leader_text))
receive_from_manager uuid me id (ManagerEvent.connect request_id addr factor) = stop
receive_from_manager uuid me id (ManagerEvent.connect_response response_id) = stop

unfoldable pub input_from_manager :
    Uuid → Me → NodeId → String → ℕ → List ManagerEvent → List ManagerProtocol × Bool
input_from_manager uuid me id host port events =
    let received = receive_all (receive_from_manager uuid me id) events in
    (new_connection (some id) host port true ∷ received.0, received.1)

-- What the output loop does with a message: an event to a node or a client, a message back to the
-- service, or a new connection to a manager.
pub data Sent : Type 0 where
  to_manager : NodeId → ManagerEvent → Sent
  to_worker : NodeId → WorkerEvent → Sent
  to_client : NodeId → WireClusterState → Sent
  to_service : ManagerProtocol → Sent
  connect_to : (host : String) (port replication_factor : ℕ) → Sent

pub record Sessions : Type 0 where
  pub managers : Map Bool
  pub workers : Map Bool
  pub clients : Map Bool

unfoldable pub handle_common : Map Bool → NodeId → Sent → Map Bool × List Sent
handle_common sessions id sent = elim (Map.get sessions id) [
  | none ↦ (sessions, [])
  | some is_closed ↦
      if is_closed
      then (Map.remove sessions id, to_service (node_disconnected id) ∷ [])
      else (sessions, sent ∷ [])
]

unfoldable pub send_manager : Sessions → NodeId → ManagerEvent → Sessions × List Sent
send_manager sessions id event =
    let handled = handle_common sessions.managers id (to_manager id event) in
    (record sessions { managers = handled.0 }, handled.1)

unfoldable pub send_worker : Sessions → NodeId → WorkerEvent → Sessions × List Sent
send_worker sessions id event =
    let handled = handle_common sessions.workers id (to_worker id event) in
    (record sessions { workers = handled.0 }, handled.1)

-- A node that has a worker's session is sent the worker's form.
unfoldable pub send_either : Sessions → NodeId → WorkerEvent → ManagerEvent → Sessions × List Sent
send_either sessions id for_worker for_manager =
    if Map.contains_key sessions.workers id
    then send_worker sessions id for_worker
    else send_manager sessions id for_manager

-- The recipient of a cluster's state; a client is not removed here if its channel is closed.
unfoldable pub send_cluster_state : Sessions → NodeId → WireClusterState → Sessions × List Sent
send_cluster_state sessions id state = elim (Map.get sessions.clients id) [
  | some is_closed ↦ (sessions, if is_closed then [] else to_client id state ∷ [])
  | none ↦
      send_either sessions id (WorkerEvent.cluster_state state) (ManagerEvent.cluster_state state)
]

-- The loop over the clients.
unfoldable pub notify_clients :
    List (ℕ × Bool) → Map Bool → NodeId → WireClusterState → Map Bool × List Sent
notify_clients [] clients id state = (clients, [])
notify_clients ((client_id, is_closed) ∷ rest) clients id state = elim (client_id == id) [
  | true ↦ notify_clients rest clients id state
  | false ↦ elim is_closed [
    | true ↦ notify_clients rest (Map.remove clients client_id) id state
    | false ↦
        let later = notify_clients rest clients id state in
        (later.0, to_client client_id state ∷ later.1)
  ]
]

unfoldable pub handle_output_cluster_state :
    Sessions → NodeId → WireClusterState → Sessions × List Sent
handle_output_cluster_state sessions id state =
    let sent = send_cluster_state sessions id state in
    let notified = notify_clients sent.0.clients.entries sent.0.clients id state in
    (record sent.0 { clients = notified.0 }, sent.1 ++ notified.1)

unfoldable pub handle_output_remove_partition_from_replica :
    Uuid → Sessions → NodeId → NodeId → PartitionId → Sessions × List Sent
handle_output_remove_partition_from_replica uuid sessions recipient_id replica_id partition_id =
    send_either sessions recipient_id
      (WorkerEvent.remove_partition_from_replica (uuid.to_text replica_id) partition_id)
      (ManagerEvent.remove_partition_from_replica (uuid.to_text replica_id) partition_id)

unfoldable pub handle_output_heartbeat :
    Uuid → Sessions → NodeId → NodeId → ℕ → Sessions × List Sent
handle_output_heartbeat uuid sessions id node_id ts =
    send_either sessions id (WorkerEvent.heartbeat (uuid.to_text node_id) ts)
      (ManagerEvent.heartbeat (uuid.to_text node_id) ts)

unfoldable pub handle_output_get_cluster_state : Sessions → NodeId → Sessions × List Sent
handle_output_get_cluster_state sessions id =
    send_manager sessions id ManagerEvent.get_cluster_state

unfoldable pub handle_output_vote_request : Sessions → NodeId → ℕ → ℕ → Sessions × List Sent
handle_output_vote_request sessions id epoch ts =
    send_manager sessions id (ManagerEvent.vote_request epoch ts)

unfoldable pub handle_output_vote_response :
    Uuid → Sessions → NodeId → NodeId → ℕ → Sessions × List Sent
handle_output_vote_response uuid sessions id leader_id ts =
    send_manager sessions id (ManagerEvent.vote_response (uuid.to_text leader_id) ts)

-- The leader that is named is the sender.
unfoldable pub handle_output_leader : Uuid → Me → Sessions → NodeId → ℕ → ℕ → Sessions × List Sent
handle_output_leader uuid me sessions id epoch ts =
    send_either sessions id (WorkerEvent.manager_leader (uuid.to_text me.id) epoch ts)
      (ManagerEvent.leader (uuid.to_text me.id) epoch ts)

-- `none` is the `unreachable!` of a disconnection, or of the configuration of a worker.
unfoldable pub output :
    Uuid → Me → Config → Sessions → ManagerProtocol → Option (Sessions × List Sent)
output uuid me config sessions (remove_partition_from_replica id replica_id partition_id) =
    some (handle_output_remove_partition_from_replica uuid sessions id replica_id partition_id)
output uuid me config sessions (heartbeat id beat) =
    some (handle_output_heartbeat uuid sessions id beat.id beat.ts)
output uuid me config sessions (new_connection id host port is_manager) =
    elim (replication_factor config) [
      | none ↦ none
      | some factor ↦ some (sessions, if is_manager then connect_to host port factor ∷ [] else [])
    ]
output uuid me config sessions (get_cluster_state id) =
    some (handle_output_get_cluster_state sessions id)
output uuid me config sessions (cluster_state recipient_id state) =
    some (handle_output_cluster_state sessions recipient_id (cluster_state_to_grpc uuid state))
output uuid me config sessions (vote_request id epoch ts) =
    some (handle_output_vote_request sessions id epoch ts)
output uuid me config sessions (vote_response id leader_id ts) =
    some (handle_output_vote_response uuid sessions id leader_id ts)
output uuid me config sessions (leader id epoch ts) =
    some (handle_output_leader uuid me sessions id epoch ts)
output uuid me config sessions (node_disconnected id) = none
