-- ===== src/Worker/Grpc.antt =====
-- crates/no-sql-store/src/worker/grpc/input.rs, output.rs and session.rs: the events that a worker
-- receives and sends. Sessions are modelled as a manager's are.
pub mod KnownManagers
pub mod Announcements
pub mod Connections
pub mod LeaderMessages
pub mod Delivery
use rust_accelerator_no_sql.Map
use rust_accelerator_no_sql.Map.{Map}
use rust_accelerator_no_sql.Map.Extensionality.{collect}
use rust_accelerator_no_sql.Prelude.{
  ℕ, String, Bool, true, false, List, [], ◌∷◌, Option, none, some, map, map_option, ◌%◌, ◌^◌,
  if◌then◌else◌,
}
use rust_accelerator_no_sql.Common.{NodeId, Me, Heartbeat}
use rust_accelerator_no_sql.Store.{Key}
use rust_accelerator_no_sql.Worker.{
  WorkerProtocol, new_connection, heartbeat, get_cluster_state, cluster_state, node_disconnected,
  leader, remove_partition_from_replica, sync_batch, sync_batch_response, BatchRecord,
  SyncBatchRequest,
}
use rust_accelerator_no_sql.Wire
use rust_accelerator_no_sql.Wire.{WireRecord, WorkerEvent, SyncEvent}
use rust_accelerator_no_sql.Conversions.{Uuid, cluster_state_to_domain}
use rust_accelerator_no_sql.Channels.{Received, message, stop, or_panic, receive_all}

abbrev pub record_to_domain : WireRecord → BatchRecord
record_to_domain r = record {
  key = r.key;
  value = r.value;
  ttl = r.ttl;
  creation_time_ms = r.creation_time;
  deleted = r.deleted;
}

-- The arms of `input_from_worker`: a connection between two workers.
unfoldable pub receive_from_worker : Me → NodeId → SyncEvent → Received WorkerProtocol
receive_from_worker me id (SyncEvent.sync_batch_request records) =
    message (sync_batch me.id (record { sender_id = id; records = map record_to_domain records }))
receive_from_worker me id (SyncEvent.sync_batch_response max_applied) =
    message (sync_batch_response id (collect (map (λ e. (e.0 % 2 ^ 16, e.1)) max_applied.entries)))
receive_from_worker me id (SyncEvent.connect request_id addr) = stop
receive_from_worker me id (SyncEvent.connect_response response_id) = stop

unfoldable pub input_from_worker :
    Me → NodeId → String → ℕ → List SyncEvent → List WorkerProtocol × Bool
input_from_worker me id host port events =
    let received = receive_all (receive_from_worker me id) events in
    (new_connection (some id) host port false ∷ received.0, received.1)

-- The arms of `input_from_manager`: a connection between a worker and a manager.
unfoldable pub receive_from_manager : Uuid → NodeId → WorkerEvent → Received WorkerProtocol
receive_from_manager uuid id (WorkerEvent.remove_partition_from_replica replica partition_id) =
    or_panic (
      map_option (λ replica_id. remove_partition_from_replica id replica_id (partition_id % 2 ^ 16))
        (uuid.parse_str replica))
receive_from_manager uuid id (WorkerEvent.heartbeat node ts) =
    or_panic (
      map_option (λ node_id. heartbeat id (record { id = node_id; ts = ts })) (uuid.parse_str node))
receive_from_manager uuid id WorkerEvent.get_cluster_state = stop
receive_from_manager uuid id (WorkerEvent.cluster_state state) = elim state.partitions [
  | none ↦ stop
  | some partitions ↦
      or_panic (map_option cluster_state (cluster_state_to_domain uuid state partitions))
]
receive_from_manager uuid id (WorkerEvent.manager_leader leader_text epoch ts) =
    or_panic (map_option (λ leader_id. leader leader_id epoch ts) (uuid.parse_str leader_text))
receive_from_manager uuid id (WorkerEvent.connect request_id addr factor) = stop
receive_from_manager uuid id (WorkerEvent.connect_response response_id) = stop

-- The connection is announced as that of a worker.
unfoldable pub input_from_manager :
    Uuid → NodeId → String → ℕ → List WorkerEvent → List WorkerProtocol × Bool
input_from_manager uuid id host port events =
    let received = receive_all (receive_from_manager uuid id) events in
    (new_connection (some id) host port false ∷ received.0, received.1)

-- What the output loop does with a message.
pub data Sent : Type 0 where
  to_manager : NodeId → WorkerEvent → Sent
  to_worker : NodeId → SyncEvent → Sent
  to_service : WorkerProtocol → Sent
  connect_to : (host : String) (port : ℕ) (is_manager : Bool) → Sent

pub record Sessions : Type 0 where
  pub managers : Map Bool
  pub workers : Map Bool

unfoldable pub handle_common : Map Bool → NodeId → Sent → Map Bool × List Sent
handle_common sessions id sent = elim (Map.get sessions id) [
  | none ↦ (sessions, [])
  | some is_closed ↦
      if is_closed
      then (Map.remove sessions id, to_service (node_disconnected id) ∷ [])
      else (sessions, sent ∷ [])
]

unfoldable pub send_manager : Sessions → NodeId → WorkerEvent → Sessions × List Sent
send_manager sessions id event =
    let handled = handle_common sessions.managers id (to_manager id event) in
    (record sessions { managers = handled.0 }, handled.1)

unfoldable pub send_worker : Sessions → NodeId → SyncEvent → Sessions × List Sent
send_worker sessions id event =
    let handled = handle_common sessions.workers id (to_worker id event) in
    (record sessions { workers = handled.0 }, handled.1)

abbrev pub record_to_grpc : BatchRecord → WireRecord
record_to_grpc r = record {
  key = r.key;
  value = r.value;
  ttl = r.ttl;
  creation_time = r.creation_time_ms;
  deleted = r.deleted;
}

-- `none` is the `unreachable!` of a disconnection.
unfoldable pub output : Uuid → Sessions → WorkerProtocol → Option (Sessions × List Sent)
output uuid sessions (sync_batch_response recipient_id max_applied) =
    some (send_worker sessions recipient_id (SyncEvent.sync_batch_response max_applied))
output uuid sessions (sync_batch recipient_id request) = some (
    send_worker sessions recipient_id
      (SyncEvent.sync_batch_request (map record_to_grpc request.records)))
output uuid sessions (remove_partition_from_replica id replica_id partition_id) = some (
    send_manager sessions id
      (WorkerEvent.remove_partition_from_replica (uuid.to_text replica_id) partition_id))
output uuid sessions (heartbeat id beat) =
    some (send_manager sessions id (WorkerEvent.heartbeat (uuid.to_text beat.id) beat.ts))
output uuid sessions (get_cluster_state id) =
    some (send_manager sessions id WorkerEvent.get_cluster_state)
output uuid sessions (new_connection id host port is_manager) =
    some (sessions, connect_to host port is_manager ∷ [])
output uuid sessions (cluster_state state) = some (sessions, [])
output uuid sessions (leader id epoch ts) = some (sessions, [])
output uuid sessions (node_disconnected id) = none
