-- ===== src/Manager/Grpc/ToWorkers.antt =====
-- What arrives of a manager's messages, over an open connection, at a worker.
use rust_accelerator_no_sql.Map
use rust_accelerator_no_sql.Prelude.{
  arith, ◌%◌, none, map_option, ◌^◌, ap, false, ◌<◌, some, ◌≡◌, refl, ℕ, List, [], ◌∷◌,
}
use rust_accelerator_no_sql.Manager
use rust_accelerator_no_sql.Manager.{ManagerProtocol}
use rust_accelerator_no_sql.Worker
use rust_accelerator_no_sql.Worker.{WorkerProtocol}
use rust_accelerator_no_sql.Worker.Grpc.{receive_from_manager}
use rust_accelerator_no_sql.Manager.Grpc.{
  handle_output_leader, handle_output_vote_response, handle_output_vote_request,
  handle_output_get_cluster_state, handle_output_heartbeat,
  handle_output_remove_partition_from_replica, Sent, Sessions, to_worker, output, send_worker,
  send_either, handle_common, handle_output_cluster_state, send_cluster_state,
}
use rust_accelerator_no_sql.Wire.{WireClusterState, ManagerEvent, WorkerEvent}
use rust_accelerator_no_sql.Channels.{message, or_panic}
use rust_accelerator_no_sql.Conversions.{Uuid, cluster_state_to_grpc}
use rust_accelerator_no_sql.Conversions.RoundTrip.{HasPartitionIds, cluster_state_lem}
use rust_accelerator_no_sql.Common.{ClusterState, Config, Heartbeat, NodeId, Me}

-- What a manager's message for a worker becomes there.
pub data Arrives (sender receiver : Me) : ManagerProtocol → WorkerProtocol → Type 0 where
  heartbeat_arrives :
      (beat : Heartbeat)
      → Arrives sender receiver
          (Manager.heartbeat receiver.id beat)
          (Worker.heartbeat sender.id beat)
  cluster_state_arrives :
      (s : ClusterState)
      → HasPartitionIds s.partitions
      → Arrives sender receiver (Manager.cluster_state receiver.id s) (Worker.cluster_state s)
  leader_arrives :
      (epoch ts : ℕ)
      → Arrives sender receiver
          (Manager.leader receiver.id epoch ts)
          (Worker.leader sender.id epoch ts)
  remove_partition_arrives :
      (replica_id : NodeId) (partition_id : ℕ)
      → partition_id < 2 ^ 16
      → Arrives sender receiver
          (Manager.remove_partition_from_replica receiver.id replica_id partition_id)
          (Worker.remove_partition_from_replica sender.id replica_id partition_id)

abbrev pub Delivers : Uuid → Me → Me → Config → Sessions → ManagerProtocol → WorkerProtocol → Type 0
Delivers uuid sender receiver config sessions msg msg' =
    (event : WorkerEvent) × (rest : List Sent) × (sessions' : Sessions) × (output uuid sender config
        sessions msg
      ≡ some (sessions', to_worker receiver.id event ∷ rest))
    × (receive_from_manager uuid sender.id event ≡ message msg')

module _ (sessions : Sessions) (id : NodeId)
    (is_open : Map.get sessions.workers id ≡ some false) where
  send_either_open :
      (event : WorkerEvent) (for_manager : ManagerEvent)
      → send_either sessions id event for_manager ≡ (sessions, to_worker id event ∷ [])
  unfolding send_either send_worker handle_common
  send_either_open event for_manager =
      rw (Map.contains_key-some sessions.workers id is_open) (rw (is_open, handle_common) refl)

  cluster_state_open :
      (state : WireClusterState)
      → Map.get sessions.clients id ≡ none
      → (rest : List Sent) × (sessions' : Sessions) × (handle_output_cluster_state sessions id state
          ≡ (sessions', to_worker id (WorkerEvent.cluster_state state) ∷ rest))
  unfolding handle_output_cluster_state send_cluster_state
  cluster_state_open state not_client =
      let sent : send_cluster_state sessions id state
          ≡ (sessions, to_worker id (WorkerEvent.cluster_state state) ∷ []) =
        rw (not_client, send_cluster_state)
          (send_either_open (WorkerEvent.cluster_state state) (ManagerEvent.cluster_state state)) in
      rw (sent, handle_output_cluster_state) (_, _, refl)

receive_cluster_state :
    (uuid : Uuid)
    → ((id : NodeId) → uuid.parse_str (uuid.to_text id) ≡ some id)
    → (id : NodeId) (s : ClusterState) → HasPartitionIds s.partitions
    → receive_from_manager uuid id (WorkerEvent.cluster_state (cluster_state_to_grpc uuid s))
      ≡ message (Worker.cluster_state s)
unfolding receive_from_manager or_panic cluster_state_to_grpc
receive_cluster_state uuid law id s ids =
    ap (λ o. or_panic (map_option Worker.cluster_state o)) (cluster_state_lem uuid law s ids)

-- A message from a manager to a worker arrives over an open connection: the manager's output writes
-- an event to the worker's session, and the worker's input reads from it the message, with the
-- sender in the recipient's place, if the recipient is not known as a client, if the partition ids
-- of the message are `u16`s, and if UUIDs are parsed as they are printed.
pub manager_to_worker :
    (uuid : Uuid) (sender receiver : Me) (config : Config) (sessions : Sessions)
    {msg : ManagerProtocol} {msg' : WorkerProtocol}
    → ((id : NodeId) → uuid.parse_str (uuid.to_text id) ≡ some id)
    → Map.get sessions.workers receiver.id ≡ some false
    → Map.get sessions.clients receiver.id ≡ none
    → Arrives sender receiver msg msg'
    → Delivers uuid sender receiver config sessions msg msg'
unfolding output handle_output_leader handle_output_vote_response handle_output_vote_request
    handle_output_get_cluster_state handle_output_heartbeat
    handle_output_remove_partition_from_replica receive_from_manager or_panic
manager_to_worker uuid sender receiver config sessions law o c (heartbeat_arrives beat) =
    (_, [], sessions, ap some (send_either_open sessions receiver.id o _ _), rw (law beat.id) refl)
manager_to_worker uuid sender receiver config sessions law o c (cluster_state_arrives s ids) =
    let (rest, sessions', sent) =
      cluster_state_open sessions receiver.id o (cluster_state_to_grpc uuid s) c in
    (_, rest, sessions', ap some sent, receive_cluster_state uuid law sender.id s ids)
manager_to_worker uuid sender receiver config sessions law o c (leader_arrives epoch ts) = (
  _,
  [],
  sessions,
  ap some (send_either_open sessions receiver.id o _ _),
  rw (law sender.id) refl,
)
manager_to_worker uuid sender receiver config sessions law o c
      (remove_partition_arrives replica_id partition_id below) =
    let same : partition_id % 2 ^ 16 ≡ partition_id = ground (arith, below) in
    (
      _,
      [],
      sessions,
      ap some (send_either_open sessions receiver.id o _ _),
      rw (law replica_id, same) refl,
    )
