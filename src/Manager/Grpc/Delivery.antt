-- ===== src/Manager/Grpc/Delivery.antt =====
-- What arrives of a manager's messages, over an open connection, at a manager.
use rust_accelerator_no_sql.Map
use rust_accelerator_no_sql.Prelude.{
  map_option, arith, ◌%◌, ap, none, refl, ◌^◌, ◌<◌, false, some, ◌≡◌, ℕ, List, [], ◌∷◌,
}
use rust_accelerator_no_sql.Wire.{WireClusterState, ManagerEvent, WorkerEvent}
use rust_accelerator_no_sql.Common.{ClusterState, Heartbeat, NodeId, Config, Me}
use rust_accelerator_no_sql.Conversions.{cluster_state_to_grpc, Uuid}
use rust_accelerator_no_sql.Manager.Grpc.{
  handle_output_leader, handle_output_vote_response, handle_output_vote_request,
  handle_output_get_cluster_state, handle_output_heartbeat,
  handle_output_remove_partition_from_replica, send_cluster_state, handle_output_cluster_state,
  handle_common, message, send_either, send_manager, receive_from_manager, to_manager, output, Sent,
  Sessions,
}
use rust_accelerator_no_sql.Manager.{
  remove_partition_from_replica, leader, vote_response, vote_request, cluster_state,
  get_cluster_state, heartbeat, ManagerProtocol,
}
use rust_accelerator_no_sql.Conversions.RoundTrip.{cluster_state_lem, HasPartitionIds}
use rust_accelerator_no_sql.Channels.{or_panic}

-- What a manager's message for another manager becomes there: its sender takes the recipient's place,
-- and the leader that is announced is the sender.
pub data Arrives (sender receiver : Me) : ManagerProtocol → ManagerProtocol → Type 0 where
  heartbeat_arrives :
      (beat : Heartbeat)
      → Arrives sender receiver (heartbeat receiver.id beat) (heartbeat sender.id beat)
  get_cluster_state_arrives :
      Arrives sender receiver (get_cluster_state receiver.id) (get_cluster_state sender.id)
  cluster_state_arrives :
      (s : ClusterState)
      → HasPartitionIds s.partitions
      → Arrives sender receiver (cluster_state receiver.id s) (cluster_state receiver.id s)
  vote_request_arrives :
      (epoch ts : ℕ)
      → Arrives sender receiver
          (vote_request receiver.id epoch ts)
          (vote_request sender.id epoch ts)
  vote_response_arrives :
      (leader_id : NodeId) (ts : ℕ)
      → Arrives sender receiver
          (vote_response receiver.id leader_id ts)
          (vote_response sender.id leader_id ts)
  leader_arrives :
      (epoch ts : ℕ)
      → Arrives sender receiver (leader receiver.id epoch ts) (leader sender.id epoch ts)
  remove_partition_arrives :
      (replica_id : NodeId) (partition_id : ℕ)
      → partition_id < 2 ^ 16
      → Arrives sender receiver
          (remove_partition_from_replica receiver.id replica_id partition_id)
          (remove_partition_from_replica sender.id replica_id partition_id)

-- The manager's event is the first that is sent, whatever else is sent to clients.
abbrev pub Delivers :
    Uuid → Me → Me → Config → Sessions → ManagerProtocol → ManagerProtocol → Type 0
Delivers uuid sender receiver config sessions msg msg' =
    (event : ManagerEvent) × (rest : List Sent) × (sessions' : Sessions) × (output uuid sender
        config sessions msg
      ≡ some (sessions', to_manager receiver.id event ∷ rest))
    × (receive_from_manager uuid receiver sender.id event ≡ message msg')

module _ (sessions : Sessions) (id : NodeId)
    (is_open : Map.get sessions.managers id ≡ some false) where
  send_manager_open :
      (event : ManagerEvent) → send_manager sessions id event ≡ (sessions, to_manager id event ∷ [])
  unfolding send_manager handle_common
  send_manager_open event = rw (is_open, handle_common) refl

  module _ (not_worker : Map.contains_key sessions.workers id ≡ false) where
    send_either_open :
        (for_worker : WorkerEvent) (event : ManagerEvent)
        → send_either sessions id for_worker event ≡ (sessions, to_manager id event ∷ [])
    unfolding send_either
    send_either_open for_worker event = rw not_worker (send_manager_open event)

    module _ (not_client : Map.get sessions.clients id ≡ none) where
      cluster_state_open :
          (state : WireClusterState)
          → (rest : List Sent) × (sessions' : Sessions) × (handle_output_cluster_state sessions id
                state
              ≡ (sessions', to_manager id (ManagerEvent.cluster_state state) ∷ rest))
      unfolding handle_output_cluster_state send_cluster_state
      cluster_state_open state =
          let sent : send_cluster_state sessions id state
              ≡ (sessions, to_manager id (ManagerEvent.cluster_state state) ∷ []) =
            rw (not_client, send_cluster_state)
              (send_either_open (WorkerEvent.cluster_state state)
                (ManagerEvent.cluster_state state)) in
          rw (sent, handle_output_cluster_state) (_, _, refl)

receive_cluster_state :
    (uuid : Uuid)
    → ((id : NodeId) → uuid.parse_str (uuid.to_text id) ≡ some id)
    → (me : Me) (id : NodeId) (s : ClusterState) → HasPartitionIds s.partitions
    → receive_from_manager uuid me id (ManagerEvent.cluster_state (cluster_state_to_grpc uuid s))
      ≡ message (cluster_state me.id s)
unfolding receive_from_manager or_panic cluster_state_to_grpc
receive_cluster_state uuid law me id s ids =
    ap (λ o. or_panic (map_option (cluster_state me.id) o)) (cluster_state_lem uuid law s ids)

-- A message from one manager to another arrives over an open connection: the sender's output writes
-- an event to the recipient's session, and the recipient's input reads from it the message, with the
-- sender in the recipient's place, if the recipient is known as a manager and neither as a worker
-- nor as a client, if the partition ids of the message are `u16`s, and if UUIDs are parsed as they
-- are printed.
pub manager_to_manager :
    (uuid : Uuid) (sender receiver : Me) (config : Config) (sessions : Sessions)
    {msg msg' : ManagerProtocol}
    → ((id : NodeId) → uuid.parse_str (uuid.to_text id) ≡ some id)
    → Map.get sessions.managers receiver.id ≡ some false
    → Map.contains_key sessions.workers receiver.id ≡ false
    → Map.get sessions.clients receiver.id ≡ none
    → Arrives sender receiver msg msg'
    → Delivers uuid sender receiver config sessions msg msg'
unfolding output handle_output_leader handle_output_vote_response handle_output_vote_request
    handle_output_get_cluster_state handle_output_heartbeat
    handle_output_remove_partition_from_replica receive_from_manager or_panic
manager_to_manager uuid sender receiver config sessions law o w c (heartbeat_arrives beat) = (
  _,
  [],
  sessions,
  ap some (send_either_open sessions receiver.id o w _ _),
  rw (law beat.id) refl,
)
manager_to_manager uuid sender receiver config sessions law o w c get_cluster_state_arrives =
    (_, [], sessions, ap some (send_manager_open sessions receiver.id o _), refl)
manager_to_manager uuid sender receiver config sessions law o w c (cluster_state_arrives s ids) =
    let (rest, sessions', sent) =
      cluster_state_open sessions receiver.id o w c (cluster_state_to_grpc uuid s) in
    (_, rest, sessions', ap some sent, receive_cluster_state uuid law receiver sender.id s ids)
manager_to_manager uuid sender receiver config sessions law o w c (vote_request_arrives epoch ts) =
    (_, [], sessions, ap some (send_manager_open sessions receiver.id o _), refl)
manager_to_manager uuid sender receiver config sessions law o w c
      (vote_response_arrives leader_id ts) =
    (_, [], sessions, ap some (send_manager_open sessions receiver.id o _), rw (law leader_id) refl)
manager_to_manager uuid sender receiver config sessions law o w c (leader_arrives epoch ts) = (
  _,
  [],
  sessions,
  ap some (send_either_open sessions receiver.id o w _ _),
  rw (law sender.id) refl,
)
manager_to_manager uuid sender receiver config sessions law o w c
      (remove_partition_arrives replica_id partition_id below) =
    let same : partition_id % 2 ^ 16 ≡ partition_id = ground (arith, below) in
    (
      _,
      [],
      sessions,
      ap some (send_either_open sessions receiver.id o w _ _),
      rw (law replica_id, same) refl,
    )
