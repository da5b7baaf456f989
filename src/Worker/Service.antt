-- ===== src/Worker/Service.antt =====
-- crates/no-sql-store/src/worker/service.rs: the steps of the worker's event loop. The runtime store
-- is shared with the connections of clients; here it is part of the service.
use rust_accelerator_no_sql.Map
use rust_accelerator_no_sql.Worker.Membership.{heartbeats}
use rust_accelerator_no_sql.Prelude.{◌++◌, ◌∷◌, [], List, some, none, Option, true, ℕ}
use rust_accelerator_no_sql.Common.{
  partitions_amount, worker, Node, manager_host_port, NodeId, Config, PartitionId, Me,
}
use rust_accelerator_no_sql.Worker.{
  new, sync_batch_response, sync_batch, remove_partition_from_replica, leader, node_disconnected,
  cluster_state, get_cluster_state, heartbeat, new_connection, State, WorkerProtocol,
}
use rust_accelerator_no_sql.Store.{RuntimeStore}
use rust_accelerator_no_sql.Map.{Map}
use rust_accelerator_no_sql.Worker.Sync.{handle_sync_batch_response, Readings}
use rust_accelerator_no_sql.Worker.Pass.{sync_partitions}
use rust_accelerator_no_sql.Worker.Membership.{
  handle_remove_old_partition, handle_leader, handle_node_disconnected, handle_cluster_state,
  handle_heartbeat, handle_new_connection,
}
use rust_accelerator_no_sql.Worker.Batch.{handle_sync_batch}

pub record WorkerService : Type 0 where
  pub me : Me
  pub state : Option State
  pub config : Config
  pub runtime_store : RuntimeStore

-- What one tick reads of the clock.
pub record TickInput : Type 0 where
  pub heartbeat_now : ℕ
  pub sync_clock : PartitionId → NodeId → Readings

unfoldable pub own_node : Me → ℕ → Map Node
own_node me now =
    Map.insert Map.empty me.id
      (record { host = me.host; port = me.port; last_heartbeat = now; node_type = worker })

-- `none` is the panic of a worker without the address of a manager.
unfoldable pub get_init_messages : WorkerService → ℕ → Option (WorkerService × List WorkerProtocol)
get_init_messages service now = elim service.state [
  | some _ ↦ some (service, [])
  | none ↦ elim (manager_host_port service.config) [
    | none ↦ none
    | some (host, port) ↦ some (
      record service { state = some (new (own_node service.me now)) },
      new_connection none host port true ∷ [],
    )
  ]
]

unfoldable pub tick : WorkerService → TickInput → WorkerService × List WorkerProtocol
tick service t = elim service.state [
  | none ↦ (service, [])
  | some state ↦
      let (beating, beats) = heartbeats state service.me t.heartbeat_now in
      let (state', store, output) =
        sync_partitions partitions_amount beating service.runtime_store service.me t.sync_clock in
      (record service { state = some state'; runtime_store = store }, beats ++ output)
]

abbrev pub keeping :
    RuntimeStore → State × List WorkerProtocol → State × RuntimeStore × List WorkerProtocol
keeping store (state, output) = (state, store, output)

unfoldable pub dispatch :
    State → RuntimeStore → Me → WorkerProtocol → ℕ → State × RuntimeStore × List WorkerProtocol
dispatch state store me (new_connection id host port is_manager) now =
    keeping store (handle_new_connection state id host port is_manager now)
dispatch state store me (heartbeat id beat) now =
    keeping store (handle_heartbeat state beat.id beat.ts me)
dispatch state store me (get_cluster_state id) now = (state, store, [])
dispatch state store me (cluster_state s) now =
    keeping store (handle_cluster_state state s.epoch s.leader_id s.nodes s.partitions me now)
dispatch state store me (node_disconnected id) now = (handle_node_disconnected state id, store, [])
dispatch state store me (leader id epoch ts) now =
    keeping store (handle_leader state id epoch ts me)
dispatch state store me (remove_partition_from_replica id replica_id partition_id) now =
    (state, store, handle_remove_old_partition state replica_id me)
dispatch state store me (sync_batch recipient_id request) now =
    (state, (handle_sync_batch store request).0, (handle_sync_batch store request).1)
dispatch state store me (sync_batch_response recipient_id max_applied_keys) now =
    (handle_sync_batch_response state max_applied_keys recipient_id, store, [])

unfoldable pub process :
    WorkerService → WorkerProtocol → ℕ → TickInput → WorkerService × List WorkerProtocol
process service msg now t = elim service.state [
  | none ↦ tick service t
  | some state ↦
      let (state', store, output) = dispatch state service.runtime_store service.me msg now in
      let (service', ticked) =
        tick (record service { state = some state'; runtime_store = store }) t in
      (service', output ++ ticked)
]

-- What wakes the loop: a message, or the ticker.
pub data Event : Type 0 where
  message : (msg : WorkerProtocol) (now : ℕ) (t : TickInput) → Event
  ticked : (t : TickInput) → Event

unfoldable pub step : WorkerService → Event → WorkerService × List WorkerProtocol
unfolding process tick
step service (message msg now t) = process service msg now t
step service (ticked t) = tick service t

-- The loop over a sequence of events; the messages go to the connections and are dropped here.
unfoldable pub run : WorkerService → List Event → WorkerService
unfolding step
run service [] = service
run service (event ∷ events) = run (step service event).0 events
