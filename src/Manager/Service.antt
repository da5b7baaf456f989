-- ===== src/Manager/Service.antt =====
-- crates/no-sql-store/src/manager/service.rs: the event loop's steps. `none` is a panic. The clock
-- and the random numbers are arguments; one for each place of the code that reads them.
pub mod Panics
pub mod LateVote
use rust_accelerator_no_sql.Map
use rust_accelerator_no_sql.Prelude.{
  String, ◌++◌, inr, inl, ◌⊎◌, arith, refl, if◌then◌else◌, ◌∷◌, [], List, some, none, Option, false,
  true, Bool, ◌≡◌, ℕ,
}
use rust_accelerator_no_sql.Common.{
  set_replication_factor, manager_host_port, replication_factor, manager, Node, NodeType, Config,
  Me,
}
use rust_accelerator_no_sql.Map.{Map}
use rust_accelerator_no_sql.Manager.{
  node_disconnected, leader, vote_response, vote_request, cluster_state, get_cluster_state,
  heartbeat, new_connection, new, remove_partition_from_replica, State, ManagerProtocol,
}
use rust_accelerator_no_sql.Manager.Heartbeats.{handle_heartbeat, heartbeats}
use rust_accelerator_no_sql.Manager.Election.{
  handle_leader, handle_vote_response, handle_vote_request, Outcome, start_election_if_needed,
  Elections,
}
use rust_accelerator_no_sql.Manager.Assignment.{worker_partitions}
use rust_accelerator_no_sql.Manager.Cluster.{
  handle_cluster_state, handle_get_cluster_state, handle_remove_old_partition,
}
use rust_accelerator_no_sql.Manager.Connection.{handle_node_disconnected, handle_new_connection}

pub record ManagerService : Type 0 where
  pub me : Me
  pub state : Option State
  pub elections : Elections
  pub config : Config

unfoldable pub start : Me → Config → ManagerService
start me config = record { me = me; state = none; elections = Map.empty; config = config }

-- What one tick reads of the clock and of the random numbers.
pub record TickInput : Type 0 where
  pub heartbeat_now : ℕ
  pub leader_timeout : ℕ
  pub election_now : ℕ
  pub election_timeout : ℕ

unfoldable pub own_node : Me → NodeType → ℕ → Map Node
own_node me node_type now =
    Map.insert Map.empty me.id
      (record { host = me.host; port = me.port; last_heartbeat = now; node_type = node_type })

-- A manager that is pointed at another one connects to it; the first manager starts at epoch 0.
unfoldable pub init_state : Map Node → Option (String × ℕ) → State × List ManagerProtocol
init_state nodes none = (new nodes (some 0), [])
init_state nodes (some (host, port)) = (new nodes none, new_connection none host port true ∷ [])

unfoldable pub get_init_messages : ManagerService → ℕ → ManagerService × List ManagerProtocol
unfolding init_state own_node
get_init_messages service now = elim service.state [
  | some _ ↦ (service, [])
  | none ↦
      let (state, output) =
        init_state (own_node service.me manager now) (manager_host_port service.config) in
      (record service { state = some state }, output)
]

unfoldable pub tick_state : State → Elections → Me → ℕ → TickInput → Option Outcome
unfolding heartbeats start_election_if_needed
tick_state state elections me factor t =
    let (beating, beats) = heartbeats state me t.heartbeat_now t.leader_timeout in
    let (electing, elections', votes) =
      start_election_if_needed beating elections me t.election_timeout t.election_now in
    elim (worker_partitions electing me factor) [
      | none ↦ none
      | some (assigned, updates) ↦ some (assigned, elections', beats ++ (votes ++ updates))
    ]

unfoldable pub tick : ManagerService → TickInput → Option (ManagerService × List ManagerProtocol)
unfolding tick_state
tick service t = elim service.state [
  | none ↦ some (service, [])
  | some state ↦ elim (replication_factor service.config) [
    | none ↦ none
    | some factor ↦ elim (tick_state state service.elections service.me factor t) [
      | none ↦ none
      | some (state', elections, output) ↦
          some (record service { state = some state'; elections = elections }, output)
    ]
  ]
]

-- A handler that does not touch the elections.
abbrev pub keeping : Elections → State × List ManagerProtocol → Outcome
keeping elections (state, output) = (state, elections, output)

unfoldable pub dispatch : State → Elections → Me → ManagerProtocol → ℕ → Outcome
dispatch state elections me (remove_partition_from_replica id replica_id partition_id) now =
    keeping elections (handle_remove_old_partition state id replica_id partition_id me)
dispatch state elections me (new_connection id host port is_manager) now =
    keeping elections (handle_new_connection state id host port me is_manager now)
dispatch state elections me (heartbeat id beat) now =
    keeping elections (handle_heartbeat state beat.id beat.ts me)
dispatch state elections me (get_cluster_state id) now =
    (state, elections, handle_get_cluster_state state id)
dispatch state elections me (cluster_state recipient_id s) now =
    keeping elections (handle_cluster_state state s.epoch s.leader_id s.nodes s.partitions me)
dispatch state elections me (vote_request id epoch ts) now =
    handle_vote_request state id epoch ts elections
dispatch state elections me (vote_response id leader_id ts) now =
    handle_vote_response state id leader_id ts me elections
dispatch state elections me (leader id epoch ts) now = handle_leader state id epoch ts me elections
dispatch state elections me (node_disconnected id) now =
    (handle_node_disconnected state id, elections, [])

unfoldable pub process :
    ManagerService
    → ManagerProtocol
    → ℕ
    → TickInput
    → Option (ManagerService × List ManagerProtocol)
unfolding dispatch tick
process service msg now t = elim service.state [
  | none ↦ tick service t
  | some state ↦
      let (state', elections, output) = dispatch state service.elections service.me msg now in
      elim (tick (record service { state = some state'; elections = elections }) t) [
        | none ↦ none
        | some (service', ticked) ↦ some (service', output ++ ticked)
      ]
]

-- What wakes the loop: a message, or the ticker. Between the two the gRPC layer, which shares the
-- configuration, sets its replication factor when another manager connects.
pub data Event : Type 0 where
  message : (msg : ManagerProtocol) (now : ℕ) (t : TickInput) → Event
  ticked : (t : TickInput) → Event
  replication_factor_set : (factor : ℕ) → Event

-- The gRPC layer's assignment; `none` is the `unreachable!` of a worker's configuration.
unfoldable pub with_replication_factor :
    ManagerService → ℕ → Option (ManagerService × List ManagerProtocol)
with_replication_factor service factor = elim (set_replication_factor service.config factor) [
  | none ↦ none
  | some config ↦ some (record service { config = config }, [])
]

unfoldable pub step : ManagerService → Event → Option (ManagerService × List ManagerProtocol)
unfolding process tick with_replication_factor
step service (message msg now t) = process service msg now t
step service (ticked t) = tick service t
step service (replication_factor_set factor) = with_replication_factor service factor

-- The loop over a sequence of events; the messages go to the connections and are dropped here.
unfoldable pub run : ManagerService → List Event → Option ManagerService
unfolding step
run service [] = some service
run service (event ∷ events) = elim (step service event) [
  | none ↦ none
  | some (service', _) ↦ run service' events
]
