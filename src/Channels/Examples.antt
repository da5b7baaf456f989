-- ===== src/Channels/Examples.antt =====
-- Runs of the connections' theorems between the nodes 1 and 2, with UUIDs whose text is their number.
use rust_accelerator_no_sql.Map
use rust_accelerator_no_sql.Map.Entries
use rust_accelerator_no_sql.Prelude.{
  refl, refl, refl, refl, refl, refl, refl, refl, refl, refl, refl, refl, refl, refl, refl, refl,
  refl, refl, refl, refl, refl, refl, refl, refl, refl, refl, refl, refl, refl, refl, refl, refl,
  refl, refl, refl, refl, refl, refl, refl, refl, true, arith, Bool, false, ◌≡◌, refl, inl, [], ◌∷◌,
  none, some,
}
use rust_accelerator_no_sql.Conversions.{Uuid}
use rust_accelerator_no_sql.Conversions.RoundTrip.{HasPartitionIds}
use rust_accelerator_no_sql.Common.{
  manager_host_port, ClusterState, Me, worker, Config, manager_config, worker_config,
}
use rust_accelerator_no_sql.Store
use rust_accelerator_no_sql.Manager
use rust_accelerator_no_sql.Manager.Grpc.{Sessions}
use rust_accelerator_no_sql.Manager.Grpc.Delivery
use rust_accelerator_no_sql.Manager.Grpc.ToWorkers
use rust_accelerator_no_sql.Worker
use rust_accelerator_no_sql.Worker.Grpc
use rust_accelerator_no_sql.Worker.Grpc.Connections as OfWorker
use rust_accelerator_no_sql.Manager.Grpc.Connections as OfManager
use rust_accelerator_no_sql.Manager.Grpc.Handshake
use rust_accelerator_no_sql.Wire.{WorkerEvent}
use rust_accelerator_no_sql.Worker.Grpc.Delivery as SyncDelivery
use rust_accelerator_no_sql.Worker.Grpc.LeaderMessages.{leader_messages_ignored, IsOwnEvent}
use rust_accelerator_no_sql.Worker.Grpc.Announcements.{from_manager, IsMember}
use rust_accelerator_no_sql.Worker.Service.{
  run, message, ticked, WorkerService, TickInput, own_node, get_init_messages, process, tick,
}

abbrev numbered : Uuid
numbered = record { to_text = λ id. id; parse_str = λ t. some t }

abbrev sender : Me
sender = record { id = 1; host = ""; port = 9001 }

abbrev receiver : Me
receiver = record { id = 2; host = ""; port = 9002 }

abbrev state : ClusterState
state = record {
  epoch = 4;
  leader_id = 1;
  nodes = (record { id = 2; host = ""; port = 9002; last_heartbeat = 5; node_type = worker }) ∷ [];
  partitions = record {
    mapping = Map.insert Map.empty 7 (record { master = 2; replicas = Map.empty });
    old_replicas = Map.empty;
    new_replicas = Map.empty;
  };
}

state_ids : HasPartitionIds state.partitions
unfolding Map.insert Map.empty Entries.insert
state_ids = ((omega arith, tt), (tt, tt))

abbrev config : Config
config = manager_config 9001 ("", 9001) none 3

abbrev to_a_manager : Sessions
to_a_manager = record {
  managers = Map.insert Map.empty 2 false;
  workers = Map.empty;
  clients = Map.empty;
}

abbrev to_a_worker : Sessions
to_a_worker = record {
  managers = Map.empty;
  workers = Map.insert Map.empty 2 false;
  clients = Map.empty;
}

session_open : Map.get (Map.insert Map.empty 2 false) 2 ≡ some false
unfolding Map.get Map.insert Map.empty Entries.lookup Entries.insert
session_open = refl

no_session : Map.get (Map.empty {V = Bool}) 2 ≡ none
unfolding Map.get Map.empty Entries.lookup
no_session = refl

no_worker : Map.contains_key (Map.empty {V = Bool}) 2 ≡ false
unfolding Map.contains_key Map.get Map.empty Entries.lookup
no_worker = refl

manager_to_manager_example :
    Delivery.Delivers numbered sender receiver config to_a_manager
      (Manager.cluster_state 2 state)
      (Manager.cluster_state 2 state)
manager_to_manager_example =
    Delivery.manager_to_manager numbered sender receiver config to_a_manager (λ id. refl)
      session_open no_worker no_session (Delivery.cluster_state_arrives state state_ids)

manager_to_worker_example :
    ToWorkers.Delivers numbered sender receiver config to_a_worker
      (Manager.cluster_state 2 state)
      (Worker.cluster_state state)
manager_to_worker_example =
    ToWorkers.manager_to_worker numbered sender receiver config to_a_worker (λ id. refl)
      session_open no_session (ToWorkers.cluster_state_arrives state state_ids)

abbrev between_workers : Grpc.Sessions
between_workers = record { managers = Map.empty; workers = Map.insert Map.empty 2 false }

abbrev batch : Worker.SyncBatchRequest
batch = record {
  sender_id = 1;
  records =
      (record { key = 7; value = 5 ∷ []; ttl = 0; creation_time_ms = 100; deleted = false }) ∷ [];
}

worker_to_worker_example :
    SyncDelivery.DeliversSync numbered sender receiver between_workers
      (Worker.sync_batch 2 batch)
      (Worker.sync_batch 2 batch)
worker_to_worker_example =
    SyncDelivery.worker_to_worker numbered sender receiver between_workers session_open
      (SyncDelivery.batch_arrives batch)

abbrev service : WorkerService
service = record {
  me = receiver;
  state = none;
  config = worker_config 9002 ("", 9002) ("", 9001) 300;
  runtime_store = Store.new;
}

abbrev started : WorkerService
started = record service { state = some (Worker.new (own_node receiver 5)) }

service_starts :
    get_init_messages service 5 ≡ some (started, Worker.new_connection none "" 9001 true ∷ [])
unfolding get_init_messages manager_host_port
service_starts = refl

abbrev clock : TickInput
clock = record {
  heartbeat_now = 8;
  sync_clock = λ partition_id id. record { checked = 8; stamped = 8 };
}

announced :
    IsMember
      (Worker.new_connection (some 1) "" 9001 false)
      (Grpc.input_from_manager numbered 1 "" 9001 []).0
unfolding Grpc.input_from_manager
announced = inl refl

-- The manager 1 has connected and becomes the leader.
leader_messages_ignored_example :
    process
      (run started
        (ticked clock ∷ message (Worker.new_connection (some 1) "" 9001 false) 7 clock ∷ []))
      (Worker.leader 1 4 8)
      8
      clock
    ≡ tick
        (run started
          (ticked clock ∷ message (Worker.new_connection (some 1) "" 9001 false) 7 clock ∷ []))
        clock
unfolding IsOwnEvent
leader_messages_ignored_example =
    leader_messages_ignored numbered service started 5
      (Worker.new_connection none "" 9001 true ∷ [])
      (ticked clock ∷ message (Worker.new_connection (some 1) "" 9001 false) 7 clock ∷ []) 1 4 8 8
      clock refl service_starts
      (tt, (from_manager 1 "" 9001 [] (Worker.new_connection (some 1) "" 9001 false) announced, tt))

handshake_example :
    (answer : WorkerEvent) × Handshake.ManagerServes numbered receiver
      (WorkerEvent.get_cluster_state ∷ [])
      (OfManager.open_worker_connection numbered sender config to_a_manager
        (OfWorker.introduction numbered receiver)
        (WorkerEvent.get_cluster_state ∷ []))
      answer
    × Handshake.WorkerFollows numbered sender "" 9001 []
        (OfWorker.start_communication_with_manager numbered between_workers "" 9001 answer [])
handshake_example =
    Handshake.handshake numbered receiver sender config to_a_manager between_workers "" 9001
      (WorkerEvent.get_cluster_state ∷ []) [] (λ id. refl)
