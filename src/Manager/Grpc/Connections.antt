-- ===== src/Manager/Grpc/Connections.antt =====
-- crates/no-sql-store/src/manager/grpc.rs and manager/grpc/manager_connection.rs: the connections of
-- clients, managers and workers that a manager accepts, and those that it opens itself. The
-- events of a connection are given as a list, its first event apart.
use rust_accelerator_no_sql.Map
use rust_accelerator_no_sql.Prelude.{
  ◌%◌, ◌^◌, ℕ, String, Bool, true, false, List, [], ◌∷◌, ◌++◌, Option, none, some,
}
use rust_accelerator_no_sql.Common.{set_replication_factor, NodeId, Me, Config}
use rust_accelerator_no_sql.Manager.{ManagerProtocol, get_cluster_state, node_disconnected}
use rust_accelerator_no_sql.Manager.Grpc.{
  Sent, Sessions, to_manager, to_worker, input_from_manager, input_from_worker,
}
use rust_accelerator_no_sql.Wire.{Addr, Text, ManagerEvent, WorkerEvent}
use rust_accelerator_no_sql.Conversions.{Uuid, ◌>>=◌}
use rust_accelerator_no_sql.Map.{Map}

-- `none` is the panic on an id that is no UUID. The service is asked for the cluster's state.
unfoldable pub open_client_connection : Uuid → Sessions → Text → Option (Sessions × ManagerProtocol)
open_client_connection uuid sessions text = do
  id ← uuid.parse_str text
  some (record sessions { clients = Map.insert sessions.clients id false }, get_cluster_state id)

-- A connection that is served: the sessions while it is, its answer if it is the other's, the messages
-- for the service with whether it panics, and the sessions when it has ended.
pub record Served : Type 0 where
  pub config : Config
  pub sessions : Sessions
  pub answer : Option Sent
  pub inbox : List ManagerProtocol × Bool
  pub left : Sessions

-- A panic leaves the configuration as it is then.
pub data Connection : Type 0 where
  refused : Connection
  panicked : Config → Connection
  served : Served → Connection

-- When a connection ends its session is removed, unless its task has panicked.
unfoldable pub close_session : NodeId → Map Bool → Bool → Map Bool
close_session id sessions true = sessions
close_session id sessions false = Map.remove sessions id

-- The end of a connection is reported after that, unless its task has panicked.
unfoldable pub closing : NodeId → List ManagerProtocol × Bool → List ManagerProtocol × Bool
closing id (messages, true) = (messages, true)
closing id (messages, false) = (messages ++ (node_disconnected id ∷ []), false)

-- A manager that connects sets the replication factor of the one that it connects to.
unfoldable pub serve_manager :
    Uuid → Me → Config → Sessions → Option NodeId → Addr → List ManagerEvent → Connection
serve_manager uuid me config sessions none addr events = panicked config
serve_manager uuid me config sessions (some id) addr events = served (record {
  config = config;
  sessions = record sessions { managers = Map.insert sessions.managers id false };
  answer = some (to_manager id (ManagerEvent.connect_response (uuid.to_text me.id)));
  inbox = closing id (input_from_manager uuid me id addr.host addr.port events);
  left = record sessions {
    managers =
        close_session id (Map.insert sessions.managers id false)
          (input_from_manager uuid me id addr.host addr.port events).1;
  };
})

unfoldable pub open_connection :
    Uuid → Me → Config → Sessions → ManagerEvent → List ManagerEvent → Connection
open_connection uuid me config sessions (ManagerEvent.connect text (some addr) (some factor))
      events =
    elim (set_replication_factor config factor) [
      | none ↦ panicked config
      | some config' ↦ serve_manager uuid me config' sessions (uuid.parse_str text) addr events
    ]
open_connection uuid me config sessions _ events = refused

unfoldable pub serve_worker :
    Uuid → Me → Config → Sessions → Option NodeId → Addr → List WorkerEvent → Connection
serve_worker uuid me config sessions none addr events = panicked config
serve_worker uuid me config sessions (some id) addr events = served (record {
  config = config;
  sessions = record sessions { workers = Map.insert sessions.workers id false };
  answer = some (to_worker id (WorkerEvent.connect_response (uuid.to_text me.id)));
  inbox = closing id (input_from_worker uuid id addr.host addr.port events);
  left = record sessions {
    workers =
        close_session id (Map.insert sessions.workers id false)
          (input_from_worker uuid id addr.host addr.port events).1;
  };
})

unfoldable pub open_worker_connection :
    Uuid → Me → Config → Sessions → WorkerEvent → List WorkerEvent → Connection
open_worker_connection uuid me config sessions (WorkerEvent.connect text (some addr) factor)
      events =
    serve_worker uuid me config sessions (uuid.parse_str text) addr events
open_worker_connection uuid me config sessions _ events = refused

-- The event by which a manager introduces itself to another, with its replication factor as a `u32`.
unfoldable pub introduction : Uuid → Me → ℕ → ManagerEvent
introduction uuid me factor =
    ManagerEvent.connect (uuid.to_text me.id) (some (record { host = me.host; port = me.port }))
      (some (factor % 2 ^ 32))

unfoldable pub follow_manager :
    Uuid → Me → Config → Sessions → String → ℕ → Option NodeId → List ManagerEvent → Connection
follow_manager uuid me config sessions host port none events = panicked config
follow_manager uuid me config sessions host port (some id) events = served (record {
  config = config;
  sessions = record sessions { managers = Map.insert sessions.managers id false };
  answer = none;
  inbox = closing id (input_from_manager uuid me id host port events);
  left = record sessions {
    managers =
        close_session id (Map.insert sessions.managers id false)
          (input_from_manager uuid me id host port events).1;
  };
})

-- What follows the introduction, from the other manager's first event on.
unfoldable pub start_communication_with_manager :
    Uuid → Me → Config → Sessions → String → ℕ → ManagerEvent → List ManagerEvent → Connection
start_communication_with_manager uuid me config sessions host port
      (ManagerEvent.connect_response text) events =
    follow_manager uuid me config sessions host port (uuid.parse_str text) events
start_communication_with_manager uuid me config sessions host port _ events = refused
