-- ===== src/Worker/Grpc/Connections.antt =====
-- crates/no-sql-store/src/worker/grpc.rs and worker/grpc/manager_connection.rs: the connections that a
-- worker accepts from workers, and the one that it opens to a manager. The events of a connection are
-- given as a list, its first event apart.
use rust_accelerator_no_sql.Map
use rust_accelerator_no_sql.Prelude.{
  String, ℕ, Bool, true, false, List, [], ◌∷◌, ◌++◌, Option, none, some,
}
use rust_accelerator_no_sql.Common.{NodeId, Me}
use rust_accelerator_no_sql.Worker.{WorkerProtocol, node_disconnected}
use rust_accelerator_no_sql.Worker.Grpc.{
  Sent, Sessions, to_worker, input_from_worker, input_from_manager,
}
use rust_accelerator_no_sql.Wire.{Addr, SyncEvent, WorkerEvent}
use rust_accelerator_no_sql.Conversions.{Uuid}
use rust_accelerator_no_sql.Map.{Map}

-- A connection that is served: the sessions while it is, its answer if it is the other's, the messages
-- for the service with whether it panics, and the sessions when it has ended.
pub record Served : Type 0 where
  pub sessions : Sessions
  pub answer : Option Sent
  pub inbox : List WorkerProtocol × Bool
  pub left : Sessions

pub data Connection : Type 0 where
  refused panicked : Connection
  served : Served → Connection

-- When a connection ends its session is removed, unless its task has panicked.
unfoldable pub close_session : NodeId → Map Bool → Bool → Map Bool
close_session id sessions true = sessions
close_session id sessions false = Map.remove sessions id

-- The end of a connection is reported after that, unless its task has panicked.
unfoldable pub closing : NodeId → List WorkerProtocol × Bool → List WorkerProtocol × Bool
closing id (messages, true) = (messages, true)
closing id (messages, false) = (messages ++ (node_disconnected id ∷ []), false)

unfoldable pub serve_worker :
    Uuid → Me → Sessions → Option NodeId → Addr → List SyncEvent → Connection
serve_worker uuid me sessions none addr events = panicked
serve_worker uuid me sessions (some id) addr events = served (record {
  sessions = record sessions { workers = Map.insert sessions.workers id false };
  answer = some (to_worker id (SyncEvent.connect_response (uuid.to_text me.id)));
  inbox = closing id (input_from_worker me id addr.host addr.port events);
  left = record sessions {
    workers =
        close_session id (Map.insert sessions.workers id false)
          (input_from_worker me id addr.host addr.port events).1;
  };
})

unfoldable pub open_worker_connection :
    Uuid → Me → Sessions → SyncEvent → List SyncEvent → Connection
open_worker_connection uuid me sessions (SyncEvent.connect text (some addr)) events =
    serve_worker uuid me sessions (uuid.parse_str text) addr events
open_worker_connection uuid me sessions _ events = refused

-- The event by which a worker introduces itself to a manager.
unfoldable pub introduction : Uuid → Me → WorkerEvent
introduction uuid me =
    WorkerEvent.connect (uuid.to_text me.id) (some (record { host = me.host; port = me.port })) none

unfoldable pub follow_manager :
    Uuid → Sessions → String → ℕ → Option NodeId → List WorkerEvent → Connection
follow_manager uuid sessions host port none events = panicked
follow_manager uuid sessions host port (some id) events = served (record {
  sessions = record sessions { managers = Map.insert sessions.managers id false };
  answer = none;
  inbox = closing id (input_from_manager uuid id host port events);
  left = record sessions {
    managers =
        close_session id (Map.insert sessions.managers id false)
          (input_from_manager uuid id host port events).1;
  };
})

-- What follows the introduction, from the manager's first event on.
unfoldable pub start_communication_with_manager :
    Uuid → Sessions → String → ℕ → WorkerEvent → List WorkerEvent → Connection
start_communication_with_manager uuid sessions host port (WorkerEvent.connect_response text)
      events =
    follow_manager uuid sessions host port (uuid.parse_str text) events
start_communication_with_manager uuid sessions host port _ events = refused

-- The same between two workers, worker/grpc/worker_connection.rs.
unfoldable pub worker_introduction : Uuid → Me → SyncEvent
worker_introduction uuid me =
    SyncEvent.connect (uuid.to_text me.id) (some (record { host = me.host; port = me.port }))

unfoldable pub follow_worker :
    Me → Sessions → String → ℕ → Option NodeId → List SyncEvent → Connection
follow_worker me sessions host port none events = panicked
follow_worker me sessions host port (some id) events = served (record {
  sessions = record sessions { workers = Map.insert sessions.workers id false };
  answer = none;
  inbox = closing id (input_from_worker me id host port events);
  left = record sessions {
    workers =
        close_session id (Map.insert sessions.workers id false)
          (input_from_worker me id host port events).1;
  };
})

unfoldable pub start_communication_with_worker :
    Uuid → Me → Sessions → String → ℕ → SyncEvent → List SyncEvent → Connection
start_communication_with_worker uuid me sessions host port (SyncEvent.connect_response text)
      events =
    follow_worker me sessions host port (uuid.parse_str text) events
start_communication_with_worker uuid me sessions host port _ events = refused
