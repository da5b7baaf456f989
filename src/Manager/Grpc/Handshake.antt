-- ===== src/Manager/Grpc/Handshake.antt =====
-- The introduction of a worker to a manager, on both sides.
use rust_accelerator_no_sql.Map
use rust_accelerator_no_sql.Prelude.{
  refl, refl, refl, refl, refl, refl, refl, refl, refl, refl, refl, refl, refl, refl, refl, refl,
  refl, refl, refl, refl, refl, refl, refl, refl, refl, refl, refl, refl, refl, refl, refl, refl,
  refl, refl, refl, refl, refl, refl, none, refl, if◌then◌else◌, refl, append_nil, Option, ◌++◌, [],
  ap, ==_refl, ◌∙◌, true, some, false, ◌≡◌, Bool, String, refl, ℕ, List, ◌∷◌,
}
use rust_accelerator_no_sql.Manager
use rust_accelerator_no_sql.Manager.Grpc
use rust_accelerator_no_sql.Manager.Grpc.Connections as OfManager
use rust_accelerator_no_sql.Worker
use rust_accelerator_no_sql.Worker.Grpc as WorkerGrpc
use rust_accelerator_no_sql.Worker.Grpc.{receive_from_manager, input_from_manager}
use rust_accelerator_no_sql.Manager.Grpc.{receive_from_worker, input_from_worker, to_worker}
use rust_accelerator_no_sql.Wire.{WorkerEvent}
use rust_accelerator_no_sql.Worker.Grpc.Connections as OfWorker
use rust_accelerator_no_sql.Common.{Config, NodeId, Me}
use rust_accelerator_no_sql.Map.{Map}
use rust_accelerator_no_sql.Conversions.{Uuid}
use rust_accelerator_no_sql.Manager.{ManagerProtocol}
use rust_accelerator_no_sql.Worker.{WorkerProtocol}
use rust_accelerator_no_sql.Channels.{receive_all}

-- What a task that has received these messages hands over: the last one says that the node has left,
-- unless the task has panicked.
abbrev pub ended {ℓ} : {P : Type ℓ} → P → List P × Bool → List P
ended last received = received.0 ++ (if received.1 then [] else last ∷ [])

-- The session of a node when its connection has ended: none, unless the task has panicked.
abbrev pub session_left : Bool → Option Bool
session_left panics = if panics then some false else none

-- The manager serves the connection: it has an open session of the worker while the worker's events
-- come, its answer goes to the worker, its service is told of the worker first, then gets what the
-- events say, and at last that the worker has left.
abbrev pub ManagerServes :
    Uuid → Me → List WorkerEvent → OfManager.Connection → WorkerEvent → Type 0
ManagerServes uuid worker events connection answer =
    (s : OfManager.Served) × (connection ≡ OfManager.served s)
    × (Map.get s.sessions.workers worker.id ≡ some false)
    × (s.answer ≡ some (to_worker worker.id answer))
    × (s.inbox ≡ (
      Manager.new_connection (some worker.id) worker.host worker.port false
          ∷ ended (Manager.node_disconnected worker.id)
              (receive_all (receive_from_worker uuid worker.id) events),
      (receive_all (receive_from_worker uuid worker.id) events).1,
    ))
    × (Map.get s.left.workers worker.id
        ≡ session_left (receive_all (receive_from_worker uuid worker.id) events).1)

-- The worker goes on: it has an open session of the manager while the manager's events come, its
-- service is told of the manager first, as of a worker, then gets what the events say, and at last
-- that the manager has left.
abbrev pub WorkerFollows : Uuid → Me → String → ℕ → List WorkerEvent → OfWorker.Connection → Type 0
WorkerFollows uuid leader host port events connection =
    (s : OfWorker.Served) × (connection ≡ OfWorker.served s)
    × (Map.get s.sessions.managers leader.id ≡ some false)
    × (s.inbox ≡ (
      Worker.new_connection (some leader.id) host port false
          ∷ ended (Worker.node_disconnected leader.id)
              (receive_all (receive_from_manager uuid leader.id) events),
      (receive_all (receive_from_manager uuid leader.id) events).1,
    ))
    × (Map.get s.left.managers leader.id
        ≡ session_left (receive_all (receive_from_manager uuid leader.id) events).1)

just_inserted :
    (sessions : Map Bool) (id : NodeId) → Map.get (Map.insert sessions id false) id ≡ some false
just_inserted sessions id = Map.get-insert sessions id id false ∙ rw (==_refl id) refl

manager-closing :
    (id : NodeId) (first : ManagerProtocol) (received : List ManagerProtocol × Bool)
    → OfManager.closing id (first ∷ received.0, received.1)
      ≡ (first ∷ ended (Manager.node_disconnected id) received, received.1)
unfolding OfManager.closing
manager-closing id first (messages, true) = rw (append_nil messages) refl
manager-closing id first (messages, false) = refl

worker-closing :
    (id : NodeId) (first : WorkerProtocol) (received : List WorkerProtocol × Bool)
    → OfWorker.closing id (first ∷ received.0, received.1)
      ≡ (first ∷ ended (Worker.node_disconnected id) received, received.1)
unfolding OfWorker.closing
worker-closing id first (messages, true) = rw (append_nil messages) refl
worker-closing id first (messages, false) = refl

manager-close_session :
    (id : NodeId) (sessions : Map Bool) (panics : Bool)
    → Map.get (OfManager.close_session id (Map.insert sessions id false) panics) id
      ≡ session_left panics
unfolding OfManager.close_session
manager-close_session id sessions true = just_inserted sessions id
manager-close_session id sessions false =
    Map.get-remove (Map.insert sessions id false) id id ∙ rw (==_refl id) refl

worker-close_session :
    (id : NodeId) (sessions : Map Bool) (panics : Bool)
    → Map.get (OfWorker.close_session id (Map.insert sessions id false) panics) id
      ≡ session_left panics
unfolding OfWorker.close_session
worker-close_session id sessions true = just_inserted sessions id
worker-close_session id sessions false =
    Map.get-remove (Map.insert sessions id false) id id ∙ rw (==_refl id) refl

-- A worker that introduces itself to a manager, and reads the manager's answer first, is connected, if
-- UUIDs are parsed as they are printed: each of the two has an open session of the other under the
-- other's id until the other's events end, whatever they are, and then none, or the same if its task
-- has panicked. The manager's service is told of a worker, and so is the worker's of the manager;
-- then it gets what the events say, and last, without a panic, that the other has left.
pub handshake :
    (uuid : Uuid) (worker leader : Me) (config : Config) (sessions : Grpc.Sessions)
    (own : WorkerGrpc.Sessions) (host : String) (port : ℕ)
    (from_worker from_leader : List WorkerEvent)
    → ((id : NodeId) → uuid.parse_str (uuid.to_text id) ≡ some id)
    → (answer : WorkerEvent) × ManagerServes uuid worker from_worker
        (OfManager.open_worker_connection uuid leader config sessions
          (OfWorker.introduction uuid worker)
          from_worker)
        answer
      × WorkerFollows uuid leader host port from_leader
          (OfWorker.start_communication_with_manager uuid own host port answer from_leader)
unfolding OfManager.open_worker_connection OfManager.serve_worker OfWorker.introduction
    OfWorker.start_communication_with_manager OfWorker.follow_manager input_from_worker
    input_from_manager
handshake uuid worker leader config sessions own host port from_worker from_leader law =
    let received = receive_all (receive_from_worker uuid worker.id) from_worker in
    let followed = receive_all (receive_from_manager uuid leader.id) from_leader in
    (
      WorkerEvent.connect_response (uuid.to_text leader.id),
      (
        _,
        ap
            (λ o.
              OfManager.serve_worker uuid leader config sessions o
                (record { host = worker.host; port = worker.port }) from_worker)
            (law worker.id),
        just_inserted sessions.workers worker.id,
        refl,
        manager-closing worker.id
            (Manager.new_connection (some worker.id) worker.host worker.port false) received,
        manager-close_session worker.id sessions.workers received.1,
      ),
      (
        _,
        ap (λ o. OfWorker.follow_manager uuid own host port o from_leader) (law leader.id),
        just_inserted own.managers leader.id,
        worker-closing leader.id (Worker.new_connection (some leader.id) host port false) followed,
        worker-close_session leader.id own.managers followed.1,
      ),
    )
