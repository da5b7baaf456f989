-- ===== src/Client/Session/Examples.antt =====
-- A client that connects by its second address to a manager that knows one worker, and its
-- connection to a worker.
use rust_accelerator_no_sql.Map
use rust_accelerator_no_sql.Prelude.{
  ◌&&◌, ◌||◌, ◌==◌, All, List, ◌≡◌, ◌+◌, if◌then◌else◌, ℕ, ◌∷◌, [], some, none, true,
}
use rust_accelerator_no_sql.Wire.{
  Text, Addr, WireNode, WireClusterState, WorkerResponse, node_type_worker, node_type_manager,
}
use rust_accelerator_no_sql.Client.{default_topology, apply_state}
use rust_accelerator_no_sql.Client.Connection.{
  connected, Event, call, inbound, response, end_of_stream, broken, run, on_inbound,
}
use rust_accelerator_no_sql.Client.Connection.Delivery.{answers, waits, calls, answers-run}
use rust_accelerator_no_sql.Client.Connection.Replies.{IsOwn, run-IsOwn}
use rust_accelerator_no_sql.Client.Session.{
  Network, Inner, Subscription, not_subscribed, first_event, connect_with_config,
}
use rust_accelerator_no_sql.Client.Session.Bootstrap.{
  IsConnection, connect_with_config-IsConnection,
}
use rust_accelerator_no_sql.Client.Session.Links.{first_of, dialled, any_manager_at, opened}
use rust_accelerator_no_sql.Client.Session.Tasks.{ensure_connections_lem, subscribes, settled}

abbrev address : ℕ → Addr
address port = record { host = "host"; port = port }

abbrev node : Text → ℕ → ℕ → WireNode
node id port node_type = record {
  id = id;
  addr = some (address port);
  last_heartbeat = 0;
  node_type = node_type;
}

abbrev cluster : WireClusterState
cluster = record {
  epoch = 3;
  leader_id = 9;
  nodes = node 1 81 node_type_worker ∷ node 9 82 node_type_manager ∷ [];
  partitions = none;
}

abbrev subscribe_at : Text → Subscription
subscribe_at endpoint = if endpoint == 82 then first_event (some cluster) else not_subscribed

abbrev net : Network
net = record {
  endpoint = λ a. a.port;
  subscribe = subscribe_at;
  dial = λ endpoint. some (endpoint + 100);
}

connect_with_config-IsConnection_example :
    IsConnection net (80 ∷ 82 ∷ 83 ∷ []) (connect_with_config net (80 ∷ 82 ∷ 83 ∷ []))
connect_with_config-IsConnection_example = connect_with_config-IsConnection net (80 ∷ 82 ∷ 83 ∷ [])

-- A client that knows the cluster and has no connections yet.
abbrev informed : Inner
informed = record {
  state = apply_state default_topology cluster;
  workers = Map.empty;
  managers = Map.empty;
}

ensure_connections_lem_example :
    ((settled net informed).0.state ≡ informed.state)
    × (Map.get (settled net informed).0.workers 1
        ≡ first_of (Map.get informed.workers 1) (dialled net (Map.get informed.state.nodes 1)))
    × (Map.contains_key (settled net informed).0.managers 82 ≡ (
        Map.contains_key informed.managers 82
        || (any_manager_at net 82 informed.state.nodes.entries && subscribes (net.subscribe 82))))
    × (opened 82 (settled net informed).1 + (if Map.contains_key informed.managers 82 then 1 else 0)
        ≡ (if Map.contains_key (settled net informed).0.managers 82 then 1 else 0))
ensure_connections_lem_example = ensure_connections_lem net informed 1 82

-- Two requests, answered in the other order, and a third that waits when the stream ends.
abbrev answer : ℕ → ℕ → WorkerResponse
answer id time = record { request_id = id; record_ = none; deletion_time = some time }

abbrev exchange : List Event
exchange =
    call 1 10 true
    ∷ call 2 20 true
    ∷ inbound (response (answer 2 7))
    ∷ call 3 30 true
    ∷ inbound (response (answer 1 8))
    ∷ []

answers-run_example :
    (answers 30 (run connected exchange).1 + waits 30 (run connected exchange).0.pending.entries
      ≡ calls 30 exchange)
    × (answers 30 (run connected exchange).1
          + answers 30 (on_inbound (run connected exchange).0 end_of_stream).1
        ≡ calls 30 exchange)
    × (answers 30 (run connected exchange).1
          + answers 30 (on_inbound (run connected exchange).0 (broken 5)).1
        ≡ calls 30 exchange)
answers-run_example = answers-run exchange 30 5

run-IsOwn_example : All (IsOwn exchange) (run connected exchange).1
run-IsOwn_example = run-IsOwn exchange
