-- ===== src/Client/Session.antt =====
-- crates/no-sql-store-client/src/lib.rs: how a client finds the cluster, and the connections that it
-- keeps to workers and managers. What the network does is an argument; an endpoint is the number of
-- its normalized text.
pub mod Bootstrap
pub mod Links
pub mod Tasks
mod Examples
use rust_accelerator_no_sql.Map
use rust_accelerator_no_sql.Map.{Map}
use rust_accelerator_no_sql.Map.Set.{Set, add}
use rust_accelerator_no_sql.Prelude.{
  ◌==◌, ◌++◌, if◌then◌else◌, none, some, List, Option, ℕ, refl, zero, suc, ◌∷◌, [],
}
use rust_accelerator_no_sql.Wire.{node_type_manager, node_type_worker, Text, Addr, WireClusterState}
use rust_accelerator_no_sql.Client.{
  Error, no_manager_address, manager_unavailable, unknown_worker, worker_request, Result, ok, err,
  ClientNode, Topology, default_topology, apply_state,
}

-- What comes of a subscription at a manager: it fails, or the first message does not come, is an
-- error or the stream's end, or it comes, with a state or without.
pub data Subscription : Type 0 where
  not_subscribed : Subscription
  initial_state_timeout : Subscription
  stream_failed : Subscription
  stream_closed : Subscription
  first_event : (cluster_state : Option WireClusterState) → Subscription

pub record Network : Type 0 where
  pub endpoint : Addr → Text
  pub subscribe : Text → Subscription
  pub dial : Text → Option ℕ

-- `Inner`: a worker's connection is a number.
pub record Inner : Type 0 where
  pub state : Topology
  pub workers : Map ℕ
  pub managers : Set

unfoldable pub initial_state : Subscription → Option WireClusterState
initial_state (first_event state) = state
initial_state _ = none

-- The loop over the addresses, which ends at the first state.
unfoldable pub bootstrap : (Text → Subscription) → List Text → Option (Text × WireClusterState)
bootstrap subscribe [] = none
bootstrap subscribe (address ∷ rest) =
    let later = bootstrap subscribe rest in
    elim (initial_state (subscribe address)) [ none ↦ later | some state ↦ some (address, state) ]

-- A task is spawned unless the endpoint has a stream or is about to have one: the endpoint comes with
-- it.
unfoldable pub ensure_manager : Inner → Text → Inner × List Text
ensure_manager inner endpoint =
    if Map.contains_key inner.managers endpoint
    then (inner, [])
    else (record inner { managers = add inner.managers endpoint }, endpoint ∷ [])

unfoldable pub forget_manager : Inner → Text → Inner
forget_manager inner endpoint = record inner { managers = Map.remove inner.managers endpoint }

-- The task: it opens a stream, whose endpoint comes with the client, or it gives up the endpoint if
-- the subscription fails.
unfoldable pub manager_task : (Text → Subscription) → Inner → Text → Inner × List Text
manager_task subscribe inner endpoint = elim (subscribe endpoint) [
  | not_subscribed ↦ (forget_manager inner endpoint, [])
  | initial_state_timeout ↦ (inner, endpoint ∷ [])
  | stream_failed ↦ (inner, endpoint ∷ [])
  | stream_closed ↦ (inner, endpoint ∷ [])
  | first_event _ ↦ (inner, endpoint ∷ [])
]

-- The tasks of these endpoints, in this order.
unfoldable pub manager_tasks : (Text → Subscription) → Inner → List Text → Inner × List Text
manager_tasks subscribe inner [] = (inner, [])
manager_tasks subscribe inner (endpoint ∷ rest) =
    let ended = manager_task subscribe inner endpoint in
    let later = manager_tasks subscribe ended.0 rest in (later.0, ended.1 ++ later.1)

unfoldable pub ensure_worker : (Text → Option ℕ) → Inner → ℕ → Text → Inner
ensure_worker dial inner id endpoint =
    if Map.contains_key inner.workers id then inner else elim (dial endpoint) [
      | none ↦ inner
      | some connection ↦ record inner { workers = Map.insert inner.workers id connection }
    ]

unfoldable pub ensure_node : Network → Inner → ℕ → ClientNode → Inner × List Text
ensure_node net inner id node =
    if node.node_type == node_type_worker
    then (ensure_worker net.dial inner id (net.endpoint node.endpoint), [])
    else if node.node_type == node_type_manager
    then ensure_manager inner (net.endpoint node.endpoint)
    else (inner, [])

unfoldable pub ensure_nodes : Network → Inner → List (ℕ × ClientNode) → Inner × List Text
ensure_nodes net inner [] = (inner, [])
ensure_nodes net inner ((id, node) ∷ rest) =
    let ensured = ensure_node net inner id node in
    let later = ensure_nodes net ensured.0 rest in (later.0, ensured.1 ++ later.1)

-- The endpoints whose tasks are spawned come with the client.
unfoldable pub ensure_connections : Network → Inner → Inner × List Text
ensure_connections net inner = ensure_nodes net inner inner.state.nodes.entries

-- An event of a manager's stream.
unfoldable pub on_event : Network → Inner → Option WireClusterState → Inner × List Text
on_event net inner none = (inner, [])
on_event net inner (some state) =
    ensure_connections net (record inner { state = apply_state inner.state state })

unfoldable pub connect_with_config : Network → List Text → Result (Inner × List Text)
connect_with_config net [] = err no_manager_address
connect_with_config net (first ∷ rest) = elim (bootstrap net.subscribe (first ∷ rest)) [
  | none ↦ err manager_unavailable
  | some (address, state) ↦ ok (
      on_event net
        (record { state = default_topology; workers = Map.empty; managers = add Map.empty address })
        (some state))
]

-- The connection that is kept, or a new one.
unfoldable pub worker : Network → Inner → Text → Inner × Result ℕ
worker net inner node_id = elim (Map.get inner.workers node_id) [
  | some connection ↦ (inner, ok connection)
  | none ↦ elim (Map.get inner.state.nodes node_id) [
    | none ↦ (inner, err (unknown_worker node_id))
    | some node ↦ elim (net.dial (net.endpoint node.endpoint)) [
      | none ↦ (inner, err (worker_request node_id))
      | some connection ↦
          (record inner { workers = Map.insert inner.workers node_id connection }, ok connection)
    ]
  ]
]
