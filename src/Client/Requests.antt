-- ===== src/Client/Requests.antt =====
-- The requests of a client, crates/no-sql-store-client/src/lib.rs: retries, the write to every owner
-- and the read, against the stores of the workers. What the network does to each attempt, the clock
-- of the worker and the shared counter of request ids are arguments.
pub mod Retries
pub mod Agreement
pub mod Reads
pub mod ReadYourWrites
pub mod Liveness
pub mod Failures
use rust_accelerator_no_sql.Map
use rust_accelerator_no_sql.Map.{Map}
use rust_accelerator_no_sql.Prelude.{
  ℕ, zero, suc, ◌+◌, ◌==◌, max, Bool, Option, none, some, List, [], ◌∷◌, if◌then◌else◌, map,
}
use rust_accelerator_no_sql.Store.{RuntimeStore}
use rust_accelerator_no_sql.Worker.Requests.{handle_request}
use rust_accelerator_no_sql.Wire.{
  Text, ClientRequest, WireRecord, request_type_get, request_type_put, request_type_delete,
}
use rust_accelerator_no_sql.Client.{
  Result, ok, err, ◌>>=◌, worker_request, Topology, decode, read_targets, write_targets, visible,
  read_fallback, request, expiration_time,
}

-- An attempt does not reach the worker, or it does and its response is lost, or it is answered.
pub data Attempt : Type 0 where
  refused unanswered answered : Attempt

pub record Env : Type 0 where
  pub attempt : ℕ → Attempt
  pub now : ℕ → ℕ
  pub request_id : ℕ → ℕ

abbrev pub Reply : Type 0
Reply = Result (Option WireRecord)

-- `for attempt in i..i + count`.
unfoldable pub request_attempts :
    ℕ → ℕ → Env → Text → RuntimeStore → ClientRequest → RuntimeStore × Reply
request_attempts zero i env node_id store req = (store, err (worker_request node_id))
request_attempts (suc count) i env node_id store req =
    let handled = handle_request store (record req { id = env.request_id i }) (env.now i) in
    elim (env.attempt i) [
      | refused ↦ request_attempts count (suc i) env node_id store req
      | unanswered ↦ request_attempts count (suc i) env node_id handled.0 req
      | answered ↦ (handled.0, ok (decode handled.1))
    ]

unfoldable pub request_with_retry :
    ℕ → Env → Text → RuntimeStore → ClientRequest → RuntimeStore × Reply
request_with_retry retry_attempts env node_id store req =
    request_attempts (max retry_attempts 1) 0 env node_id store req

-- The workers' stores by the text of the node's id.
abbrev pub Stores : Type 0
Stores = Text → RuntimeStore

unfoldable pub with_store : Stores → Text → RuntimeStore → Stores
with_store stores node_id store = λ j. if node_id == j then store else stores j

-- One request to each of the nodes; `join_all` waits for all of them, whatever they reply.
unfoldable pub request_each :
    List Text → ℕ → (Text → Env) → Stores → ClientRequest → Stores × List Reply
request_each [] retry_attempts envs stores req = (stores, [])
request_each (node_id ∷ ids) retry_attempts envs stores req =
    let (store, reply) =
      request_with_retry retry_attempts (envs node_id) node_id (stores node_id) req in
    let (stores', replies) =
      request_each ids retry_attempts envs (with_store stores node_id store) req in
    (stores', reply ∷ replies)

-- `for result in results { result?; }`.
unfoldable pub first_error : List Reply → Result (Unit {0})
first_error [] = ok tt
first_error (ok r ∷ replies) = first_error replies
first_error (err e ∷ replies) = err e

unfoldable pub write_all :
    Topology → ℕ → (Text → Env) → Stores → ClientRequest → Stores × Result (Unit {0})
write_all topology retry_attempts envs stores req = elim (write_targets topology req.key) [
  | err e ↦ (stores, err e)
  | ok targets ↦ (
    (request_each (Map.keys targets) retry_attempts envs stores req).0,
    first_error (request_each (Map.keys targets) retry_attempts envs stores req).1,
  )
]

unfoldable pub put :
    Topology → ℕ → (Text → Env) → Stores → ℕ → List ℕ → ℕ → Option ℕ → Stores × Result (Unit {0})
put topology retry_attempts envs stores key value creation_time ttl =
    elim (expiration_time creation_time ttl) [
      | err e ↦ (stores, err e)
      | ok expiration ↦
          write_all topology retry_attempts envs stores
            (request request_type_put key (some value) (some creation_time) expiration)
    ]

unfoldable pub delete : Topology → ℕ → (Text → Env) → Stores → ℕ → ℕ → Stores × Result (Unit {0})
delete topology retry_attempts envs stores key deletion_time =
    write_all topology retry_attempts envs stores
      (request request_type_delete key none (some deletion_time) none)

abbrev get_request : ℕ → ClientRequest
get_request key = request request_type_get key none none none

-- The fallback nodes are asked if the master has no record of the key.
unfoldable pub get_fallback :
    List Text → ℕ → (Text → Env) → Stores → ℕ → Stores × Result (Option (List ℕ))
get_fallback [] retry_attempts envs stores key = (stores, ok none)
get_fallback (node_id ∷ ids) retry_attempts envs stores key = (
  (request_each (node_id ∷ ids) retry_attempts envs stores (get_request key)).0,
  read_fallback (request_each (node_id ∷ ids) retry_attempts envs stores (get_request key)).1,
)

unfoldable pub get_from :
    Text → List Text → ℕ → (Text → Env) → Stores → ℕ → Stores × Result (Option (List ℕ))
get_from primary fallback retry_attempts envs stores key =
    let asked =
      request_with_retry retry_attempts (envs primary) primary (stores primary) (get_request key) in
    let stores' = with_store stores primary asked.0 in
    elim asked.1 [
      | err e ↦ (stores', err e)
      | ok reply ↦ elim reply [
        | some r ↦ (stores', ok (visible r))
        | none ↦ get_fallback fallback retry_attempts envs stores' key
      ]
    ]

unfoldable pub get : Topology → ℕ → (Text → Env) → Stores → ℕ → Stores × Result (Option (List ℕ))
get topology retry_attempts envs stores key = elim (read_targets topology key) [
  | err e ↦ (stores, err e)
  | ok (primary, fallback) ↦ get_from primary (Map.keys fallback) retry_attempts envs stores key
]
