-- ===== src/Client.antt =====
-- crates/no-sql-store-client/src/lib.rs and connection.rs: the client's view of the cluster, the nodes
-- that it reads and writes, and its requests. The text of a node's id is a number, as in `Wire`.
pub mod Requests
pub mod Connection
pub mod Session
pub mod Keys
pub mod States
pub mod Examples
use rust_accelerator_no_sql.Map
use rust_accelerator_no_sql.Map.{Map}
use rust_accelerator_no_sql.Map.Set.{Set, add, extend, from_list}
use rust_accelerator_no_sql.Prelude.{
  ℕ, ◌+◌, ◌%◌, ◌^◌, Bool, true, false, not, ◌&&◌, ◌||◌, Option, none, some, List, [], ◌∷◌, ◌==◌,
  ltb, if◌then◌else◌, u64_mod,
}
use rust_accelerator_no_sql.Wire.{
  Text, Addr, WirePartition, Replicas, WireNode, WireClusterState, WireRecord, WorkerResponse,
  ClientRequest, request_type_get, request_type_put, request_type_delete,
}

pub data Error : Type 0 where
  no_manager_address manager_unavailable timeout invalid_system_time ttl_overflow : Error
  partition_unavailable : (partition_id : ℕ) → Error
  unknown_worker : (node_id : Text) → Error
  worker_request : (node_id : Text) → Error

pub data Result {ℓ} (A : Type ℓ) : Type ℓ where
  ok : A → Result A
  err : Error → Result A

infixl 5 ◌>>=◌
abbrev pub ◌>>=◌ {ℓ κ} : {A : Type ℓ} {B : Type κ} → Result A → (A → Result B) → Result B
ok a >>= f = f a
err e >>= f = err e

-- The endpoint is kept as the address that its text is made of.
pub record ClientNode : Type 0 where
  pub endpoint : Addr
  pub node_type : ℕ

pub record Topology : Type 0 where
  pub epoch : ℕ
  pub leader_id : Text
  pub nodes : Map ClientNode
  pub mapping : Map WirePartition
  pub old_replicas : Map Replicas
  pub new_replicas : Map Replicas

unfoldable pub default_topology : Topology
default_topology = record {
  epoch = 0;
  leader_id = 0;
  nodes = Map.empty;
  mapping = Map.empty;
  old_replicas = Map.empty;
  new_replicas = Map.empty;
}

-- The test for a state that is not taken up.
unfoldable pub is_stale : Topology → WireClusterState → Bool
is_stale topology state =
    ltb state.epoch topology.epoch
    || (state.epoch == topology.epoch
        && (not (topology.leader_id == 0) && not (state.leader_id == topology.leader_id)))

-- A node without an address is left out; of two nodes with one id the later one stays.
unfoldable pub collect_nodes : Map ClientNode → List WireNode → Map ClientNode
collect_nodes nodes [] = nodes
collect_nodes nodes (node ∷ rest) =
    collect_nodes
      (elim node.addr [
        | none ↦ nodes
        | some address ↦
            Map.insert nodes node.id (record { endpoint = address; node_type = node.node_type })
      ])
      rest

unfoldable pub apply_nodes : Topology → List WireNode → Topology
apply_nodes topology [] = topology
apply_nodes topology (node ∷ rest) = record topology {
  nodes = collect_nodes Map.empty (node ∷ rest);
}

unfoldable pub apply_state : Topology → WireClusterState → Topology
apply_state topology state =
    if is_stale topology state
    then topology
    else let applied =
        apply_nodes (record topology { epoch = state.epoch; leader_id = state.leader_id })
          state.nodes in
      elim state.partitions [
        | none ↦ applied
        | some partitions ↦ record applied {
          mapping = partitions.mapping;
          old_replicas = partitions.old_replicas;
          new_replicas = partitions.new_replicas;
        }
      ]

unfoldable pub partition : ℕ → ℕ
partition key = key % 4096 % 2 ^ 32

unfoldable pub replicas_of : Option Replicas → List Text
replicas_of none = []
replicas_of (some r) = r.replicas

unfoldable pub mapping_of : Topology → ℕ → Result WirePartition
mapping_of topology partition_id = elim (Map.get topology.mapping partition_id) [
  | none ↦ err (partition_unavailable partition_id)
  | some current ↦ ok current
]

-- The master, and the nodes that are read if the master has no record.
unfoldable pub read_targets : Topology → ℕ → Result (Text × Set)
read_targets topology key = do
  current ← mapping_of topology (partition key)
  let fallback =
      extend
        (extend (from_list current.replicas)
          (replicas_of (Map.get topology.old_replicas (partition key))))
        (replicas_of (Map.get topology.new_replicas (partition key)))
  ok (current.master, Map.remove fallback current.master)

-- The targets of `write_all`.
unfoldable pub write_targets : Topology → ℕ → Result Set
write_targets topology key = do
  mapping ← mapping_of topology (partition key)
  ok (add (from_list mapping.replicas) mapping.master)

unfoldable pub request : ℕ → ℕ → Option (List ℕ) → Option ℕ → Option ℕ → ClientRequest
request request_type key value creation_time ttl = record {
  id = 0;
  request_type = request_type;
  key = key;
  creation_time = creation_time;
  value = value;
  ttl = ttl;
}

-- The expiration time of a put, from a TTL in milliseconds: both `try_from` and `checked_add` fail
-- above 64 bits.
unfoldable pub expiration_time : ℕ → Option ℕ → Result (Option ℕ)
expiration_time creation_time none = ok none
expiration_time creation_time (some ttl) =
    if ltb ttl u64_mod && ltb (creation_time + ttl) u64_mod
    then ok (some (creation_time + ttl))
    else err ttl_overflow

-- What a connection makes of a response: a deletion is a record that is marked so.
unfoldable pub decode : WorkerResponse → Option WireRecord
decode response = elim response.record_ [
  | some r ↦ some r
  | none ↦ elim response.deletion_time [
    | none ↦ none
    | some deletion_time ↦
        some
          (record { key = 0; value = []; ttl = 0; creation_time = deletion_time; deleted = true })
  ]
]

-- `(!record.deleted).then_some(record.value)`.
unfoldable pub visible : WireRecord → Option (List ℕ)
visible r = if r.deleted then none else some r.value

-- The newest of the records that the fallback nodes answer: the first one, among equals.
unfoldable pub keep_newest : Option WireRecord → Option WireRecord → Option WireRecord
keep_newest newest none = newest
keep_newest none (some r) = some r
keep_newest (some current) (some r) =
    if ltb current.creation_time r.creation_time then some r else some current

-- The loop over the responses: the newest record, whether one succeeded, and the last error.
pub record Answers : Type 0 where
  pub newest : Option WireRecord
  pub successful : Bool
  pub last_error : Option Error

unfoldable pub note_response : Answers → Result (Option WireRecord) → Answers
note_response a (ok r) = record a { newest = keep_newest a.newest r; successful = true }
note_response a (err e) = record a { last_error = some e }

unfoldable pub note_responses : Answers → List (Result (Option WireRecord)) → Answers
note_responses a [] = a
note_responses a (response ∷ rest) = note_responses (note_response a response) rest

unfoldable pub conclude : Answers → Result (Option (List ℕ))
conclude a =
    if a.successful
    then ok (elim a.newest [ none ↦ none | some r ↦ visible r ])
    else err (elim a.last_error [ none ↦ timeout | some e ↦ e ])

unfoldable pub read_fallback : List (Result (Option WireRecord)) → Result (Option (List ℕ))
read_fallback responses =
    conclude
      (note_responses (record { newest = none; successful = false; last_error = none }) responses)
