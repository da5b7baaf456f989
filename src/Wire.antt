-- ===== src/Wire.antt =====
-- The messages between the programs, as the files of crates/no-sql-store-proto/proto declare them.
-- The text of an id is compared and converted only, and is modelled as a number, the empty text as
-- 0. A `oneof` is a data type, and what a message may leave out is an option.
use rust_accelerator_no_sql.Prelude.{ℕ, String, Bool, Option, List}
use rust_accelerator_no_sql.Map.{Map}

abbrev pub Text : Type 0
Text = ℕ

-- The package `common.v1`.
pub record Addr : Type 0 where
  pub host : String
  pub port : ℕ

pub record WirePartition : Type 0 where
  pub master : Text
  pub replicas : List Text

pub record Replicas : Type 0 where
  pub replicas : List Text

pub record WirePartitions : Type 0 where
  pub mapping : Map WirePartition
  pub new_replicas : Map Replicas
  pub old_replicas : Map Replicas

-- `node_type` is the 32 bits of an `i32`: the values of the enumeration, or others.
pub record WireNode : Type 0 where
  pub id : Text
  pub addr : Option Addr
  pub last_heartbeat : ℕ
  pub node_type : ℕ

pub record WireClusterState : Type 0 where
  pub epoch : ℕ
  pub leader_id : Text
  pub nodes : List WireNode
  pub partitions : Option WirePartitions

abbrev pub node_type_manager : ℕ
node_type_manager = 0

abbrev pub node_type_worker : ℕ
node_type_worker = 1

-- The package `manager_api.v1`.
pub data ManagerEvent : Type 0 where
  connect : (id : Text) (addr : Option Addr) (replication_factor : Option ℕ) → ManagerEvent
  connect_response : (id : Text) → ManagerEvent
  heartbeat : (id : Text) (ts : ℕ) → ManagerEvent
  get_cluster_state : ManagerEvent
  cluster_state : (state : WireClusterState) → ManagerEvent
  vote_request : (epoch ts : ℕ) → ManagerEvent
  vote_response : (leader_id : Text) (ts : ℕ) → ManagerEvent
  leader : (id : Text) (epoch ts : ℕ) → ManagerEvent
  remove_partition_from_replica : (replica_id : Text) (partition_id : ℕ) → ManagerEvent

pub data WorkerEvent : Type 0 where
  connect : (id : Text) (addr : Option Addr) (replication_factor : Option ℕ) → WorkerEvent
  connect_response : (id : Text) → WorkerEvent
  heartbeat : (id : Text) (ts : ℕ) → WorkerEvent
  get_cluster_state : WorkerEvent
  cluster_state : (state : WireClusterState) → WorkerEvent
  manager_leader : (id : Text) (epoch ts : ℕ) → WorkerEvent
  remove_partition_from_replica : (replica_id : Text) (partition_id : ℕ) → WorkerEvent

-- The package `worker_api.v1`.
pub record WireRecord : Type 0 where
  pub key : ℕ
  pub value : List ℕ
  pub ttl : ℕ
  pub creation_time : ℕ
  pub deleted : Bool

pub data SyncEvent : Type 0 where
  connect : (id : Text) (addr : Option Addr) → SyncEvent
  connect_response : (id : Text) → SyncEvent
  sync_batch_request : (records : List WireRecord) → SyncEvent
  sync_batch_response : (partition_id_to_max_applied_key : Map ℕ) → SyncEvent

abbrev pub request_type_get : ℕ
request_type_get = 0

abbrev pub request_type_put : ℕ
request_type_put = 1

abbrev pub request_type_delete : ℕ
request_type_delete = 2

pub record ClientRequest : Type 0 where
  pub id : ℕ
  pub request_type : ℕ
  pub key : ℕ
  pub creation_time : Option ℕ
  pub value : Option (List ℕ)
  pub ttl : Option ℕ

pub record WorkerResponse : Type 0 where
  pub request_id : ℕ
  pub record_ : Option WireRecord
  pub deletion_time : Option ℕ
