-- ===== src/Common.antt =====
-- crates/no-sql-store/src/common.rs: the cluster's data, shared by managers and workers.
-- A `NodeId` holds a UUID in its canonical text, which compares as the 128-bit number does; it is
-- modelled as that number. A host is a text.
use rust_accelerator_no_sql.Prelude.{
  ℕ, String, Bool, true, false, Option, none, some, List, [], ◌∷◌, ◌&&◌, ◌==◌,
}
use rust_accelerator_no_sql.Map
use rust_accelerator_no_sql.Map.{Map}
use rust_accelerator_no_sql.Map.Set.{Set, set_eq}

abbrev pub NodeId : Type 0
NodeId = ℕ

-- A `u16`.
abbrev pub PartitionId : Type 0
PartitionId = ℕ

abbrev pub partitions_amount : ℕ
partitions_amount = 4096

pub data NodeType : Type 0 where
  manager worker : NodeType

pub record Node : Type 0 where
  pub host : String
  pub port : ℕ
  pub last_heartbeat : ℕ
  pub node_type : NodeType

abbrev is_manager_type : NodeType → Bool
is_manager_type manager = true
is_manager_type worker = false

abbrev pub is_manager : Node → Bool
is_manager n = is_manager_type n.node_type

abbrev is_worker_type : NodeType → Bool
is_worker_type manager = false
is_worker_type worker = true

abbrev pub is_worker : Node → Bool
is_worker n = is_worker_type n.node_type

pub record Partition : Type 0 where
  pub master : NodeId
  pub replicas : Set

pub record Partitions : Type 0 where
  pub mapping : Map Partition
  pub old_replicas : Map Set
  pub new_replicas : Map Set

unfoldable pub default_partitions : Partitions
unfolding Map.empty
default_partitions = record {
  mapping = Map.empty;
  old_replicas = Map.empty;
  new_replicas = Map.empty;
}

-- `==` of the two types, derived in the source.
unfoldable pub partition_eq : Partition → Partition → Bool
unfolding set_eq
partition_eq p q = p.master == q.master && set_eq p.replicas q.replicas

module _ {ℓ} {V : Type ℓ} (eq : V → V → Bool) where
  unfoldable pub entries_eq : List (ℕ × V) → List (ℕ × V) → Bool
  entries_eq [] [] = true
  entries_eq [] (y ∷ ys) = false
  entries_eq (x ∷ xs) [] = false
  entries_eq ((j, v) ∷ xs) ((k, w) ∷ ys) = (j == k && eq v w) && entries_eq xs ys

unfoldable pub partitions_eq : Partitions → Partitions → Bool
unfolding entries_eq partition_eq set_eq
partitions_eq p q =
    entries_eq partition_eq p.mapping.entries q.mapping.entries
    && (entries_eq set_eq p.old_replicas.entries q.old_replicas.entries
        && entries_eq set_eq p.new_replicas.entries q.new_replicas.entries)

pub record Heartbeat : Type 0 where
  pub id : NodeId
  pub ts : ℕ

pub record ClusterNode : Type 0 where
  pub id : NodeId
  pub host : String
  pub port : ℕ
  pub last_heartbeat : ℕ
  pub node_type : NodeType

pub record ClusterState : Type 0 where
  pub epoch : ℕ
  pub leader_id : NodeId
  pub nodes : List ClusterNode
  pub partitions : Partitions

pub record Me : Type 0 where
  pub id : NodeId
  pub host : String
  pub port : ℕ

pub data Config : Type 0 where
  manager_config :
      (grpc_port : ℕ) (self_host_port : String × ℕ) (manager_host_port : Option (String × ℕ))
      (replication_factor : ℕ)
      → Config
  worker_config :
      (grpc_port : ℕ) (self_host_port : String × ℕ) (manager_host_port : String × ℕ)
      (expired_cleanup_interval_secs : ℕ)
      → Config

-- `Me::new`, with the id that it draws.
unfoldable pub new_me : NodeId → String → ℕ → Me
new_me id host port = record { id = id; host = host; port = port }

unfoldable pub self_host_port : Config → String × ℕ
self_host_port (manager_config port self m factor) = self
self_host_port (worker_config port self m interval) = self

-- `none` stands for the `unreachable!` of a manager's configuration.
unfoldable pub expired_cleanup_interval_secs : Config → Option ℕ
expired_cleanup_interval_secs (manager_config port self m factor) = none
expired_cleanup_interval_secs (worker_config port self m interval) = some interval

unfoldable pub manager_host_port : Config → Option (String × ℕ)
manager_host_port (manager_config port self m factor) = m
manager_host_port (worker_config port self m interval) = some m

-- `none` stands for the `unreachable!` of a worker's configuration.
unfoldable pub replication_factor : Config → Option ℕ
replication_factor (manager_config port self m factor) = some factor
replication_factor (worker_config port self m interval) = none

-- `replication_factor_mut` and an assignment to it; `none` is the `unreachable!` of a worker's
-- configuration.
unfoldable pub set_replication_factor : Config → ℕ → Option Config
set_replication_factor (manager_config port self m factor) new_factor =
    some (manager_config port self m new_factor)
set_replication_factor (worker_config port self m interval) new_factor = none
