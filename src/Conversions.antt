-- ===== src/Conversions.antt =====
-- crates/no-sql-store/src/conversions.rs, and the conversions of a cluster's state in the four files
-- manager/grpc/{input,output}.rs and worker/grpc/{input,output}.rs. Printing and parsing a UUID is the
-- crate `uuid`'s, a parameter; `none` is the panic of `NodeId::from_string` on any other text.
pub mod RoundTrip
use rust_accelerator_no_sql.Map
use rust_accelerator_no_sql.Map.{Map}
use rust_accelerator_no_sql.Map.Set.{Set, from_list}
use rust_accelerator_no_sql.Map.Extensionality.{collect}
use rust_accelerator_no_sql.Prelude.{
  ℕ, List, [], ◌∷◌, Option, none, some, map, ◌==◌, if◌then◌else◌, ◌%◌, ◌^◌,
}
use rust_accelerator_no_sql.Common
use rust_accelerator_no_sql.Common.{
  NodeId, NodeType, manager, worker, Partition, Partitions, ClusterNode, ClusterState,
}
use rust_accelerator_no_sql.Wire.{
  Text, Addr, WirePartition, Replicas, WirePartitions, WireNode, WireClusterState,
  node_type_manager, node_type_worker,
}

pub record Uuid : Type 0 where
  pub to_text : NodeId → Text
  pub parse_str : Text → Option NodeId

infixl 5 ◌>>=◌
abbrev pub ◌>>=◌ {ℓ κ} : {A : Type ℓ} {B : Type κ} → Option A → (A → Option B) → Option B
none >>= f = none
some a >>= f = f a

-- An iterator whose `map` may panic.
unfoldable pub traverse {ℓ κ} :
    {A : Type ℓ} {B : Type κ} → (A → Option B) → List A → Option (List B)
traverse f [] = some []
traverse f (a ∷ rest) = do b ← f a; bs ← traverse f rest; some (b ∷ bs)

unfoldable pub grpc_node_type_to_domain : ℕ → NodeType
grpc_node_type_to_domain node_type = if node_type == node_type_worker then worker else manager

unfoldable pub domain_node_type_to_grpc : NodeType → ℕ
domain_node_type_to_grpc manager = node_type_manager
domain_node_type_to_grpc worker = node_type_worker

module _ (uuid : Uuid) where
  unfoldable pub replicas_to_domain : List Text → Option Set
  replicas_to_domain replicas = do ids ← traverse uuid.parse_str replicas; some (from_list ids)

  unfoldable pub partition_to_domain : ℕ × WirePartition → Option (ℕ × Partition)
  partition_to_domain (partition_id, partition) = do
    master ← uuid.parse_str partition.master
    replicas ← replicas_to_domain partition.replicas
    some (partition_id % 2 ^ 16, record { master = master; replicas = replicas })

  unfoldable pub grpc_partition_mapping_to_domain : Map WirePartition → Option (Map Partition)
  grpc_partition_mapping_to_domain mapping = do
    entries ← traverse partition_to_domain mapping.entries
    some (collect entries)

  unfoldable pub domain_partition_mapping_to_grpc : Map Partition → Map WirePartition
  domain_partition_mapping_to_grpc mapping =
      Map.map_values
        (λ _ p. record {
          master = uuid.to_text p.master;
          replicas = map uuid.to_text (Map.keys p.replicas);
        })
        mapping

  unfoldable pub old_replicas_to_domain : ℕ × Replicas → Option (ℕ × Set)
  old_replicas_to_domain (partition_id, old_replicas) = do
    replicas ← replicas_to_domain old_replicas.replicas
    some (partition_id % 2 ^ 16, replicas)

  unfoldable pub grpc_old_replicas_to_domain : Map Replicas → Option (Map Set)
  grpc_old_replicas_to_domain mapping = do
    entries ← traverse old_replicas_to_domain mapping.entries
    some (collect entries)

  unfoldable pub domain_old_replicas_to_grpc : Map Set → Map Replicas
  domain_old_replicas_to_grpc mapping =
      Map.map_values (λ _ ids. record { replicas = map uuid.to_text (Map.keys ids) }) mapping

  unfoldable pub grpc_partitions_to_domain : WirePartitions → Option Partitions
  grpc_partitions_to_domain partitions = do
    mapping ← grpc_partition_mapping_to_domain partitions.mapping
    old_replicas ← grpc_old_replicas_to_domain partitions.old_replicas
    new_replicas ← grpc_old_replicas_to_domain partitions.new_replicas
    some (record { mapping = mapping; old_replicas = old_replicas; new_replicas = new_replicas })

  unfoldable pub domain_partitions_to_grpc : Partitions → WirePartitions
  domain_partitions_to_grpc partitions = record {
    mapping = domain_partition_mapping_to_grpc partitions.mapping;
    new_replicas = domain_old_replicas_to_grpc partitions.new_replicas;
    old_replicas = domain_old_replicas_to_grpc partitions.old_replicas;
  }

  -- The nodes of a state that is sent.
  unfoldable pub node_to_grpc : ClusterNode → WireNode
  node_to_grpc node = record {
    id = uuid.to_text node.id;
    addr = some (record { host = node.host; port = node.port });
    last_heartbeat = node.last_heartbeat;
    node_type = domain_node_type_to_grpc node.node_type;
  }

  unfoldable pub cluster_state_to_grpc : ClusterState → WireClusterState
  cluster_state_to_grpc state = record {
    epoch = state.epoch;
    leader_id = uuid.to_text state.leader_id;
    nodes = map node_to_grpc state.nodes;
    partitions = some (domain_partitions_to_grpc state.partitions);
  }

  -- The `filter_map` of a state that is received: a node without an address is left out.
  unfoldable pub nodes_to_domain : List WireNode → Option (List ClusterNode)
  nodes_to_domain [] = some []
  nodes_to_domain (node ∷ nodes) = elim node.addr [
    | none ↦ nodes_to_domain nodes
    | some address ↦ do
      id ← uuid.parse_str node.id
      rest ← nodes_to_domain nodes
      some (
          (record {
            id = id;
            host = address.host;
            port = address.port;
            last_heartbeat = node.last_heartbeat;
            node_type = grpc_node_type_to_domain node.node_type;
          })
          ∷ rest)
  ]

  unfoldable pub cluster_state_to_domain : WireClusterState → WirePartitions → Option ClusterState
  cluster_state_to_domain state wire_partitions = do
    leader_id ← uuid.parse_str state.leader_id
    partitions ← grpc_partitions_to_domain wire_partitions
    nodes ← nodes_to_domain state.nodes
    some (record {
      epoch = state.epoch;
      leader_id = leader_id;
      nodes = nodes;
      partitions = partitions;
    })
