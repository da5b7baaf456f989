-- ===== src/Conversions/RoundTrip.antt =====
-- The conversions of a cluster's state, forth and back.
use rust_accelerator_no_sql.Map
use rust_accelerator_no_sql.Map.{Map}
use rust_accelerator_no_sql.Map.Entries
use rust_accelerator_no_sql.Prelude.{
  sym, arith, ◌%◌, ◌∙◌, refl, ◌^◌, some, ◌<◌, ap, Option, ◌≡◌, map, All, ℕ, List, [], ◌∷◌,
}
use rust_accelerator_no_sql.Common.{
  ClusterState, ClusterNode, Partitions, Partition, NodeType, NodeId, manager, worker,
}
use rust_accelerator_no_sql.Conversions.{
  cluster_state_to_grpc, node_to_grpc, domain_partitions_to_grpc, cluster_state_to_domain,
  nodes_to_domain, grpc_partitions_to_domain, domain_old_replicas_to_grpc,
  domain_partition_mapping_to_grpc, grpc_old_replicas_to_domain, grpc_partition_mapping_to_domain,
  old_replicas_to_domain, partition_to_domain, replicas_to_domain, domain_node_type_to_grpc, Uuid,
  grpc_node_type_to_domain, traverse,
}
use rust_accelerator_no_sql.Map.Set.{keys-IsAscending, keys-from_list, from_list, Set}
use rust_accelerator_no_sql.Map.Extensionality.{collect-entries, map_ext}

traverse-map {ℓ κ μ} :
    {A : Type ℓ} {B : Type κ} {C : Type μ} (f : B → Option C) (g : A → B) (h : A → C) (xs : List A)
    → All (λ x. f (g x) ≡ some (h x)) xs
    → traverse f (map g xs) ≡ some (map h xs)
unfolding traverse
traverse-map f g h [] a = refl
traverse-map f g h (x ∷ xs) a = rw (a.0, traverse-map f g h xs a.1) refl

All-intro {ℓ κ} : {A : Type ℓ} {P : A → Type κ} (xs : List A) → ((x : A) → P x) → All P xs
All-intro [] f = tt
All-intro (x ∷ xs) f = (f x, All-intro xs f)

map_id {ℓ} : {A : Type ℓ} (xs : List A) → map (λ x. x) xs ≡ xs
map_id [] = refl
map_id (x ∷ xs) = ap (λ (l : List _). x ∷ l) (map_id xs)

map_values-entries {ℓ κ} :
    {V : Type ℓ} {W : Type κ} (f : ℕ → V → W) (es : List (ℕ × V))
    → Entries.map_values f es ≡ map (λ e. (e.0, f e.0 e.1)) es
unfolding Entries.map_values
map_values-entries f [] = refl
map_values-entries f (e ∷ es) = ap (λ (l : List _). (e.0, f e.0 e.1) ∷ l) (map_values-entries f es)

node_type_lem : (t : NodeType) → grpc_node_type_to_domain (domain_node_type_to_grpc t) ≡ t
unfolding grpc_node_type_to_domain domain_node_type_to_grpc
node_type_lem manager = refl
node_type_lem worker = refl

-- Every partition id of the map is a `u16`.
abbrev pub HasIds {ℓ} : {V : Type ℓ} → Map V → Type 0
HasIds m = All (λ e. e.0 < 2 ^ 16) m.entries

set_entries : (es : List (ℕ × Unit {0})) → es ≡ map (λ k. (k, tt)) (map (λ e. e.0) es)
set_entries [] = refl
set_entries ((k, tt) ∷ es) = ap (λ (l : List (ℕ × Unit {0})). (k, tt) ∷ l) (set_entries es)

from_list-keys : (ids : Set) → from_list (Map.keys ids) ≡ ids
unfolding Map.keys
from_list-keys ids = map_ext (from_list (Map.keys ids)) ids (
    set_entries (from_list (Map.keys ids)).entries
    ∙ ap (map (λ k. (k, tt))) (keys-from_list (Map.keys ids) (keys-IsAscending ids))
    ∙ sym (set_entries ids.entries))

abbrev pub HasPartitionIds : Partitions → Type 0
HasPartitionIds p = HasIds p.mapping × (HasIds p.old_replicas × HasIds p.new_replicas)

module _ (uuid : Uuid) (law : (id : NodeId) → uuid.parse_str (uuid.to_text id) ≡ some id) where
  ids_lem : (ids : List NodeId) → traverse uuid.parse_str (map uuid.to_text ids) ≡ some ids
  ids_lem ids =
      traverse-map uuid.parse_str uuid.to_text (λ id. id) ids (All-intro ids law)
      ∙ ap some (map_id ids)

  replicas_lem : (ids : Set) → replicas_to_domain uuid (map uuid.to_text (Map.keys ids)) ≡ some ids
  unfolding replicas_to_domain
  replicas_lem ids = rw (ids_lem (Map.keys ids)) (ap some (from_list-keys ids))

  -- A map is read back entry by entry.
  entries_lem {ℓ κ} :
      {V : Type ℓ} {W : Type κ} (f : V → W) (g : ℕ × W → Option (ℕ × V)) (m : Map V)
      → HasIds m
      → ((k : ℕ) (v : V) → k < 2 ^ 16 → g (k, f v) ≡ some (k, v))
      → traverse g (Map.map_values (λ _ v. f v) m).entries ≡ some m.entries
  unfolding Map.map_values
  entries_lem {V} f g m ids back =
      ap (traverse g) (map_values-entries (λ _ v. f v) m.entries)
      ∙ traverse-map g (λ (e : ℕ × V). (e.0, f e.1)) (λ e. e) m.entries (each m.entries ids)
      ∙ ap some (map_id m.entries)
    where
      each :
          (es : List (ℕ × V)) → All (λ e. e.0 < 2 ^ 16) es → All (λ e. g (e.0, f e.1) ≡ some e) es
      each [] a = tt
      each (e ∷ es) a = (back e.0 e.1 a.0, each es a.1)

  partition_lem :
      (k : ℕ) (p : Partition)
      → k < 2 ^ 16
      → partition_to_domain uuid (
        k,
        record {
          master = uuid.to_text p.master;
          replicas = map uuid.to_text (Map.keys p.replicas);
        },
      )
        ≡ some (k, p)
  unfolding partition_to_domain
  partition_lem k p below =
      let same : k % 2 ^ 16 ≡ k = ground (arith, below) in
      rw (law p.master, replicas_lem p.replicas, same) refl

  old_replicas_lem :
      (k : ℕ) (ids : Set)
      → k < 2 ^ 16
      → old_replicas_to_domain uuid (k, record { replicas = map uuid.to_text (Map.keys ids) })
        ≡ some (k, ids)
  unfolding old_replicas_to_domain
  old_replicas_lem k ids below =
      let same : k % 2 ^ 16 ≡ k = ground (arith, below) in rw (replicas_lem ids, same) refl

  mapping_lem :
      (m : Map Partition)
      → HasIds m
      → grpc_partition_mapping_to_domain uuid (domain_partition_mapping_to_grpc uuid m) ≡ some m
  unfolding grpc_partition_mapping_to_domain domain_partition_mapping_to_grpc
  mapping_lem m ids =
      rw (entries_lem _ (partition_to_domain uuid) m ids partition_lem)
        (ap some (collect-entries m))

  replicas_map_lem :
      (m : Map Set)
      → HasIds m
      → grpc_old_replicas_to_domain uuid (domain_old_replicas_to_grpc uuid m) ≡ some m
  unfolding grpc_old_replicas_to_domain domain_old_replicas_to_grpc
  replicas_map_lem m ids =
      rw (entries_lem _ (old_replicas_to_domain uuid) m ids old_replicas_lem)
        (ap some (collect-entries m))

  partitions_lem :
      (p : Partitions)
      → HasPartitionIds p
      → grpc_partitions_to_domain uuid (domain_partitions_to_grpc uuid p) ≡ some p
  unfolding grpc_partitions_to_domain domain_partitions_to_grpc
  partitions_lem p ids =
      rw
        (
          mapping_lem p.mapping ids.0,
          replicas_map_lem p.old_replicas ids.1.0,
          replicas_map_lem p.new_replicas ids.1.1,
        )
        refl

  nodes_lem :
      (nodes : List ClusterNode) → nodes_to_domain uuid (map (node_to_grpc uuid) nodes) ≡ some nodes
  unfolding nodes_to_domain node_to_grpc
  nodes_lem [] = refl
  nodes_lem (node ∷ nodes) = rw (law node.id, nodes_lem nodes, node_type_lem node.node_type) refl

  -- A cluster's state that is sent and received is the same state, if its partition ids are `u16`s: no
  -- UUID is refused, and no node, partition or replica is lost.
  pub cluster_state_lem :
      (s : ClusterState)
      → HasPartitionIds s.partitions
      → cluster_state_to_domain uuid
          (cluster_state_to_grpc uuid s)
          (domain_partitions_to_grpc uuid s.partitions)
        ≡ some s
  unfolding cluster_state_to_domain cluster_state_to_grpc
  cluster_state_lem s ids =
      rw (law s.leader_id, partitions_lem s.partitions ids, nodes_lem s.nodes) refl
