-- ===== src/Worker/Pass/Recipients.antt =====
-- Whom a worker copies a partition to.
use rust_accelerator_no_sql.Map
use rust_accelerator_no_sql.Map.Set.{
  Set, add, filter_set, contains_key-filter_set, contains_key-extend, contains_key-add,
  contains_key-empty,
}
use rust_accelerator_no_sql.Map.{Map, contains-keys}
use rust_accelerator_no_sql.Prelude.{
  ap, ◌≡◌, ◌==◌, arith, none, some, Option, true, false, if◌then◌else◌, inl, inr, Bool-cases, not,
  ◌&&◌,
}
use rust_accelerator_no_sql.Common.{PartitionId, NodeId, Partition, Partitions, Node}
use rust_accelerator_no_sql.Worker.Pass.{
  owners_but, new_but_synced, set_contains, set_is_empty,
  get_node_ids_curr_node_has_to_sync_the_partition_to,
}
use rust_accelerator_no_sql.Worker.Sync.{node_owns_partition}

owners_but-others :
    (p : Option Partition) (me id : NodeId)
    → Map.contains_key (owners_but p me) id ≡ true
    → (id == me) ≡ false
unfolding owners_but
owners_but-others none me id h = ground (arith, contains_key-empty id, h)
owners_but-others (some p) me id h = ground (
  arith,
  h,
  contains_key-extend (if p.master == me then Map.empty else add Map.empty p.master)
      (Map.keys (filter_set (λ i. not (i == me)) p.replicas)) id,
  contains-keys (filter_set (λ i. not (i == me)) p.replicas) id,
  contains_key-filter_set (λ i. not (i == me)) p.replicas id,
  contains_key-add Map.empty p.master id,
  contains_key-empty id,
)

new_but_synced-others :
    (new : Option Set) (me id : NodeId) (synced : Option Set)
    → Map.contains_key (new_but_synced new me synced) id ≡ true
    → (id == me) ≡ false
unfolding new_but_synced
new_but_synced-others none me id synced h = ground (arith, contains_key-empty id, h)
new_but_synced-others (some new) me id synced h = elim (Bool-cases (id == me)) [
  | inr differ ↦ differ
  | inl same ↦
      let e : id ≡ me = ground (arith, same) in
      absurd (
        ground (
          arith,
          h,
          contains_key-empty id,
          contains_key-filter_set (λ i. not (set_contains synced i)) new id,
          ap (Map.contains_key new) e,
        ))
]

-- A worker copies a partition only to nodes that it knows, and never to itself.
pub recipients_are_others :
    (partition_id : PartitionId) (me id : NodeId) (partitions : Partitions) (nodes : Map Node)
    (synced : Option Set)
    → Map.contains_key
        (get_node_ids_curr_node_has_to_sync_the_partition_to partition_id me partitions nodes
          synced)
        id
      ≡ true
    → (Map.contains_key nodes id ≡ true) × ((id == me) ≡ false)
unfolding get_node_ids_curr_node_has_to_sync_the_partition_to
recipients_are_others partition_id me id partitions nodes synced h =
    let old = Map.get partitions.old_replicas partition_id in
    let chosen =
      if set_contains old me
      then owners_but (Map.get partitions.mapping partition_id) me
      else if set_is_empty old && node_owns_partition partitions partition_id me
      then new_but_synced (Map.get partitions.new_replicas partition_id) me synced
      else Map.empty in
    let both = contains_key-filter_set (Map.contains_key nodes) chosen id in
    (
      ground (arith, h, both),
      ground (
        arith,
        h,
        both,
        owners_but-others (Map.get partitions.mapping partition_id) me id,
        new_but_synced-others (Map.get partitions.new_replicas partition_id) me id synced,
        contains_key-empty id,
      ),
    )
