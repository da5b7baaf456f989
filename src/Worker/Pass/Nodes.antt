-- ===== src/Worker/Pass/Nodes.antt =====
-- The worker's membership under a pass of migration.
use rust_accelerator_no_sql.Map
use rust_accelerator_no_sql.Prelude.{
  ap, Option, inr, inl, Option-cases, ◌∙◌, Bool-cases, ◌≡◌, refl, ℕ, zero, suc, List, [], ◌∷◌,
}
use rust_accelerator_no_sql.Worker.{State, get_currently_synced_actual_nodes}
use rust_accelerator_no_sql.Worker.Sync.{Readings, node_owns_partition, sync_partition_to_recipient}
use rust_accelerator_no_sql.Map.{Map}
use rust_accelerator_no_sql.Map.Set.{Set}
use rust_accelerator_no_sql.Worker.Pass.{
  recipient_state, remove_completed_syncs_and_obsolete_partitions, sync_partition, sync_partitions,
  sync_loop, finish_partition, sync_recipients, sync_recipient, record_completed_sync,
}
use rust_accelerator_no_sql.Common.{Partitions, Node, PartitionId, NodeId, Me}
use rust_accelerator_no_sql.Store.{RuntimeStore}

-- What a worker knows of the cluster.
abbrev pub membership : State → Map Node × Option ℕ × Option NodeId × Partitions
membership state = (state.nodes, state.epoch, state.elected_leader_id, state.partitions)

record_completed_sync-membership :
    (state : State) (me : Me) (partition_id : PartitionId) (recipient_id : NodeId)
    → membership (record_completed_sync state me partition_id recipient_id).0 ≡ membership state
unfolding record_completed_sync
record_completed_sync-membership state me partition_id recipient_id =
    elim (Bool-cases (node_owns_partition state.partitions partition_id me.id)) [
      | inl owns ↦ rw (owns, record_completed_sync) refl
      | inr other ↦ rw (other, record_completed_sync) refl
    ]

sync_recipient-membership :
    (state : State) (store : RuntimeStore) (me : Me) (partition_id : PartitionId)
    (recipient_id : NodeId) (t : Readings)
    → membership (sync_recipient state store me partition_id recipient_id t).0 ≡ membership state
unfolding sync_recipient
sync_recipient-membership state store me partition_id recipient_id t =
    let outcome =
      sync_partition_to_recipient (recipient_state state.sync partition_id recipient_id) store me
        partition_id recipient_id t in
    elim (Bool-cases outcome.2) [
      | inl done ↦
          rw (done, sync_recipient)
            (record_completed_sync-membership _ me partition_id recipient_id)
      | inr going ↦ rw (going, sync_recipient) refl
    ]

sync_recipients-membership :
    (ids : List NodeId) (state : State) (store : RuntimeStore) (me : Me)
    (partition_id : PartitionId) (clock : NodeId → Readings)
    → membership (sync_recipients state store me partition_id ids clock).0 ≡ membership state
unfolding sync_recipients
sync_recipients-membership [] state store me partition_id clock = refl
sync_recipients-membership (id ∷ ids) state store me partition_id clock =
    sync_recipients-membership ids _ store me partition_id clock
    ∙ sync_recipient-membership state store me partition_id id (clock id)

finish_partition-membership :
    (state : State) (store : RuntimeStore) (partition_id : PartitionId)
    → membership (finish_partition state store partition_id).0 ≡ membership state
unfolding finish_partition
finish_partition-membership state store partition_id =
    elim (Option-cases (Map.get state.sync partition_id)) [
      | inl e ↦ rw (e, finish_partition) refl
      | inr (states, e) ↦ rw (e, finish_partition) refl
    ]

sync_loop-membership :
    (count partition_id : ℕ) (state : State) (store : RuntimeStore) (me : Me) (synced : Map Set)
    (clock : PartitionId → NodeId → Readings)
    → membership (sync_loop count partition_id state store me synced clock).0 ≡ membership state
unfolding sync_loop sync_partition
sync_loop-membership zero partition_id state store me synced clock = refl
sync_loop-membership (suc count) partition_id state store me synced clock =
    sync_loop-membership count (suc partition_id) _ _ me synced clock
    ∙ finish_partition-membership _ store partition_id
    ∙ sync_recipients-membership _ _ store me partition_id (clock partition_id)

-- The pass over the partitions changes nothing of what the worker knows of the cluster.
pub sync_partitions-membership :
    (amount : ℕ) (state : State) (store : RuntimeStore) (me : Me)
    (clock : PartitionId → NodeId → Readings)
    → membership (sync_partitions amount state store me clock).0 ≡ membership state
unfolding sync_partitions remove_completed_syncs_and_obsolete_partitions
sync_partitions-membership amount state store me clock =
    sync_loop-membership amount 0 state store me (get_currently_synced_actual_nodes state) clock

pub sync_partitions-nodes :
    (amount : ℕ) (state : State) (store : RuntimeStore) (me : Me)
    (clock : PartitionId → NodeId → Readings)
    → (sync_partitions amount state store me clock).0.nodes ≡ state.nodes
sync_partitions-nodes amount state store me clock =
    ap (λ m. m.0) (sync_partitions-membership amount state store me clock)
