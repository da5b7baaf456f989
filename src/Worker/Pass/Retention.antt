-- ===== src/Worker/Pass/Retention.antt =====
-- What the pass over the partitions leaves in the store.
use rust_accelerator_no_sql.Map
use rust_accelerator_no_sql.Prelude.{
  Bool-cases, ap, not, ◌==◌, ◌&&◌, zero, suc, ◌∙◌, Option-cases, inr, inl, arith, refl,
  if◌then◌else◌, ◌∷◌, [], List, some, none, Option, false, true, ◌≡◌, ℕ,
}
use rust_accelerator_no_sql.Worker.Pass.{
  remove_completed_syncs_and_obsolete_partitions, sync_partitions,
  get_node_ids_curr_node_has_to_sync_the_partition_to, forget_gone, unconfirmed, min_revision,
  or_else, sync_partition, record_completed_sync, State, drop_obsolete, sync_loop, sync_recipients,
  sync_recipient, finish_partition, prune_through,
}
use rust_accelerator_no_sql.Store.{
  remove_partition, partition, stable_partition_revision, Key, RuntimeStore,
}
use rust_accelerator_no_sql.Common.{Partitions, Me, PartitionId, NodeId}
use rust_accelerator_no_sql.Map.{Map}
use rust_accelerator_no_sql.Store.Lww.{stored}
use rust_accelerator_no_sql.Worker.Sync.{node_owns_partition, Readings}
use rust_accelerator_no_sql.Map.Set.{Set}
use rust_accelerator_no_sql.Worker.{get_currently_synced_actual_nodes, SyncState}
use rust_accelerator_no_sql.Store.Journal.{get_partition_changes-prune}

stored-prune_through :
    (store : RuntimeStore) (id : PartitionId) (through : Option ℕ) (key : Key)
    → stored (prune_through store id through) key ≡ stored store key
unfolding prune_through
stored-prune_through store id none key = refl
stored-prune_through store id (some revision) key =
    (get_partition_changes-prune store id revision revision 0 key (omega arith)).1

stored-finish_partition :
    (state : State) (store : RuntimeStore) (id : PartitionId) (key : Key)
    → stored (finish_partition state store id).1 key ≡ stored store key
unfolding finish_partition
stored-finish_partition state store id key = elim (Option-cases (Map.get state.sync id)) [
  | inl e ↦
      rw (e, finish_partition)
        (stored-prune_through store id (stable_partition_revision store id) key)
  | inr (states, e) ↦
      rw (e, finish_partition)
        (stored-prune_through store id
          (or_else (min_revision (Map.values (unconfirmed states)))
            (stable_partition_revision store id))
          key)
]

pub partitions-finish_partition :
    (state : State) (store : RuntimeStore) (id : PartitionId)
    → (finish_partition state store id).0.partitions ≡ state.partitions
unfolding finish_partition
partitions-finish_partition state store id = ground arith

partitions-sync_recipient :
    (state : State) (store : RuntimeStore) (me : Me) (id recipient_id : ℕ) (t : Readings)
    → (sync_recipient state store me id recipient_id t).0.partitions ≡ state.partitions
unfolding sync_recipient record_completed_sync
partitions-sync_recipient state store me id recipient_id t = ground arith

partitions-sync_recipients :
    (ids : List NodeId) (state : State) (store : RuntimeStore) (me : Me) (id : PartitionId)
    (clock : NodeId → Readings)
    → (sync_recipients state store me id ids clock).0.partitions ≡ state.partitions
unfolding sync_recipients
partitions-sync_recipients [] state store me id clock = refl
partitions-sync_recipients (r ∷ ids) state store me id clock =
    partitions-sync_recipients ids (sync_recipient state store me id r (clock r)).0 store me id
      clock
    ∙ partitions-sync_recipient state store me id r (clock r)

-- One round of the pass leaves the partitions and every stored record.
sync_partition_lem :
    (state : State) (store : RuntimeStore) (me : Me) (id : PartitionId) (ids : List NodeId)
    (clock : NodeId → Readings) (key : Key)
    → (stored (sync_partition state store me id ids clock).1 key ≡ stored store key)
      × ((sync_partition state store me id ids clock).0.partitions ≡ state.partitions)
unfolding sync_partition
sync_partition_lem state store me id ids clock key =
    let started : State = record state { sync = forget_gone state.sync state.nodes id } in
    (
      stored-finish_partition (sync_recipients started store me id ids clock).0 store id key,
      partitions-finish_partition (sync_recipients started store me id ids clock).0 store id
          ∙ partitions-sync_recipients ids started store me id clock,
    )

sync_loop_lem :
    (count p : ℕ) (state : State) (store : RuntimeStore) (me : Me) (synced : Map Set)
    (clock : PartitionId → NodeId → Readings) (key : Key)
    → (stored (sync_loop count p state store me synced clock).1 key ≡ stored store key)
      × ((sync_loop count p state store me synced clock).0.partitions ≡ state.partitions)
unfolding sync_loop
sync_loop_lem zero p state store me synced clock key = (refl, refl)
sync_loop_lem (suc count) p state store me synced clock key =
    let ids : List NodeId = Map.keys (
      get_node_ids_curr_node_has_to_sync_the_partition_to p me.id state.partitions state.nodes
        (Map.get synced p)) in
    let first = sync_partition state store me p ids (clock p) in
    let one = sync_partition_lem state store me p ids (clock p) key in
    let rest = sync_loop_lem count (suc p) first.0 first.1 me synced clock key in
    (rest.0 ∙ one.0, rest.1 ∙ one.1)

stored-remove_partition :
    (store : RuntimeStore) (id : PartitionId) (key : Key)
    → (id == partition key) ≡ false
    → stored (remove_partition store id) key ≡ stored store key
unfolding remove_partition stored
stored-remove_partition store id key h =
    ground (arith, Map.get-remove store.cache id (partition key))

stored-drop_one :
    (id : PartitionId) (states : Map SyncState) (partitions : Partitions) (store : RuntimeStore)
    (me : Me) (key : Key)
    → node_owns_partition partitions (partition key) me.id ≡ true
    → stored
        (if Map.is_empty states && not (node_owns_partition partitions id me.id)
          then remove_partition store id
          else store)
        key
      ≡ stored store key
stored-drop_one id states partitions store me key h =
    elim (Bool-cases (Map.is_empty states && not (node_owns_partition partitions id me.id))) [
      | inr kept ↦ rw kept refl
      | inl dropped ↦
          let other : (id == partition key) ≡ false = elim (Bool-cases (id == partition key)) [
            | inr differ ↦ differ
            | inl same ↦
                let e : id ≡ partition key = ground (arith, same) in
                let owned : node_owns_partition partitions id me.id ≡ true =
                  ap (λ i. node_owns_partition partitions i me.id) e ∙ h in
                absurd (ground (arith, owned, dropped))
          ] in
          rw dropped (stored-remove_partition store id key other)
    ]

stored-drop_obsolete :
    (es : List (PartitionId × Map SyncState)) (partitions : Partitions) (store : RuntimeStore)
    (me : Me) (key : Key)
    → node_owns_partition partitions (partition key) me.id ≡ true
    → stored (drop_obsolete es partitions store me) key ≡ stored store key
unfolding drop_obsolete
stored-drop_obsolete [] partitions store me key h = refl
stored-drop_obsolete ((id, states) ∷ es) partitions store me key h =
    stored-drop_obsolete es partitions
      (if Map.is_empty states && not (node_owns_partition partitions id me.id)
        then remove_partition store id
        else store)
      me key h
    ∙ stored-drop_one id states partitions store me key h

-- Whatever a pass over the partitions copies, prunes and drops, each record of a partition this
-- worker owns, whether a value or a tombstone, is stored as before.
pub sync_partitions_keeps_owned :
    (amount : ℕ) (state : State) (store : RuntimeStore) (me : Me)
    (clock : PartitionId → NodeId → Readings) (key : Key)
    → node_owns_partition state.partitions (partition key) me.id ≡ true
    → stored (sync_partitions amount state store me clock).1 key ≡ stored store key
unfolding sync_partitions remove_completed_syncs_and_obsolete_partitions
sync_partitions_keeps_owned amount state store me clock key h =
    let synced = get_currently_synced_actual_nodes state in
    let pass = sync_loop amount 0 state store me synced clock in
    let kept = sync_loop_lem amount 0 state store me synced clock key in
    stored-drop_obsolete pass.0.sync.entries pass.0.partitions pass.1 me key
      (ap (λ ps. node_owns_partition ps (partition key) me.id) kept.1 ∙ h)
    ∙ kept.0
