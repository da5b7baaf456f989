-- ===== src/Worker/Pass/Obsolete.antt =====
-- When the pass drops a partition that this worker does not own any more.
use rust_accelerator_no_sql.Map
use rust_accelerator_no_sql.Map.Entries
use rust_accelerator_no_sql.Map.{Map}
use rust_accelerator_no_sql.Prelude.{
  ℕ, ◌≡◌, refl, ap, ◌∙◌, arith, List, [], ◌∷◌, none, some, true, false, if◌then◌else◌, inl, inr,
  Bool-cases, ◌==◌, ◌&&◌, not,
}
use rust_accelerator_no_sql.Store.{RuntimeStore, remove_partition, stable_partition_revision}
use rust_accelerator_no_sql.Common.{Node, PartitionId, NodeId, Me, Partitions}
use rust_accelerator_no_sql.Worker.{State, SyncState}
use rust_accelerator_no_sql.Worker.Sync.{
  node_owns_partition, Readings, sync_partition_to_recipient, start_sync,
}
use rust_accelerator_no_sql.Worker.Pass.Retention.{partitions-finish_partition}
use rust_accelerator_no_sql.Worker.Pass.{
  forget_gone, finish_partition, sync_recipients, sync_partition, unconfirmed, drop_obsolete,
  sync_recipient, set_recipient, recipient_state, remove_completed_syncs_and_obsolete_partitions,
}

abbrev dropped_one : PartitionId → Map SyncState → Partitions → RuntimeStore → Me → RuntimeStore
dropped_one id states partitions store me =
    if Map.is_empty states && not (node_owns_partition partitions id me.id)
    then remove_partition store id
    else store

get-remove_partition :
    (store : RuntimeStore) (i id : PartitionId)
    → Map.get (remove_partition store i).cache id
      ≡ (if i == id then none else Map.get store.cache id)
unfolding remove_partition
get-remove_partition store i id = Map.get-remove store.cache i id

stays_dropped :
    (es : List (PartitionId × Map SyncState)) (partitions : Partitions) (store : RuntimeStore)
    (me : Me) (id : PartitionId)
    → Map.get store.cache id ≡ none
    → Map.get (drop_obsolete es partitions store me).cache id ≡ none
unfolding drop_obsolete
stays_dropped [] partitions store me id h = h
stays_dropped ((i, states) ∷ es) partitions store me id h =
    stays_dropped es partitions (dropped_one i states partitions store me) me id
      (ground (arith, get-remove_partition store i id, h))

drop_obsolete-empty :
    (es : List (PartitionId × Map SyncState)) (partitions : Partitions) (store : RuntimeStore)
    (me : Me) (id : PartitionId) {states : Map SyncState}
    → Entries.lookup id es ≡ some states
    → Map.is_empty states ≡ true
    → node_owns_partition partitions id me.id ≡ false
    → Map.get (drop_obsolete es partitions store me).cache id ≡ none
unfolding drop_obsolete Entries.lookup
drop_obsolete-empty [] partitions store me id l e o = ground arith
drop_obsolete-empty ((i, empty) ∷ es) partitions store me id {states = found} l e o =
    elim (Bool-cases (i == id)) [
      | inl same ↦
          stays_dropped es partitions (dropped_one i empty partitions store me) me id
            (ground (arith, same, l, e, o, get-remove_partition store i id))
      | inr differ ↦
          drop_obsolete-empty es partitions (dropped_one i empty partitions store me) me id
            {states = found} (ground (arith, differ, l)) e o
    ]

no_state :
    (sync : Map (Map SyncState)) (id : PartitionId) (recipient_id : NodeId)
    → Map.get sync id ≡ none
    → recipient_state sync id recipient_id ≡ none
unfolding recipient_state
no_state sync id recipient_id unknown = rw (unknown, recipient_state) refl

empty_entry :
    (sync : Map (Map SyncState)) (id : PartitionId) (recipient_id : NodeId)
    → Map.get sync id ≡ none
    → set_recipient sync id recipient_id none ≡ Map.insert sync id Map.empty
unfolding set_recipient
empty_entry sync id recipient_id unknown = rw (unknown, set_recipient) refl

busy_start :
    (store : RuntimeStore) (me : Me) (id : PartitionId) (recipient_id : NodeId) (now : ℕ)
    → stable_partition_revision store id ≡ none
    → start_sync store me id recipient_id now ≡ (none, [], false)
unfolding start_sync
busy_start store me id recipient_id now busy = rw (busy, start_sync) refl

-- A copy that cannot start leaves an empty entry and sends nothing.
not_started :
    (state : State) (store : RuntimeStore) (me : Me) (id : PartitionId) (recipient_id : NodeId)
    (t : Readings)
    → Map.get state.sync id ≡ none
    → stable_partition_revision store id ≡ none
    → sync_recipient state store me id recipient_id t
      ≡ (record state { sync = Map.insert state.sync id Map.empty }, [])
unfolding sync_recipient sync_partition_to_recipient
not_started state store me id recipient_id t unknown busy =
    rw (no_state state.sync id recipient_id unknown, sync_recipient)
      (rw (busy_start store me id recipient_id t.stamped busy)
        (rw (empty_entry state.sync id recipient_id unknown) refl))

copies_not_started :
    (state : State) (store : RuntimeStore) (me : Me) (id : PartitionId) (recipient_id : NodeId)
    (clock : NodeId → Readings)
    → Map.get state.sync id ≡ none
    → stable_partition_revision store id ≡ none
    → sync_recipients state store me id (recipient_id ∷ []) clock
      ≡ (record state { sync = Map.insert state.sync id Map.empty }, [])
unfolding sync_recipients
copies_not_started state store me id recipient_id clock unknown busy =
    rw (not_started state store me id recipient_id (clock recipient_id) unknown busy) refl

nothing_to_forget :
    (sync : Map (Map SyncState)) (nodes : Map Node) (id : PartitionId)
    → Map.get sync id ≡ none
    → forget_gone sync nodes id ≡ sync
unfolding forget_gone
nothing_to_forget sync nodes id unknown = rw (unknown, forget_gone) refl

finished_entry :
    (state : State) (store : RuntimeStore) (id : PartitionId) {states : Map SyncState}
    → Map.get state.sync id ≡ some states
    → Map.get (finish_partition state store id).0.sync id ≡ some (unconfirmed states)
unfolding finish_partition
finished_entry state store id {states} h =
    rw (h, finish_partition) (ground (arith, Map.get-insert state.sync id id (unconfirmed states)))

unconfirmed-empty : Map.is_empty (unconfirmed Map.empty) ≡ true
unfolding unconfirmed Map.is_empty Map.empty Map.retain Entries.retain
unconfirmed-empty = refl

drop_obsolete-finished :
    (state : State) (store store' : RuntimeStore) (me : Me) (id : PartitionId)
    → Map.get state.sync id ≡ some Map.empty
    → node_owns_partition state.partitions id me.id ≡ false
    → Map.get
        (drop_obsolete
          (finish_partition state store id).0.sync.entries
          (finish_partition state store id).0.partitions
          store'
          me).cache
        id
      ≡ none
unfolding Map.get
drop_obsolete-finished state store store' me id h lost =
    drop_obsolete-empty (finish_partition state store id).0.sync.entries
      (finish_partition state store id).0.partitions store' me id {states = unconfirmed Map.empty}
      (finished_entry state store id {states = Map.empty} h) unconfirmed-empty
      (ap (λ ps. node_owns_partition ps id me.id) (partitions-finish_partition state store id)
        ∙ lost)

-- If a partition has a writer at work when its first copy, to a single recipient, is to start, the
-- copy does not start and nothing is sent; and the empty entry that the attempt leaves makes the end
-- of the pass drop the partition from the store, if this worker does not own it any more.
pub busy_partition_dropped :
    (state : State) (store : RuntimeStore) (me : Me) (id : PartitionId) (recipient_id : NodeId)
    (clock : NodeId → Readings)
    → Map.get state.sync id ≡ none
    → stable_partition_revision store id ≡ none
    → node_owns_partition state.partitions id me.id ≡ false
    → ((sync_partition state store me id (recipient_id ∷ []) clock).2 ≡ [])
      × (Map.get
            (remove_completed_syncs_and_obsolete_partitions
              (sync_partition state store me id (recipient_id ∷ []) clock).0
              (sync_partition state store me id (recipient_id ∷ []) clock).1
              me).1.cache
            id
          ≡ none)
unfolding remove_completed_syncs_and_obsolete_partitions sync_partition
busy_partition_dropped state store me id recipient_id clock unknown busy lost =
    let marked : State = record state { sync = Map.insert state.sync id Map.empty } in
    let entry : Map.get marked.sync id ≡ some Map.empty =
      ground (arith, Map.get-insert state.sync id id (Map.empty {V = SyncState})) in
    rw (nothing_to_forget state.sync state.nodes id unknown) (
      rw (copies_not_started state store me id recipient_id clock unknown busy) (
        refl,
        drop_obsolete-finished marked store (finish_partition marked store id).1 me id entry lost,
      ))
