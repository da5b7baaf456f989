-- ===== src/Worker/Examples.antt =====
-- Runs of the worker's theorems.
use rust_accelerator_no_sql.Map
use rust_accelerator_no_sql.Map.Entries
use rust_accelerator_no_sql.Map.{Map}
use rust_accelerator_no_sql.Map.Set.{extend, filter_set, add}
use rust_accelerator_no_sql.Prelude.{
  length, map, arith, refl, ◌∷◌, [], List, some, none, false, true, ◌≡◌,
}
use rust_accelerator_no_sql.Common.{NodeId, worker, PartitionId, Partitions, Me}
use rust_accelerator_no_sql.Store.{
  write, get_partition_changes, stable_reads, stable_revision, stable_partition_revision,
  RuntimeStore, delete_mutation, put_mutation, new, Mutation, partition, Key,
}
use rust_accelerator_no_sql.Worker.{snapshot, State, SyncState}
use rust_accelerator_no_sql.Worker.Batch.{apply_records}
use rust_accelerator_no_sql.Store.Lww.{records_of, stored}
use rust_accelerator_no_sql.Worker.Batch.Replay.{AreIn}
use rust_accelerator_no_sql.Worker.Sync.{Readings, mutation_to_domain, node_owns_partition}
use rust_accelerator_no_sql.Worker.Pass.{
  owners_but, set_is_empty, set_contains, get_node_ids_curr_node_has_to_sync_the_partition_to,
  finish_partition, unconfirmed, remove_completed_syncs_and_obsolete_partitions, sync_partition,
  sync_partitions,
}
use rust_accelerator_no_sql.Store.Convergence.{write_all}
use rust_accelerator_no_sql.Worker.Pass.Retention.{sync_partitions_keeps_owned}
use rust_accelerator_no_sql.Worker.Pass.Obsolete.{busy_partition_dropped}
use rust_accelerator_no_sql.Worker.Pass.Journal.{resumes_after, finish_partition-keeps_changes}
use rust_accelerator_no_sql.Store.Snapshot.{copied}
use rust_accelerator_no_sql.Worker.Batch.Copy.{snapshot_arrives, merged}

abbrev me : Me
me = record { id = 3; host = ""; port = 9001 }

abbrev batch : List (Key × Mutation)
batch =
    (7, put_mutation (record { value = 1 ∷ []; expiration_time_ms = 50; creation_time_ms = 10 }))
    ∷ (4103, delete_mutation 30)
    ∷ []

abbrev copying : SyncState
copying = record {
  prev_max_key = none;
  curr_max_key = 4103;
  phase = snapshot 0;
  confirmed = false;
  last_start_time = 5;
}

abbrev seven : Partitions
seven = record {
  mapping = Map.insert Map.empty 7 (record { master = 3; replicas = add Map.empty 4 });
  old_replicas = Map.empty;
  new_replicas = Map.insert Map.empty 7 (add Map.empty 4);
}

abbrev owner : State
owner = record {
  epoch = some 7;
  elected_leader_id = some 1;
  nodes =
      Map.insert Map.empty 4
        (record { host = ""; port = 9001; last_heartbeat = 5; node_type = worker });
  partitions = seven;
  partitions_last_update_time = 5;
  sync = Map.empty;
  actual_nodes_sync_completion = Map.empty;
}

abbrev sender_store : RuntimeStore
sender_store = write (write new 7 (delete_mutation 30)) 4103 (delete_mutation 20)

snapshot_arrives_example :
    stored
      (apply_records new (
        map mutation_to_domain (
          copied
            (length (records_of sender_store (partition 7)).entries)
            sender_store
            (partition 7)
            2
            none)))
      7
    ≡ merged (stored sender_store 7) (stored new 7)
snapshot_arrives_example =
    snapshot_arrives (length (records_of sender_store (partition 7)).entries) sender_store new 1 7
      (omega arith)

batch-IsSorted : Entries.IsSorted batch
batch-IsSorted = ((omega arith, tt), (tt, tt))

batch-AreIn : AreIn 7 batch
unfolding partition
batch-AreIn = (refl, (refl, tt))

abbrev at_once : PartitionId → NodeId → Readings
at_once partition_id recipient_id = record { checked = 9; stamped = 10 }

owner_owns : node_owns_partition owner.partitions (partition 7) me.id ≡ true
unfolding partition node_owns_partition Map.get Map.insert Map.empty Entries.insert Entries.lookup
    add Map.contains_key
owner_owns = refl

sync_partitions_keeps_owned_example :
    stored (sync_partitions 8 owner (write_all new batch) me at_once).1 7
    ≡ stored (write_all new batch) 7
sync_partitions_keeps_owned_example =
    sync_partitions_keeps_owned 8 owner (write_all new batch) me at_once 7 owner_owns

-- Worker 3 has lost partition 7 to worker 4, while a client's write of it is under way.
abbrev lost : State
lost = record owner {
  partitions = record {
    mapping = Map.insert Map.empty 7 (record { master = 4; replicas = Map.empty });
    old_replicas = Map.insert Map.empty 7 (add Map.empty 3);
    new_replicas = Map.empty;
  };
}

abbrev busy : RuntimeStore
busy = record {
  cache = Map.insert Map.empty 7 (record {
    records = Map.insert Map.empty 7 (delete_mutation 30);
    changes = Map.empty;
    active_writers = 1;
    revision = 1;
  });
  next_revision = 1;
}

nothing_copied : Map.get lost.sync 7 ≡ none
unfolding Map.get Map.empty Entries.lookup
nothing_copied = refl

busy_unstable : stable_partition_revision busy 7 ≡ none
unfolding stable_partition_revision stable_revision stable_reads Map.get Map.insert Map.empty
    Entries.insert Entries.lookup
busy_unstable = refl

lost_owner : node_owns_partition lost.partitions 7 me.id ≡ false
unfolding node_owns_partition Map.get Map.insert Map.empty Entries.insert Entries.lookup
    Map.contains_key
lost_owner = refl

busy_partition_dropped_example :
    ((sync_partition lost busy me 7 (4 ∷ []) (at_once 7)).2 ≡ [])
    × (Map.get
          (remove_completed_syncs_and_obsolete_partitions
            (sync_partition lost busy me 7 (4 ∷ []) (at_once 7)).0
            (sync_partition lost busy me 7 (4 ∷ []) (at_once 7)).1
            me).1.cache
          7
        ≡ none)
busy_partition_dropped_example =
    busy_partition_dropped lost busy me 7 4 (at_once 7) nothing_copied busy_unstable lost_owner

abbrev one_copy : Map SyncState
one_copy = Map.insert Map.empty 4 copying

abbrev copier : State
copier = record owner { sync = Map.insert Map.empty 7 one_copy }

copier_copies : Map.get copier.sync 7 ≡ some one_copy
unfolding Map.get Map.insert Map.empty Entries.insert Entries.lookup
copier_copies = refl

copy_unconfirmed : Map.get (unconfirmed one_copy) 4 ≡ some copying
unfolding unconfirmed Map.get Map.insert Map.retain Map.empty Entries.insert Entries.lookup
    Entries.retain
copy_unconfirmed = refl

finish_partition-keeps_changes_example :
    get_partition_changes
      (finish_partition copier (write_all new batch) 7).1
      7
      (resumes_after copying.phase)
      16
    ≡ get_partition_changes (write_all new batch) 7 (resumes_after copying.phase) 16
finish_partition-keeps_changes_example =
    finish_partition-keeps_changes copier (write_all new batch) 7 4 one_copy copying
      (resumes_after copying.phase) 16 copier_copies copy_unconfirmed (omega arith)

four_is_recipient :
    Map.contains_key
      (get_node_ids_curr_node_has_to_sync_the_partition_to 7 me.id lost.partitions lost.nodes none)
      4
    ≡ true
unfolding get_node_ids_curr_node_has_to_sync_the_partition_to set_contains set_is_empty owners_but
    Map.get Map.insert Map.retain Map.empty Map.contains_key Entries.insert Entries.lookup
    Entries.retain Map.keys filter_set extend
four_is_recipient = refl
