-- ===== src/Worker/Sync.antt =====
-- crates/no-sql-store/src/worker/service/partitions.rs: copying partitions to their new owners. A
-- step takes the readings of the clock that it makes.
use rust_accelerator_no_sql.Map
use rust_accelerator_no_sql.Prelude.{
  zero, last, sub64, is_some, option_eq, unwrap_or, map_option, map, ltb, ◌||◌, ◌+◌, max, suc, ◌==◌,
  if◌then◌else◌, ◌∷◌, [], List, some, none, Option, false, true, Bool, ℕ,
}
use rust_accelerator_no_sql.Worker.{
  snapshot, changes, sync_batch, BatchRecord, WorkerProtocol, State, SyncState,
}
use rust_accelerator_no_sql.Map.{Map}
use rust_accelerator_no_sql.Store.{
  delete_mutation, get_partition_changes, put_mutation, stable_partition_revision,
  get_partition_mutations, Mutation, RuntimeStore, Key,
}
use rust_accelerator_no_sql.Common.{Me, PartitionId, Partitions, NodeId}

abbrev pub sync_timeout_ms : ℕ
sync_timeout_ms = 60000

abbrev pub sync_batch_size : ℕ
sync_batch_size = 1000

-- The recipient's answer confirms a copy if it names the copy's last key.
unfoldable pub confirm : SyncState → Key → SyncState
confirm s max_applied_key =
    if s.curr_max_key == max_applied_key then record s { confirmed = true } else s

unfoldable pub confirm_partition :
    Map (Map SyncState) → NodeId → PartitionId × Key → Map (Map SyncState)
confirm_partition sync sender_id (partition_id, max_applied_key) =
    elim (Map.get sync partition_id) [
      | none ↦ sync
      | some states ↦ elim (Map.get states sender_id) [
        | none ↦ sync
        | some s ↦
            Map.insert sync partition_id (Map.insert states sender_id (confirm s max_applied_key))
      ]
    ]

unfoldable pub confirm_all :
    Map (Map SyncState) → NodeId → List (PartitionId × Key) → Map (Map SyncState)
confirm_all sync sender_id [] = sync
confirm_all sync sender_id (entry ∷ entries) =
    confirm_all (confirm_partition sync sender_id entry) sender_id entries

unfoldable pub handle_sync_batch_response : State → Map Key → NodeId → State
handle_sync_batch_response state partition_id_to_max_applied_key sender_id = record state {
  sync = confirm_all state.sync sender_id partition_id_to_max_applied_key.entries;
}

unfoldable pub mutation_to_domain : Key × Mutation → BatchRecord
mutation_to_domain (key, put_mutation r) = record {
  key = key;
  value = r.value;
  ttl = r.expiration_time_ms;
  creation_time_ms = r.creation_time_ms;
  deleted = false;
}
mutation_to_domain (key, delete_mutation deletion_time_ms) = record {
  key = key;
  value = [];
  ttl = 0;
  creation_time_ms = deletion_time_ms;
  deleted = true;
}

unfoldable pub batch_message : NodeId → Me → List (Key × Mutation) → WorkerProtocol
batch_message recipient me mutations =
    sync_batch recipient (record { sender_id = me.id; records = map mutation_to_domain mutations })

-- The function `sync_batch`: the last key of the batch that is sent, if there is one to send.
unfoldable pub send_batch :
    RuntimeStore → NodeId → PartitionId → Option Key → Me → Option (Key × WorkerProtocol)
send_batch store recipient partition_id after_key me =
    let mutations = get_partition_mutations store partition_id sync_batch_size after_key in
    map_option (λ entry. (entry.0, batch_message recipient me mutations)) (last mutations)

-- `while` no record of the changes is left: the next changes. With fuel; `none` also when it is used up.
unfoldable pub next_changes :
    ℕ → RuntimeStore → PartitionId → ℕ → Option (ℕ × List (Key × Mutation))
next_changes zero store partition_id cursor = none
next_changes (suc fuel) store partition_id cursor =
    elim (get_partition_changes store partition_id cursor sync_batch_size) [
      | none ↦ none
      | some (last_revision, records) ↦ elim records [
        | [] ↦ next_changes fuel store partition_id last_revision
        | r ∷ rest ↦ some (last_revision, r ∷ rest)
      ]
    ]

-- Each turn passes at least one entry of the journal, so their number is enough fuel.
unfoldable pub journal_length : RuntimeStore → PartitionId → ℕ
journal_length store partition_id = elim (Map.get store.cache partition_id) [
  | none ↦ 0
  | some p ↦ Map.len p.changes
]

unfoldable pub max_key : List (Key × Mutation) → Option Key
max_key [] = none
max_key ((key, _) ∷ rest) = some (max key (unwrap_or (max_key rest) key))

unfoldable pub sync_change_batch :
    RuntimeStore → NodeId → PartitionId → ℕ → Me → Option (ℕ × Key × WorkerProtocol)
sync_change_batch store recipient partition_id after_revision me =
    elim (next_changes (journal_length store partition_id + 1) store partition_id after_revision) [
      | none ↦ none
      | some (last_revision, records) ↦
          map_option (λ key. (last_revision, key, batch_message recipient me records))
            (max_key records)
    ]

unfoldable pub node_owns_partition : Partitions → PartitionId → NodeId → Bool
node_owns_partition partitions partition_id node_id =
    elim (Map.get partitions.mapping partition_id) [
      | none ↦ false
      | some p ↦ p.master == node_id || Map.contains_key p.replicas node_id
    ]

-- What a step of a copy leaves: the recipient's state, messages, and whether the copy is complete.
abbrev pub Progress : Type 0
Progress = Option SyncState × List WorkerProtocol × Bool

unfoldable pub start_sync : RuntimeStore → Me → PartitionId → NodeId → ℕ → Progress
start_sync store me partition_id recipient_id now =
    elim (stable_partition_revision store partition_id) [
      | none ↦ (none, [], false)
      | some start_revision ↦ elim (send_batch store recipient_id partition_id none me) [
        | some (curr_max_key, batch) ↦ (
          some (record {
            prev_max_key = none;
            curr_max_key = curr_max_key;
            phase = snapshot start_revision;
            confirmed = false;
            last_start_time = now;
          }),
          batch ∷ [],
          false,
        )
        | none ↦ (
          none,
          [],
          option_eq (stable_partition_revision store partition_id) (some start_revision),
        )
      ]
    ]

unfoldable pub continue_changes :
    SyncState → RuntimeStore → Me → PartitionId → NodeId → ℕ → ℕ → Progress
continue_changes s store me partition_id recipient_id confirmed_revision now =
    elim (sync_change_batch store recipient_id partition_id confirmed_revision me) [
      | some (pending_revision, curr_max_key, batch) ↦ (
        some (record {
          prev_max_key = none;
          curr_max_key = curr_max_key;
          phase = changes confirmed_revision pending_revision;
          confirmed = false;
          last_start_time = now;
        }),
        batch ∷ [],
        false,
      )
      | none ↦
          if is_some (stable_partition_revision store partition_id)
          then (some (record s { confirmed = true }), [], true)
          else (some s, [], false)
    ]

unfoldable pub continue_snapshot :
    SyncState → RuntimeStore → Me → PartitionId → NodeId → ℕ → ℕ → Progress
continue_snapshot s store me partition_id recipient_id revision now =
    elim (send_batch store recipient_id partition_id (some s.curr_max_key) me) [
      | some (new_max_key, batch) ↦ (
        some (record s {
          prev_max_key = some s.curr_max_key;
          curr_max_key = new_max_key;
          confirmed = false;
          last_start_time = now;
        }),
        batch ∷ [],
        false,
      )
      | none ↦ continue_changes s store me partition_id recipient_id revision now
    ]

unfoldable pub continue_confirmed_sync :
    SyncState → RuntimeStore → Me → PartitionId → NodeId → ℕ → Progress
continue_confirmed_sync s store me partition_id recipient_id now = elim s.phase [
  | snapshot revision ↦ continue_snapshot s store me partition_id recipient_id revision now
  | changes confirmed_revision pending_revision ↦
      continue_changes s store me partition_id recipient_id pending_revision now
]

-- The batch that is sent once more when the recipient has been silent for too long.
unfoldable pub retried_batch :
    SyncState → RuntimeStore → Me → PartitionId → NodeId → Option (Key × WorkerProtocol)
retried_batch s store me partition_id recipient_id = elim s.phase [
  | snapshot revision ↦ send_batch store recipient_id partition_id s.prev_max_key me
  | changes confirmed_revision pending_revision ↦
      elim (sync_change_batch store recipient_id partition_id confirmed_revision me) [
        | none ↦ none
        | some (_, key, batch) ↦ some (key, batch)
      ]
]

unfoldable pub retry_timed_out_sync :
    SyncState → RuntimeStore → Me → PartitionId → NodeId → ℕ → ℕ → SyncState × List WorkerProtocol
retry_timed_out_sync s store me partition_id recipient_id checked now =
    if ltb (sub64 checked s.last_start_time) sync_timeout_ms
    then (s, [])
    else elim (retried_batch s store me partition_id recipient_id) [
      | none ↦ (s, [])
      | some (new_max_key, batch) ↦ (
        record s { curr_max_key = new_max_key; confirmed = false; last_start_time = now },
        batch ∷ [],
      )
    ]

-- The two readings of the clock in one recipient's step: the time-out's check, and the stamp.
pub record Readings : Type 0 where
  pub checked : ℕ
  pub stamped : ℕ

unfoldable pub sync_partition_to_recipient :
    Option SyncState → RuntimeStore → Me → PartitionId → NodeId → Readings → Progress
sync_partition_to_recipient none store me partition_id recipient_id t =
    start_sync store me partition_id recipient_id t.stamped
sync_partition_to_recipient (some s) store me partition_id recipient_id t =
    if s.confirmed
    then continue_confirmed_sync s store me partition_id recipient_id t.stamped
    else (
      some (retry_timed_out_sync s store me partition_id recipient_id t.checked t.stamped).0,
      (retry_timed_out_sync s store me partition_id recipient_id t.checked t.stamped).1,
      false,
    )
