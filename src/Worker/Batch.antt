-- ===== src/Worker/Batch.antt =====
-- crates/no-sql-store/src/worker/service/partitions.rs, `handle_sync_batch`: a batch that another
-- worker has sent is applied, and answered with the last key of each partition.
pub mod Replay
pub mod Copy
use rust_accelerator_no_sql.Map
use rust_accelerator_no_sql.Prelude.{
  ltb, inr, inl, ◌⊎◌, arith, refl, if◌then◌else◌, ◌∷◌, [], List, some, none, Option, false, true,
  Bool, ◌≡◌, ℕ,
}
use rust_accelerator_no_sql.Store.{put, partition, delete_at, Key, RuntimeStore}
use rust_accelerator_no_sql.Map.{Map}
use rust_accelerator_no_sql.Worker.{
  sync_batch_response, WorkerProtocol, SyncBatchRequest, BatchRecord,
}

unfoldable pub apply_record : RuntimeStore → BatchRecord → RuntimeStore
apply_record store r =
    if r.deleted
    then delete_at store r.key r.creation_time_ms
    else put store r.key (record {
      expiration_time_ms = r.ttl;
      creation_time_ms = r.creation_time_ms;
      value = r.value;
    })

unfoldable pub apply_records : RuntimeStore → List BatchRecord → RuntimeStore
apply_records store [] = store
apply_records store (r ∷ rest) = apply_records (apply_record store r) rest

unfoldable pub note_key : Map Key → Key → Map Key
note_key max_keys key = elim (Map.get max_keys (partition key)) [
  | none ↦ Map.insert max_keys (partition key) key
  | some known ↦ if ltb known key then Map.insert max_keys (partition key) key else max_keys
]

unfoldable pub max_applied_keys : Map Key → List BatchRecord → Map Key
max_applied_keys max_keys [] = max_keys
max_applied_keys max_keys (r ∷ rest) = max_applied_keys (note_key max_keys r.key) rest

unfoldable pub handle_sync_batch :
    RuntimeStore → SyncBatchRequest → RuntimeStore × List WorkerProtocol
handle_sync_batch store request = (
  apply_records store request.records,
  sync_batch_response request.sender_id (max_applied_keys Map.empty request.records) ∷ [],
)
