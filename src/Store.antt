-- ===== src/Store.antt =====
-- crates/no-sql-store/src/worker/runtime_store.rs: the records of a worker, with the journal of
-- changes from which partitions are copied. `cache.entry(..).or_default()` holds the partition's
-- lock for the whole of `put` and `delete_at`, so each of the two is one step here.
pub mod Lww
pub mod Convergence
pub mod Journal
pub mod Expiry
pub mod Concurrent
pub mod Snapshot
pub mod Examples
use rust_accelerator_no_sql.Map
use rust_accelerator_no_sql.Prelude.{
  last, ◌^◌, map_option, unwrap_or, leb, take, ◌&&◌, ◌%◌, not, add64, ◌==◌, ◌-◌, ◌+◌, inr, inl, ◌⊎◌,
  arith, refl, if◌then◌else◌, ◌∷◌, [], List, some, none, Option, false, true, Bool, ◌≡◌, ℕ,
}
use rust_accelerator_no_sql.Map.{Map}
use rust_accelerator_no_sql.Common.{partitions_amount, PartitionId}

abbrev pub Key : Type 0
Key = ℕ

pub record Record : Type 0 where
  pub expiration_time_ms : ℕ
  pub creation_time_ms : ℕ
  pub value : List ℕ

pub data Mutation : Type 0 where
  put_mutation : Record → Mutation
  delete_mutation : (deletion_time_ms : ℕ) → Mutation

unfoldable pub version : Mutation → ℕ
version (put_mutation record_) = record_.creation_time_ms
version (delete_mutation deletion_time_ms) = deletion_time_ms

pub record PartitionStore : Type 0 where
  pub records : Map Mutation
  pub changes : Map Key
  pub active_writers : ℕ
  pub revision : ℕ

pub record RuntimeStore : Type 0 where
  pub cache : Map PartitionStore
  pub next_revision : ℕ

unfoldable pub default_partition : PartitionStore
default_partition = record {
  records = Map.empty;
  changes = Map.empty;
  active_writers = 0;
  revision = 0;
}

unfoldable pub new : RuntimeStore
new = record { cache = Map.empty; next_revision = 0 }

-- `Key::partition`, a `u16`.
unfoldable pub partition : Key → PartitionId
partition key = key % partitions_amount % 2 ^ 16

-- `PartitionStore::writer`.
unfoldable pub writer : PartitionStore → PartitionStore
writer p = record p { active_writers = p.active_writers + 1 }

-- What `WriterGuard::drop` does to the partition, given the revision that it has drawn.
unfoldable pub drop_writer : PartitionStore → ℕ → Option Key → PartitionStore
drop_writer p revision changed_key = record p {
  changes = elim changed_key [ none ↦ p.changes | some key ↦ Map.insert p.changes revision key ];
  revision = revision;
  active_writers = p.active_writers - 1;
}

-- The four readings of `stable_revision`, in their order.
unfoldable pub stable_reads : ℕ → ℕ → ℕ → ℕ → Option ℕ
stable_reads revision_before writers_before revision_after writers_after =
    if writers_before == 0
    then if revision_before == revision_after && writers_after == 0
      then some revision_after
      else none
    else none

-- The readings of a partition that nobody changes meanwhile.
unfoldable pub stable_revision : PartitionStore → Option ℕ
unfolding stable_reads
stable_revision p = stable_reads p.revision p.active_writers p.revision p.active_writers

unfoldable pub skip_through : Option Key → Map Mutation → List (Key × Mutation)
skip_through none records = records.entries
skip_through (some key) records = (Map.drop_through key records).entries

unfoldable pub get_partition_mutations :
    RuntimeStore → PartitionId → ℕ → Option Key → List (Key × Mutation)
get_partition_mutations store partition_id amount after_key =
    elim (Map.get store.cache partition_id) [
      | none ↦ []
      | some p ↦ take amount (skip_through after_key p.records)
    ]

unfoldable pub stable_partition_revision : RuntimeStore → PartitionId → Option ℕ
stable_partition_revision store partition_id = elim (Map.get store.cache partition_id) [
  | none ↦ some 0
  | some p ↦ stable_revision p
]

-- The records that the changed keys have now; a key that is gone is left out.
unfoldable pub current_records : Map Mutation → List (ℕ × Key) → List (Key × Mutation)
current_records records [] = []
current_records records ((_, key) ∷ changes) =
    let rest = current_records records changes in
    elim (Map.get records key) [ none ↦ rest | some mutation ↦ (key, mutation) ∷ rest ]

unfoldable pub change_batch : Map Mutation → List (ℕ × Key) → Option (ℕ × List (Key × Mutation))
change_batch records changes = elim (last changes) [
  | none ↦ none
  | some (revision, _) ↦ some (revision, current_records records changes)
]

unfoldable pub get_partition_changes :
    RuntimeStore → PartitionId → ℕ → ℕ → Option (ℕ × List (Key × Mutation))
get_partition_changes store partition_id after_revision amount =
    elim (Map.get store.cache partition_id) [
      | none ↦ none
      | some p ↦
          change_batch p.records (take amount (Map.drop_through after_revision p.changes).entries)
    ]

unfoldable pub with_partition : RuntimeStore → PartitionId → PartitionStore → RuntimeStore
with_partition store partition_id p = record store { cache = Map.insert store.cache partition_id p }

unfoldable pub prune_partition_changes : RuntimeStore → PartitionId → ℕ → RuntimeStore
prune_partition_changes store partition_id through_revision =
    elim (Map.get store.cache partition_id) [
      | none ↦ store
      | some p ↦
          with_partition store partition_id
            (record p { changes = Map.drop_through through_revision p.changes })
    ]

unfoldable pub remove_partition : RuntimeStore → PartitionId → RuntimeStore
remove_partition store partition_id = record store { cache = Map.remove store.cache partition_id }

unfoldable pub remove_partition_if_empty : RuntimeStore → PartitionId → RuntimeStore
remove_partition_if_empty store partition_id = elim (Map.get store.cache partition_id) [
  | none ↦ store
  | some p ↦ if Map.is_empty p.records then remove_partition store partition_id else store
]

-- `compare_insert`: the mutation is stored unless a later version is there.
unfoldable pub compare_insert : Map Mutation → Key → Mutation → Map Mutation
compare_insert records key mutation = elim (Map.get records key) [
  | none ↦ Map.insert records key mutation
  | some old ↦
      if leb (version old) (version mutation) then Map.insert records key mutation else records
]

-- `cache.entry(partition).or_default()`.
unfoldable pub partition_or_default : RuntimeStore → PartitionId → PartitionStore
partition_or_default store partition_id =
    unwrap_or (Map.get store.cache partition_id) default_partition

-- What `put` and `delete_at` share: the writer, the insertion and the writer's end.
unfoldable pub write : RuntimeStore → Key → Mutation → RuntimeStore
write store key mutation =
    let begun = writer (partition_or_default store (partition key)) in
    let written = record begun { records = compare_insert begun.records key mutation } in
    let revision = add64 store.next_revision 1 in
    record (with_partition store (partition key) (drop_writer written revision (some key))) {
      next_revision = revision;
    }

unfoldable pub put : RuntimeStore → Key → Record → RuntimeStore
put store key record_ = write store key (put_mutation record_)

unfoldable pub delete_at : RuntimeStore → Key → ℕ → RuntimeStore
delete_at store key deletion_time_ms = write store key (delete_mutation deletion_time_ms)

unfoldable pub is_expired : Mutation → ℕ → Bool
is_expired (put_mutation r) now = not (r.expiration_time_ms == 0) && leb r.expiration_time_ms now
is_expired (delete_mutation deletion_time_ms) now = false

-- The removal of an expired entry, by a writer that changes no key.
unfoldable pub expire_entry : PartitionStore → ℕ → Key → PartitionStore
expire_entry p revision key =
    let begun = writer p in
    drop_writer (record begun { records = Map.remove begun.records key }) revision none

unfoldable pub get_versioned : RuntimeStore → Key → ℕ → RuntimeStore × Option Mutation
get_versioned store key now = elim (Map.get store.cache (partition key)) [
  | none ↦ (store, none)
  | some p ↦ elim (Map.get p.records key) [
    | none ↦ (store, none)
    | some mutation ↦
        if is_expired mutation now
        then (
          remove_partition_if_empty
              (record (with_partition store (partition key)
                (expire_entry p (add64 store.next_revision 1) key)) {
                  next_revision = add64 store.next_revision 1;
                })
              (partition key),
          none,
        )
        else (store, some mutation)
  ]
]

-- The loop of `remove_expired` over the entries of a partition.
pub record Sweep : Type 0 where
  pub swept : PartitionStore
  pub next_revision : ℕ
  pub removed : ℕ

unfoldable pub sweep_entry : Sweep → ℕ → Key × Mutation → Sweep
sweep_entry s now (key, mutation) =
    if is_expired mutation now
    then record {
      swept = expire_entry s.swept (add64 s.next_revision 1) key;
      next_revision = add64 s.next_revision 1;
      removed = s.removed + 1;
    }
    else s

unfoldable pub sweep_entries : Sweep → ℕ → List (Key × Mutation) → Sweep
unfolding sweep_entry
sweep_entries s now [] = s
sweep_entries s now (entry ∷ entries) = sweep_entries (sweep_entry s now entry) now entries

unfoldable pub sweep_partition : RuntimeStore → ℕ → PartitionId → RuntimeStore × ℕ
unfolding sweep_entries
sweep_partition store now partition_id = elim (Map.get store.cache partition_id) [
  | none ↦ (store, 0)
  | some p ↦
      let s =
        sweep_entries (record { swept = p; next_revision = store.next_revision; removed = 0 }) now
          p.records.entries in
      (
        remove_partition_if_empty
            (record (with_partition store partition_id s.swept) { next_revision = s.next_revision })
            partition_id,
        s.removed,
      )
]

unfoldable pub sweep_partitions : RuntimeStore → ℕ → List PartitionId → ℕ → RuntimeStore × ℕ
unfolding sweep_partition
sweep_partitions store now [] removed = (store, removed)
sweep_partitions store now (partition_id ∷ ids) removed =
    let (store', count) = sweep_partition store now partition_id in
    sweep_partitions store' now ids (removed + count)

unfoldable pub remove_expired : RuntimeStore → ℕ → RuntimeStore × ℕ
unfolding sweep_partitions
remove_expired store now = sweep_partitions store now (Map.keys store.cache) 0
