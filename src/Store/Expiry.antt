-- ===== src/Store/Expiry.antt =====
-- Expired records: what a read returns and removes, and what the background scan removes.
use rust_accelerator_no_sql.Map
use rust_accelerator_no_sql.Map.Entries
use rust_accelerator_no_sql.Prelude.{
  Bool-cases, ◌∙◌, add64, ◌+◌, Option-cases, ◌==◌, contains, inr, inl, arith, refl, if◌then◌else◌,
  ◌∷◌, [], List, some, none, Option, false, ◌≡◌, ℕ,
}
use rust_accelerator_no_sql.Store.{
  sweep_entry, partition, sweep_partition, Sweep, writer, remove_partition, PartitionStore, Key,
  drop_writer, remove_partition_if_empty, with_partition, is_expired, remove_expired,
  sweep_partitions, RuntimeStore, sweep_entries, expire_entry, get_versioned, Mutation,
}
use rust_accelerator_no_sql.Store.Lww.{stored}
use rust_accelerator_no_sql.Common.{PartitionId}

-- What is left of a stored mutation at the time `now`: a tombstone does not expire.
unfoldable pub live : ℕ → Option Mutation → Option Mutation
live now none = none
live now (some mutation) = if is_expired mutation now then none else some mutation

stored-with_partition :
    (store : RuntimeStore) (id : PartitionId) (p : PartitionStore) (revision : ℕ) (key : Key)
    → stored (record (with_partition store id p) { next_revision = revision }) key
      ≡ (if id == partition key then Map.get p.records key else stored store key)
unfolding stored with_partition
stored-with_partition store id p revision key =
    ground (arith, Map.get-insert store.cache id (partition key) p)

stored-remove_partition_if_empty :
    (store : RuntimeStore) (id : PartitionId) (key : Key)
    → stored (remove_partition_if_empty store id) key ≡ stored store key
unfolding stored remove_partition_if_empty remove_partition
stored-remove_partition_if_empty store id key = elim (Option-cases (Map.get store.cache id)) [
  | inl e ↦ ground (arith, e)
  | inr (p, e) ↦
      ground
        (arith, e, Map.get-remove store.cache id (partition key), Map.get-is_empty p.records key)
]

records-expire_entry :
    (p : PartitionStore) (revision : ℕ) (key j : Key)
    → Map.get (expire_entry p revision key).records j
      ≡ (if key == j then none else Map.get p.records j)
unfolding expire_entry drop_writer writer
records-expire_entry p revision key j = Map.get-remove p.records key j

get_versioned_removes :
    (store : RuntimeStore) (p : PartitionStore) (key j : Key) (revision : ℕ)
    → Map.get store.cache (partition key) ≡ some p
    → stored
        (remove_partition_if_empty
          (record (with_partition store (partition key) (expire_entry p revision key)) {
            next_revision = revision;
          })
          (partition key))
        j
      ≡ (if key == j then none else stored store j)
unfolding stored
get_versioned_removes store p key j revision e =
    stored-remove_partition_if_empty
      (record (with_partition store (partition key) (expire_entry p revision key)) {
        next_revision = revision;
      })
      (partition key) j
    ∙ (stored-with_partition store (partition key) (expire_entry p revision key) revision j
        ∙ ground (arith, e, records-expire_entry p revision key j))

-- A read returns the stored mutation, a tombstone too, unless it has expired: then it returns
-- nothing and removes the record. Whatever is read, every other key stays as it was.
pub get_versioned_lem :
    (store : RuntimeStore) (key j : Key) (now : ℕ)
    → ((get_versioned store key now).1 ≡ live now (stored store key))
      × (stored (get_versioned store key now).0 j
          ≡ (if key == j then live now (stored store key) else stored store j))
unfolding get_versioned live stored
get_versioned_lem store key j now = elim (Option-cases (Map.get store.cache (partition key))) [
  | inl e ↦ (ground (arith, e), ground (arith, e))
  | inr (p, e) ↦ elim (Option-cases (Map.get p.records key)) [
    | inl f ↦ (ground (arith, e, f), ground (arith, e, f))
    | inr (m, f) ↦ (
      ground (arith, e, f),
      elim (Bool-cases (is_expired m now)) [
        | inl expired ↦
            rw (e, f, expired, get_versioned)
              (get_versioned_removes store p key j (add64 store.next_revision 1) e
                ∙ ground (arith, expired, e, f))
        | inr kept ↦ ground (arith, e, f, kept)
      ],
    )
  ]
]

-- What the sweep of the entries `es` leaves of a key.
abbrev left_by : ℕ → Option Mutation → Option Mutation → Option Mutation
left_by now none kept = kept
left_by now (some m) kept = if is_expired m now then none else kept

records-sweep_entries :
    (es : List (Key × Mutation)) (s : Sweep) (now : ℕ) (j : Key)
    → Entries.IsSorted es
    → Map.get (sweep_entries s now es).swept.records j
      ≡ left_by now (Entries.lookup j es) (Map.get s.swept.records j)
unfolding sweep_entries Entries.lookup
records-sweep_entries [] s now j sorted = refl
records-sweep_entries ((key, m) ∷ es) s now j sorted = ground (
  arith,
  records-sweep_entries es (sweep_entry s now (key, m)) now j,
  records-expire_entry s.swept (add64 s.next_revision 1) key j,
  Entries.lookup_above key es,
)

swept_partition :
    (store : RuntimeStore) (now : ℕ) (id : PartitionId) (key : Key) (p : PartitionStore) (s : Sweep)
    → Map.get store.cache id ≡ some p
    → Map.get s.swept.records key
      ≡ left_by now (Entries.lookup key p.records.entries) (Map.get p.records key)
    → stored
        (remove_partition_if_empty
          (record (with_partition store id s.swept) { next_revision = s.next_revision })
          id)
        key
      ≡ (if id == partition key then live now (stored store key) else stored store key)
unfolding stored live Map.get
swept_partition store now id key p s e f =
    stored-remove_partition_if_empty
      (record (with_partition store id s.swept) { next_revision = s.next_revision }) id key
    ∙ (stored-with_partition store id s.swept s.next_revision key ∙ ground (arith, e, f))

stored-sweep_partition :
    (store : RuntimeStore) (now : ℕ) (id : PartitionId) (key : Key)
    → stored (sweep_partition store now id).0 key
      ≡ (if id == partition key then live now (stored store key) else stored store key)
unfolding sweep_partition stored live
stored-sweep_partition store now id key = elim (Option-cases (Map.get store.cache id)) [
  | inl e ↦ ground (arith, e)
  | inr (p, e) ↦
      rw (e, sweep_partition)
        (swept_partition store now id key p
          (sweep_entries (record { swept = p; next_revision = store.next_revision; removed = 0 })
            now p.records.entries)
          e
          (records-sweep_entries p.records.entries
            (record { swept = p; next_revision = store.next_revision; removed = 0 }) now key
            p.records.sorted))
]

stored-sweep_partitions :
    (ids : List PartitionId) (store : RuntimeStore) (now removed : ℕ) (key : Key)
    → stored (sweep_partitions store now ids removed).0 key
      ≡ (if contains ids (partition key) then live now (stored store key) else stored store key)
unfolding sweep_partitions live
stored-sweep_partitions [] store now removed key = refl
stored-sweep_partitions (id ∷ ids) store now removed key = ground (
  arith,
  stored-sweep_partitions ids (sweep_partition store now id).0 now
      (removed + (sweep_partition store now id).1) key,
  stored-sweep_partition store now id key,
)

stored_missing :
    (store : RuntimeStore) (key : Key)
    → Map.contains_key store.cache (partition key) ≡ false
    → stored store key ≡ none
unfolding stored Map.contains_key
stored_missing store key h = ground arith

-- After the scan every record that had expired is gone, from every partition, and every other
-- mutation is as it was.
pub stored-remove_expired :
    (store : RuntimeStore) (now : ℕ) (key : Key)
    → stored (remove_expired store now).0 key ≡ live now (stored store key)
unfolding remove_expired live
stored-remove_expired store now key = ground (
  arith,
  stored-sweep_partitions (Map.keys store.cache) store now 0 key,
  Map.contains-keys store.cache (partition key),
  stored_missing store key,
)
