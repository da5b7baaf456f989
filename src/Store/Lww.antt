-- ===== src/Store/Lww.antt =====
-- The store as a map from keys to mutations, of which the newer by version is kept.
use rust_accelerator_no_sql.Map
use rust_accelerator_no_sql.Prelude.{
  OptionLe-refl, Bool-cases, map_option, add64, ◌≢◌, OptionLe, Option-cases, ◌==◌, leb, inr, inl,
  ◌⊎◌, arith, if◌then◌else◌, some, none, Option, ◌≡◌,
}
use rust_accelerator_no_sql.Store.{
  with_partition, writer, version, partition, drop_writer, default_partition, Key, write,
  partition_or_default, compare_insert, Mutation, RuntimeStore,
}
use rust_accelerator_no_sql.Map.{Map}
use rust_accelerator_no_sql.Common.{PartitionId}

-- The mutation that the store holds for a key, expired or not.
unfoldable pub stored : RuntimeStore → Key → Option Mutation
stored store key = elim (Map.get store.cache (partition key)) [
  | none ↦ none
  | some p ↦ Map.get p.records key
]

-- The winner of an old mutation, if there is one, and a new one: an equal version goes to the new.
unfoldable pub newer : Option Mutation → Mutation → Mutation
newer none mutation = mutation
newer (some old) mutation = if leb (version old) (version mutation) then mutation else old

pub get-compare_insert :
    (records : Map Mutation) (key j : Key) (mutation : Mutation)
    → Map.get (compare_insert records key mutation) j
      ≡ (if key == j then some (newer (Map.get records key) mutation) else Map.get records j)
unfolding compare_insert newer
get-compare_insert records key j mutation = elim (Option-cases (Map.get records key)) [
  | inl e ↦ ground (arith, e, Map.get-insert records key j mutation)
  | inr (old, e) ↦ ground (arith, e, Map.get-insert records key j mutation)
]

pub get-partition_or_default :
    (store : RuntimeStore) (key : Key)
    → Map.get (partition_or_default store (partition key)).records key ≡ stored store key
unfolding partition_or_default stored default_partition
get-partition_or_default store key = ground (arith, Map.get-empty {0} {V = Mutation} key)

-- The records of a partition, none if the store does not have it.
abbrev pub records_of : RuntimeStore → PartitionId → Map Mutation
records_of store p = (partition_or_default store p).records

pub records_of-write :
    (store : RuntimeStore) (key : Key) (mutation : Mutation) (q : PartitionId)
    → records_of (write store key mutation) q ≡ (
        if partition key == q
        then compare_insert (records_of store (partition key)) key mutation
        else records_of store q)
unfolding write drop_writer writer with_partition partition_or_default
records_of-write store key mutation q = ground (
  arith,
  Map.get-insert store.cache (partition key) q (
      drop_writer
        (record (writer (partition_or_default store (partition key))) {
          records = compare_insert (records_of store (partition key)) key mutation;
        })
        (add64 store.next_revision 1) (some key)),
)

-- A write decides its own key by version and leaves every other key as it was, in whatever
-- partition that lies.
pub stored-write :
    (store : RuntimeStore) (key j : Key) (mutation : Mutation)
    → stored (write store key mutation) j
      ≡ (if key == j then some (newer (stored store key) mutation) else stored store j)
stored-write store key j mutation = ground (
  arith,
  get-partition_or_default (write store key mutation) j,
  get-partition_or_default store j,
  get-partition_or_default store key,
  records_of-write store key mutation (partition j),
  get-compare_insert (records_of store (partition key)) key j mutation,
)

version-newer :
    (o : Option Mutation) (mutation : Mutation)
    → OptionLe (map_option version o) (some (version (newer o mutation)))
unfolding newer
version-newer none mutation = tt
version-newer (some old) mutation = ground arith

pub newer-le :
    (o : Option Mutation) (mutation : Mutation)
    → OptionLe (some (version mutation)) (some (version (newer o mutation)))
unfolding newer
newer-le none mutation = omega arith
newer-le (some old) mutation = ground arith

newer_comm :
    (o : Option Mutation) (m m' : Mutation)
    → version m ≢ version m'
    → newer (some (newer o m)) m' ≡ newer (some (newer o m')) m
unfolding newer
newer_comm none m m' apart = ground (arith, apart)
newer_comm (some old) m m' apart = ground (arith, apart)

-- A write never takes the version of any key back.
pub version-write :
    (store : RuntimeStore) (key j : Key) (mutation : Mutation)
    → OptionLe
        (map_option version (stored store j))
        (map_option version (stored (write store key mutation) j))
unfolding newer
version-write store key j mutation =
    rw (stored-write store key j mutation) (elim (Bool-cases (key == j)) [
      | inl same ↦
          let e : key ≡ j = ground arith in
          rw (same, ← e) (version-newer (stored store key) mutation)
      | inr differ ↦ rw differ (OptionLe-refl (map_option version (stored store j)))
    ])

-- A mutation that is written twice in a row leaves what it left the first time.
pub write_twice :
    (store : RuntimeStore) (key j : Key) (mutation : Mutation)
    → stored (write (write store key mutation) key mutation) j ≡ stored (write store key mutation) j
unfolding newer
write_twice store key j mutation = ground (
  arith,
  stored-write (write store key mutation) key j mutation,
  stored-write store key j mutation,
  stored-write store key key mutation,
)

-- Two mutations of different keys or versions end in the same records in either order.
pub write_comm :
    (store : RuntimeStore) (key key' j : Key) (m m' : Mutation)
    → (key ≢ key') ⊎ (version m ≢ version m')
    → stored (write (write store key m) key' m') j ≡ stored (write (write store key' m') key m) j
write_comm store key key' j m m' (inl keys) = ground (
  arith,
  keys,
  stored-write (write store key m) key' j m',
  stored-write store key j m,
  stored-write store key key' m,
  stored-write (write store key' m') key j m,
  stored-write store key' j m',
  stored-write store key' key m',
)
write_comm store key key' j m m' (inr versions) = ground (
  arith,
  newer_comm (stored store key) m m' versions,
  stored-write (write store key m) key' j m',
  stored-write store key j m,
  stored-write store key key' m,
  stored-write (write store key' m') key j m,
  stored-write store key' j m',
  stored-write store key' key m',
)
