-- ===== src/Store/Journal.antt =====
-- The revisions of the journal, and what pruning it leaves.
use rust_accelerator_no_sql.Map
use rust_accelerator_no_sql.Prelude.{
  ◌==◌, Bool-cases, u64_mod, add64, ◌<◌, ◌+◌, ◌≤◌, Option-cases, inr, inl, arith, refl, some, ◌≡◌,
  ℕ,
}
use rust_accelerator_no_sql.Common.{PartitionId}
use rust_accelerator_no_sql.Store.{
  compare_insert, partition, Mutation, prune_partition_changes, with_partition, writer, Key,
  PartitionStore, get_partition_changes, write, drop_writer, partition_or_default,
  default_partition, RuntimeStore,
}
use rust_accelerator_no_sql.Store.Lww.{stored, get-compare_insert}

-- What holds of a partition `id` while the revisions drawn so far are at most `bound`.
pub record IsJournalled (id : PartitionId) (bound : ℕ) (p : PartitionStore) : Type 0 where
  pub idle : p.active_writers ≡ 0
  pub revised : p.revision ≤ bound
  pub journal :
      (r : ℕ) (key : Key) → Map.get p.changes r ≡ some key → (r ≤ p.revision) × (partition key ≡ id)
  pub placed : (key : Key) (m : Mutation) → Map.get p.records key ≡ some m → partition key ≡ id

abbrev pub IsConsistent : RuntimeStore → Type 0
IsConsistent store =
    (id : PartitionId) (p : PartitionStore)
    → Map.get store.cache id ≡ some p
    → IsJournalled id store.next_revision p

pub default-IsJournalled : (id : PartitionId) (bound : ℕ) → IsJournalled id bound default_partition
unfolding default_partition
default-IsJournalled id bound = record {
  idle = refl;
  revised = omega arith;
  journal = λ r key h. absurd (ground (arith, Map.get-empty {0} {V = Key} r));
  placed = λ key m h. absurd (ground (arith, Map.get-empty {0} {V = Mutation} key));
}

or_default-IsJournalled :
    (store : RuntimeStore) (id : PartitionId)
    → IsConsistent store
    → IsJournalled id store.next_revision (partition_or_default store id)
unfolding partition_or_default
or_default-IsJournalled store id c = elim (Option-cases (Map.get store.cache id)) [
  | inl e ↦ rw e (default-IsJournalled id store.next_revision)
  | inr (p, e) ↦ rw e (c id p e)
]

weaken-IsJournalled :
    (id : PartitionId) (bound bound' : ℕ) (p : PartitionStore)
    → bound ≤ bound'
    → IsJournalled id bound p
    → IsJournalled id bound' p
weaken-IsJournalled id bound bound' p h j = record {
  idle = j.idle;
  revised = omega arith;
  journal = j.journal;
  placed = j.placed;
}

-- The partition that a write leaves.
abbrev pub written_partition : RuntimeStore → Key → Mutation → PartitionStore
written_partition store key mutation =
    drop_writer
      (record (writer (partition_or_default store (partition key))) {
        records = compare_insert (partition_or_default store (partition key)).records key mutation;
      })
      (add64 store.next_revision 1) (some key)

next_lt :
    (store : RuntimeStore)
    → store.next_revision + 1 < u64_mod
    → add64 store.next_revision 1 ≡ store.next_revision + 1
next_lt store b = omega arith

written-IsJournalled :
    (store : RuntimeStore) (key : Key) (mutation : Mutation)
    → store.next_revision + 1 < u64_mod
    → IsJournalled (partition key) store.next_revision (partition_or_default store (partition key))
    → IsJournalled (partition key) (store.next_revision + 1) (written_partition store key mutation)
unfolding drop_writer writer
written-IsJournalled store key mutation b j = record {
  idle = omega (arith, j.idle);
  revised = omega arith;
  journal = λ r k h. ground (
    arith,
    next_lt store b,
    j.journal r k,
    Map.get-insert (partition_or_default store (partition key)).changes
        (add64 store.next_revision 1) r key,
  );
  placed = λ k m h. ground (
    arith,
    j.placed k m,
    get-compare_insert (partition_or_default store (partition key)).records key k mutation,
  );
}

cached :
    (store : RuntimeStore) (key : Key) (id : PartitionId) (p' p : PartitionStore)
    → store.next_revision + 1 < u64_mod
    → IsConsistent store
    → IsJournalled (partition key) (store.next_revision + 1) p'
    → Map.get (Map.insert store.cache (partition key) p') id ≡ some p
    → IsJournalled id (store.next_revision + 1) p
cached store key id p' p b c ok h = elim (Bool-cases (partition key == id)) [
  | inl same ↦
      let e : id ≡ partition key = ground arith in
      let found : p ≡ p' = ground (arith, Map.get-insert store.cache (partition key) id p') in
      rw (found, e) ok
  | inr differ ↦
      weaken-IsJournalled id store.next_revision (store.next_revision + 1) p (omega arith)
        (c id p (ground (arith, Map.get-insert store.cache (partition key) id p')))
]

written_key :
    (store : RuntimeStore) (key : Key) (mutation : Mutation)
    → store.next_revision + 1 < u64_mod
    → Map.get (written_partition store key mutation).changes (store.next_revision + 1) ≡ some key
unfolding drop_writer writer
written_key store key mutation b = ground (
  arith,
  next_lt store b,
  Map.get-insert (partition_or_default store (partition key)).changes (add64 store.next_revision 1)
      (store.next_revision + 1) key,
)

-- While the revisions do not wrap round, a write keeps every partition consistent: no writer is
-- left, no journalled revision lies above the partition's, and records and journal hold keys of the
-- partition only. It draws the next revision, under which the journal has its key.
pub write-IsConsistent :
    (store : RuntimeStore) (key : Key) (mutation : Mutation)
    → store.next_revision + 1 < u64_mod
    → IsConsistent store
    → IsConsistent (write store key mutation)
      × ((p : PartitionStore) × (Map.get (write store key mutation).cache (partition key) ≡ some p)
          × (p.revision ≡ store.next_revision + 1)
          × (Map.get p.changes (store.next_revision + 1) ≡ some key))
unfolding write with_partition partition_or_default writer
write-IsConsistent store key mutation b c =
    let p' : PartitionStore = written_partition store key mutation in
    let ok : IsJournalled (partition key) (store.next_revision + 1) p' =
      written-IsJournalled store key mutation b (or_default-IsJournalled store (partition key) c) in
    (
      λ id p h. rw (next_lt store b) (cached store key id p' p b c ok h),
      (
        p',
        ground (arith, Map.get-insert store.cache (partition key) (partition key) p'),
        unfold drop_writer in next_lt store b,
        written_key store key mutation b,
      ),
    )

-- Pruning the journal through a revision loses nothing for a reader that asks from that revision
-- on, and no record.
pub get_partition_changes-prune :
    (store : RuntimeStore) (id : PartitionId) (through after amount : ℕ) (key : Key)
    → through ≤ after
    → (get_partition_changes (prune_partition_changes store id through) id after amount
        ≡ get_partition_changes store id after amount)
      × (stored (prune_partition_changes store id through) key ≡ stored store key)
unfolding get_partition_changes prune_partition_changes with_partition stored
get_partition_changes-prune store id through after amount key h =
    elim (Option-cases (Map.get store.cache id)) [
      | inl e ↦ (ground (arith, e), ground (arith, e))
      | inr (p, e) ↦
          let pruned : PartitionStore = record p { changes = Map.drop_through through p.changes } in
          (
            ground (
              arith,
              e,
              Map.get-insert store.cache id id pruned,
              Map.drop_through-entries through after p.changes h,
            ),
            ground (arith, e, Map.get-insert store.cache id (partition key) pruned),
          )
    ]
