-- ===== src/Worker/Batch/Copy.antt =====
-- A whole snapshot copied from one worker to another: the batches of the sender's partition, applied by
-- the receiver one after the other.
use rust_accelerator_no_sql.Map
use rust_accelerator_no_sql.Map.Entries
use rust_accelerator_no_sql.Prelude.{
  suc, inr, arith, inl, map, ◌==◌, Bool-cases, ◌≤◌, ◌≡◌, length, ap, ◌∙◌, refl, ℕ, List, [], ◌∷◌,
  Option, none, some,
}
use rust_accelerator_no_sql.Store.{RuntimeStore, Mutation, Key, partition, write}
use rust_accelerator_no_sql.Store.Lww.{
  stored, newer, stored-write, records_of, get-partition_or_default,
}
use rust_accelerator_no_sql.Store.Convergence.{write_all}
use rust_accelerator_no_sql.Worker.Batch.{apply_records}
use rust_accelerator_no_sql.Worker.Sync.{mutation_to_domain}
use rust_accelerator_no_sql.Store.Snapshot.{copied_is_complete, copied}
use rust_accelerator_no_sql.Worker.Batch.Replay.{apply_records-mutations}

-- What a receiver holds of a key, given what the sender has of it.
abbrev pub merged : Option Mutation → Option Mutation → Option Mutation
merged none old = old
merged (some m) old = some (newer old m)

write_all-sorted :
    (es : List (Key × Mutation)) (store : RuntimeStore) (j : Key)
    → Entries.IsSorted es
    → stored (write_all store es) j ≡ merged (Entries.lookup j es) (stored store j)
unfolding write_all Entries.lookup
write_all-sorted [] store j s = refl
write_all-sorted ((k, m) ∷ es) store j s =
    let later = write_all-sorted es (write store k m) j s.1 in
    elim (Bool-cases (k == j)) [
      | inl same ↦
          let e : k ≡ j = ground (arith, same) in
          let gone : Entries.lookup j es ≡ none = rw (← e) (Entries.lookup_above k es s.0) in
          later
          ∙ rw (gone, same)
              (stored-write store k j m ∙ rw same (ap (λ i. some (newer (stored store i) m)) e))
      | inr differ ↦
          later
          ∙ rw differ
              (ap (merged (Entries.lookup j es)) (stored-write store k j m ∙ rw differ refl))
    ]

-- After all the batches of a snapshot, of at least one mutation each, are received, the receiver holds
-- of each key of the partition the newer of what it had and of what the sender has; no more batches
-- are needed than the sender has records. So a receiver that had nothing holds what the sender holds.
pub snapshot_arrives :
    (fuel : ℕ) (sender receiver : RuntimeStore) (n : ℕ) (j : Key)
    → length (records_of sender (partition j)).entries ≤ fuel
    → stored
        (apply_records receiver
          (map mutation_to_domain (copied fuel sender (partition j) (suc n) none)))
        j
      ≡ merged (stored sender j) (stored receiver j)
unfolding Entries.lookup Map.get
snapshot_arrives fuel sender receiver n j enough =
    let records = records_of sender (partition j) in
    ap (λ s. stored s j)
      (apply_records-mutations (copied fuel sender (partition j) (suc n) none) receiver)
    ∙ ap (λ es. stored (write_all receiver es) j)
        (copied_is_complete fuel sender (partition j) n enough)
    ∙ write_all-sorted records.entries receiver j records.sorted
    ∙ ap (λ o. merged o (stored receiver j)) (get-partition_or_default sender j)
