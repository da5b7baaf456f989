-- ===== src/Worker/Batch/Replay.antt =====
-- What a received batch does to the store, and what its answer confirms.
use rust_accelerator_no_sql.Map
use rust_accelerator_no_sql.Map.Entries
use rust_accelerator_no_sql.Prelude.{
  sym, ap, ◌∙◌, unwrap_or, last, ◌<◌, map, All, arith, refl, ◌∷◌, [], List, some, none, Option,
  true, ◌≡◌,
}
use rust_accelerator_no_sql.Worker.Batch.{max_applied_keys, note_key, apply_records, apply_record}
use rust_accelerator_no_sql.Worker.Sync.{confirm, mutation_to_domain}
use rust_accelerator_no_sql.Common.{PartitionId}
use rust_accelerator_no_sql.Store.{
  write, delete_mutation, RuntimeStore, partition, put_mutation, delete_at, Mutation, put, Key,
}
use rust_accelerator_no_sql.Store.Convergence.{write_all}
use rust_accelerator_no_sql.Map.{Map}
use rust_accelerator_no_sql.Worker.{SyncState}

-- A mutation survives the trip: its record, applied, is the write of the mutation.
apply_record-mutation_to_domain :
    (store : RuntimeStore) (key : Key) (m : Mutation)
    → apply_record store (mutation_to_domain (key, m)) ≡ write store key m
unfolding apply_record mutation_to_domain put delete_at
apply_record-mutation_to_domain store key (put_mutation r) = refl
apply_record-mutation_to_domain store key (delete_mutation t) = refl

-- A worker that receives a batch holds what the sender's mutations, written one after the other,
-- would have left.
pub apply_records-mutations :
    (ms : List (Key × Mutation)) (store : RuntimeStore)
    → apply_records store (map mutation_to_domain ms) ≡ write_all store ms
unfolding apply_records write_all
apply_records-mutations [] store = refl
apply_records-mutations ((key, m) ∷ ms) store =
    ap (λ s. apply_records s (map mutation_to_domain ms))
      (apply_record-mutation_to_domain store key m)
    ∙ apply_records-mutations ms (write store key m)

key-mutation_to_domain : (key : Key) (m : Mutation) → (mutation_to_domain (key, m)).key ≡ key
unfolding mutation_to_domain
key-mutation_to_domain key (put_mutation r) = refl
key-mutation_to_domain key (delete_mutation t) = refl

-- Every key of the batch lies in the partition.
abbrev pub AreIn : PartitionId → List (Key × Mutation) → Type 0
AreIn id ms = All (λ e. partition e.0 ≡ id) ms

-- The key of the last mutation, or the one known before.
abbrev pub last_key : Option Key → List (Key × Mutation) → Option Key
last_key known [] = known
last_key known ((key, m) ∷ rest) = last_key (some key) rest

-- What is known lies below every key of the batch.
abbrev IsBelow : Option Key → List (Key × Mutation) → Type 0
IsBelow none ms = Unit
IsBelow (some known) ms = Entries.AllAbove known ms

abbrev KeyAbove : Option Key → Key → Type 0
KeyAbove none key = Unit
KeyAbove (some known) key = known < key

head_above :
    (known : Option Key) (key : Key) (m : Mutation) (ms : List (Key × Mutation))
    → IsBelow known ((key, m) ∷ ms)
    → KeyAbove known key
head_above none key m ms b = tt
head_above (some known) key m ms b = b.0

get-note_key :
    (max_keys : Map Key) (key : Key) (known : Option Key)
    → Map.get max_keys (partition key) ≡ known
    → KeyAbove known key
    → Map.get (note_key max_keys key) (partition key) ≡ some key
unfolding note_key
get-note_key max_keys key none e b =
    ground (arith, e, Map.get-insert max_keys (partition key) (partition key) key)
get-note_key max_keys key (some known) e b =
    ground (arith, e, Map.get-insert max_keys (partition key) (partition key) key)

max_applied_keys_from :
    (ms : List (Key × Mutation)) (max_keys : Map Key) (id : PartitionId) (known : Option Key)
    → Map.get max_keys id ≡ known
    → IsBelow known ms
    → Entries.IsSorted ms
    → AreIn id ms
    → Map.get (max_applied_keys max_keys (map mutation_to_domain ms)) id ≡ last_key known ms
unfolding max_applied_keys
max_applied_keys_from [] max_keys id known e b s a = e
max_applied_keys_from ((key, m) ∷ ms) max_keys id known e b s a =
    let noted : Map.get (note_key max_keys key) (partition key) ≡ some key =
      get-note_key max_keys key known (rw a.0 e) (head_above known key m ms b) in
    rw (key-mutation_to_domain key m)
      (max_applied_keys_from ms (note_key max_keys key) id (some key) (rw a.0 at noted) s.0 s.1 a.1)

last_key-last :
    (known : Option Key) (ms : List (Key × Mutation)) {e : Key × Mutation}
    → last ms ≡ some e
    → last_key known ms ≡ some e.0
last_key-last known [] h = ground arith
last_key-last known ((key, m) ∷ []) h = ground arith
last_key-last known ((key, m) ∷ next ∷ ms) h = last_key-last (some key) (next ∷ ms) h

-- The maximal keys noted of a batch of one partition, in ascending order of its keys, name the
-- batch's last key. A sender that holds that key as the current one has its copy confirmed by it.
pub answer_confirms :
    (ms : List (Key × Mutation)) (id : PartitionId) (s : SyncState) (e : Key × Mutation)
    → Entries.IsSorted ms
    → AreIn id ms
    → last ms ≡ some e
    → s.curr_max_key ≡ e.0
    → (Map.get (max_applied_keys Map.empty (map mutation_to_domain ms)) id ≡ some s.curr_max_key)
      × ((confirm s (
            unwrap_or
              (Map.get (max_applied_keys Map.empty (map mutation_to_domain ms)) id)
              0)).confirmed
          ≡ true)
unfolding confirm
answer_confirms ms id s e sorted inside l c =
    let named : Map.get (max_applied_keys Map.empty (map mutation_to_domain ms)) id
        ≡ some s.curr_max_key =
      max_applied_keys_from ms Map.empty id none (Map.get-empty {0} {V = Key} id) tt sorted inside
      ∙ (last_key-last none ms {e = e} l ∙ ap some (sym c)) in
    (named, ground (arith, named))
