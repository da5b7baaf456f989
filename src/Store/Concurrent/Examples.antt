-- ===== src/Store/Concurrent/Examples.antt =====
-- Two threads on one partition.
use rust_accelerator_no_sql.Map
use rust_accelerator_no_sql.Prelude.{◌<◌, arith, ◌⊎◌, ◌≤◌, ◌≡◌, List, ℕ, refl, ◌∷◌, [], some, none}
use rust_accelerator_no_sql.Store.{
  RuntimeStore, compare_insert, is_expired, Key, Mutation, put_mutation, delete_mutation,
  default_partition, new, write,
}
use rust_accelerator_no_sql.Store.Journal.{default-IsJournalled}
use rust_accelerator_no_sql.Store.Concurrent.{
  answered, phase_at, Action, advance_thread, look_up, read_revision, write_key, run, step,
}
use rust_accelerator_no_sql.Store.Concurrent.Safety.{start, stable_revision_covers}
use rust_accelerator_no_sql.Store.Concurrent.Records.{IsAccounted, records-IsAccounted}

abbrev fleeting : Mutation
fleeting = put_mutation (record { expiration_time_ms = 50; creation_time_ms = 10; value = [] })

-- A write, and an expiry that overlaps the readings of a stable revision without being counted
-- when they look.
abbrev overlapping : List Action
overlapping =
    write_key 1 fleeting
    ∷ look_up 0 1 60
    ∷ read_revision 1
    ∷ advance_thread 1
    ∷ advance_thread 0
    ∷ advance_thread 0
    ∷ advance_thread 0
    ∷ advance_thread 0
    ∷ advance_thread 1
    ∷ advance_thread 0
    ∷ []

abbrev afterwards : List Action
afterwards = write_key 1 (delete_mutation 70) ∷ []

-- The revision has moved between the first reading and the third, so the reader is told nothing.
told_nothing :
    phase_at 1 (step (run (start default_partition 0 2) overlapping) (advance_thread 1)).threads
    ≡ answered none
unfolding run default_partition Map.get compare_insert Map.empty Map.insert is_expired
told_nothing = refl

-- Without the expiry it is told the revision of the write.
abbrev quiet : List Action
quiet = write_key 1 fleeting ∷ read_revision 1 ∷ advance_thread 1 ∷ advance_thread 1 ∷ []

told_quiet :
    phase_at 1 (step (run (start default_partition 0 2) quiet) (advance_thread 1)).threads
    ≡ answered (some 1)
unfolding run default_partition Map.get compare_insert Map.empty Map.insert is_expired
told_quiet = refl

stable_revision_covers_example :
    ((run (start default_partition 0 2) quiet).shared.active_writers ≡ 0)
    × ((r : ℕ) (key : Key)
        → Map.get (run (start default_partition 0 2) quiet).shared.changes r ≡ some key
        → r ≤ 1)
    × ((r : ℕ) (key : Key)
        → Map.get
            (run
              (step (run (start default_partition 0 2) quiet) (advance_thread 1))
              afterwards).shared.changes
            r
          ≡ some key
        → (Map.get (run (start default_partition 0 2) quiet).shared.changes r ≡ some key) ⊎ (1 < r))
unfolding run default_partition Map.get compare_insert Map.empty Map.insert is_expired
stable_revision_covers_example =
    stable_revision_covers 1 default_partition 0 2 (default-IsJournalled 1 0) quiet afterwards 1 1 1
      1 (omega arith) refl refl

-- A thread holds the entry of the record that has expired, and a write of the key has to wait.
abbrev holding : List Action
holding =
    write_key 1 fleeting ∷ look_up 0 1 60 ∷ write_key 1 (delete_mutation 70) ∷ advance_thread 0 ∷ []

records-IsAccounted_example :
    IsAccounted (run (start default_partition 0 2) holding) 1 fleeting (advance_thread 0)
unfolding run default_partition Map.get compare_insert Map.empty Map.insert is_expired
records-IsAccounted_example =
    records-IsAccounted 1 default_partition 0 2 (default-IsJournalled 1 0) holding
      (advance_thread 0) 1 fleeting (omega arith) refl

abbrev written_once : RuntimeStore
written_once = write new 1 fleeting
