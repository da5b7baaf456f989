-- ===== src/Store/Concurrent.antt =====
-- crates/no-sql-store/src/worker/runtime_store.rs: one partition under several threads, one access
-- of its shared memory at a time. `put` and `delete_at` hold the write lock of the partition's
-- shard, so they run alone; the threads that expire a record, and those that ask for a stable
-- revision, hold a read lock and interleave.
pub mod Invariant
pub mod Moves
pub mod Steps
pub mod Changes
pub mod Safety
pub mod Records
mod Examples
use rust_accelerator_no_sql.Map
use rust_accelerator_no_sql.Prelude.{
  zero, not, suc, ◌∷◌, [], ◌==◌, none, ◌&&◌, ◌-◌, true, false, if◌then◌else◌, some, add64, List,
  Bool, Option, ℕ,
}
use rust_accelerator_no_sql.Store.{
  Key, Mutation, PartitionStore, writer, drop_writer, default_partition, stable_reads,
  compare_insert, is_expired,
}

-- Where a thread stands between two accesses, with the variables that are live there.
pub data Phase : Type 0 where
  idle : Phase
  found : Key → (now : ℕ) → Phase  -- it has the entry, which has expired by `now`
  counted : Key → (now : ℕ) → Phase  -- `writer` has counted it
  removed : Phase  -- the entry is gone, and the guard is about to be dropped
  drew : (revision : ℕ) → Phase
  stored_revision : Phase
  first_read : (revision_before : ℕ) → Phase  -- the four readings of `stable_revision`
  second_read : (revision_before : ℕ) → Phase
  third_read : (revision_before revision_after : ℕ) → Phase
  answered : Option ℕ → Phase

unfoldable pub holds_lock : Phase → Bool
holds_lock idle = false
holds_lock (answered _) = false
holds_lock _ = true

-- The threads, by their number. A thread that is not there is idle and never moves.
unfoldable pub phase_at : ℕ → List Phase → Phase
phase_at i [] = idle
phase_at zero (t ∷ ts) = t
phase_at (suc i) (t ∷ ts) = phase_at i ts

unfoldable pub set_phase : ℕ → Phase → List Phase → List Phase
set_phase i phase [] = []
set_phase zero phase (t ∷ ts) = phase ∷ ts
set_phase (suc i) phase (t ∷ ts) = t ∷ set_phase i phase ts

unfoldable pub unlocked : List Phase → Bool
unfolding holds_lock
unlocked [] = true
unlocked (t ∷ ts) = not (holds_lock t) && unlocked ts

-- The partition, the revision counter that it shares with the other partitions, and the threads.
pub record Shared : Type 0 where
  pub shared : PartitionStore
  pub next_revision : ℕ
  pub threads : List Phase

pub record Moved : Type 0 where
  pub moved : PartitionStore
  pub next_revision : ℕ
  pub phase : Phase

abbrev keep : PartitionStore → ℕ → Phase → Moved
keep p next phase = record { moved = p; next_revision = next; phase = phase }

-- The next access of a thread: the rest of `get_versioned` or `remove_expired` for the entry that
-- it has found, `WriterGuard::drop` included, or the next reading of `stable_revision`.
unfoldable pub advance : PartitionStore → ℕ → Phase → Moved
unfolding writer stable_reads
advance p next idle = keep p next idle
advance p next (found key now) = keep (writer p) next (counted key now)
advance p next (counted key now) =
    keep (record p { records = Map.remove p.records key }) next removed
advance p next removed = keep p (add64 next 1) (drew (add64 next 1))
advance p next (drew revision) = keep (record p { revision = revision }) next stored_revision
advance p next stored_revision = keep (record p { active_writers = p.active_writers - 1 }) next idle
advance p next (first_read before) =
    keep p next (if p.active_writers == 0 then second_read before else answered none)
advance p next (second_read before) = keep p next (third_read before p.revision)
advance p next (third_read before after) =
    keep p next (answered (stable_reads before 0 after p.active_writers))
advance p next (answered revision) = keep p next (answered revision)

-- `put` and `delete_at`, from the writer to its end.
unfoldable pub write_partition : PartitionStore → ℕ → Key → Mutation → PartitionStore
unfolding writer drop_writer
write_partition p revision key mutation =
    let begun = writer p in
    drop_writer (record begun { records = compare_insert begun.records key mutation }) revision
      (some key)

pub data Action : Type 0 where
  advance_thread : (i : ℕ) → Action
  look_up : (i : ℕ) → Key → (now : ℕ) → Action  -- `get_versioned`, or an entry of the scan
  read_revision : (i : ℕ) → Action  -- the first reading of `stable_revision`
  write_key : Key → Mutation → Action
  other_partition : Action  -- another partition draws a revision
  prune : (through_revision : ℕ) → Action
  remove_if_empty : Action
  remove_whole_partition : Action

unfoldable pub expired_at : PartitionStore → Key → ℕ → Bool
expired_at p key now = elim (Map.get p.records key) [
  | none ↦ false
  | some mutation ↦ is_expired mutation now
]

-- A thread that is busy does not begin anything.
unfoldable pub begin_at : Shared → ℕ → Phase → Shared
unfolding phase_at set_phase holds_lock
begin_at s i phase =
    if holds_lock (phase_at i s.threads)
    then s
    else record s { threads = set_phase i phase s.threads }

unfoldable pub advance_at : Shared → ℕ → Shared
unfolding advance phase_at set_phase
advance_at s i =
    let m = advance s.shared s.next_revision (phase_at i s.threads) in
    record {
      shared = m.moved;
      next_revision = m.next_revision;
      threads = set_phase i m.phase s.threads;
    }

-- What needs the write lock waits until no thread holds a read lock. While the journal is pruned, from
-- its front on, nothing is inserted into it, since an insertion needs the write lock.
unfoldable pub step : Shared → Action → Shared
unfolding advance_at begin_at expired_at write_partition unlocked default_partition
step s (advance_thread i) = advance_at s i
step s (look_up i key now) = if expired_at s.shared key now then begin_at s i (found key now) else s
step s (read_revision i) = begin_at s i (first_read s.shared.revision)
step s (write_key key mutation) =
    if unlocked s.threads
    then record s {
      shared = write_partition s.shared (add64 s.next_revision 1) key mutation;
      next_revision = add64 s.next_revision 1;
    }
    else s
step s other_partition = record s { next_revision = add64 s.next_revision 1 }
step s (prune through_revision) = record s {
  shared = record s.shared { changes = Map.drop_through through_revision s.shared.changes };
}
step s remove_if_empty =
    if unlocked s.threads && Map.is_empty s.shared.records
    then record s { shared = default_partition }
    else s
step s remove_whole_partition =
    if unlocked s.threads then record s { shared = default_partition } else s

unfoldable pub run : Shared → List Action → Shared
unfolding step
run s [] = s
run s (action ∷ actions) = run (step s action) actions
