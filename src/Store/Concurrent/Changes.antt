-- ===== src/Store/Concurrent/Changes.antt =====
-- The journal of a partition under several threads: what an action adds to it.
use rust_accelerator_no_sql.Map
use rust_accelerator_no_sql.Prelude.{
  add64, ◌==◌, sym, if◌then◌else◌, ◌⊎◌, some, inr, u64_mod, inl, refl, length, ◌<◌, Bool-cases, ◌+◌,
  arith, ◌≡◌, List, ◌∷◌, [], ℕ,
}
use rust_accelerator_no_sql.Store.{
  Key, Mutation, PartitionStore, writer, drop_writer, default_partition,
}
use rust_accelerator_no_sql.Store.Concurrent.{
  remove_whole_partition, Phase, idle, found, counted, removed, drew, stored_revision, first_read,
  second_read, third_read, answered, holds_lock, phase_at, Shared, advance, write_partition, Action,
  advance_thread, look_up, read_revision, write_key, other_partition, prune, remove_if_empty,
  expired_at, begin_at, advance_at, step, run,
}
use rust_accelerator_no_sql.Store.Concurrent.Steps.{next_revision-step}

-- A journal entry after an action was there before it, or has the next revision at least.
changes-advance :
    (p : PartitionStore) (next : ℕ) (phase : Phase)
    → (advance p next phase).moved.changes ≡ p.changes
unfolding advance writer
changes-advance p next idle = refl
changes-advance p next (found key now) = refl
changes-advance p next (counted key now) = refl
changes-advance p next removed = refl
changes-advance p next (drew revision) = refl
changes-advance p next stored_revision = refl
changes-advance p next (first_read before) = refl
changes-advance p next (second_read before) = refl
changes-advance p next (third_read before after) = refl
changes-advance p next (answered revision) = refl

pub shared-begin_at : (s : Shared) (i : ℕ) (phase : Phase) → (begin_at s i phase).shared ≡ s.shared
unfolding begin_at
shared-begin_at s i phase = elim (Bool-cases (holds_lock (phase_at i s.threads))) [
  | inl e ↦ rw e refl
  | inr e ↦ rw e refl
]

written_changes :
    (p : PartitionStore) (revision : ℕ) (key : Key) (mutation : Mutation) (r : ℕ)
    → Map.get (write_partition p revision key mutation).changes r
      ≡ (if revision == r then some key else Map.get p.changes r)
unfolding write_partition drop_writer writer
written_changes p revision key mutation r = Map.get-insert p.changes revision r key

pub changes-step :
    (s : Shared) (action : Action) (r : ℕ) (key : Key)
    → s.next_revision + 1 < u64_mod
    → Map.get (step s action).shared.changes r ≡ some key
    → (Map.get s.shared.changes r ≡ some key) ⊎ (s.next_revision < r)
unfolding step default_partition
changes-step s (advance_thread i) r key b h = inl (
    rw (sym (changes-advance s.shared s.next_revision (phase_at i s.threads)))
      (unfold advance_at in h))
changes-step s (look_up i k now) r key b h = elim (Bool-cases (expired_at s.shared k now)) [
  | inl e ↦ inl (ground (arith, shared-begin_at s i (found k now)))
  | inr e ↦ inl (ground arith)
]
changes-step s (read_revision i) r key b h =
    inl (ground (arith, shared-begin_at s i (first_read s.shared.revision)))
changes-step s (write_key k mutation) r key b h =
    ground (arith, written_changes s.shared (add64 s.next_revision 1) k mutation r)
changes-step s other_partition r key b h = inl h
changes-step s (prune through) r key b h =
    inl (ground (arith, Map.get-drop_through through s.shared.changes r))
changes-step s remove_if_empty r key b h = ground (arith, Map.get-empty {0} {V = Key} r)
changes-step s remove_whole_partition r key b h = ground (arith, Map.get-empty {0} {V = Key} r)

pub changes-run :
    (s : Shared) (actions : List Action) (r : ℕ) (key : Key)
    → s.next_revision + length actions < u64_mod
    → Map.get (run s actions).shared.changes r ≡ some key
    → (Map.get s.shared.changes r ≡ some key) ⊎ (s.next_revision < r)
unfolding run
changes-run s [] r key b h = inl h
changes-run s (action ∷ actions) r key b h =
    let moved = next_revision-step s action (omega arith) in
    elim (changes-run (step s action) actions r key (omega (arith, moved)) h) [
      | inl e ↦ changes-step s action r key (omega arith) e
      | inr e ↦ inr (omega (arith, moved))
    ]
