-- ===== src/Store/Concurrent/Records.antt =====
-- The records of a partition under several threads: what may take one away.
use rust_accelerator_no_sql.Map
use rust_accelerator_no_sql.Prelude.{
  u64_mod, ◌<◌, length, ◌+◌, List, add64, leb, ◌∙◌, ap, ◌&&◌, if◌then◌else◌, sym, refl, arith, ◌==◌,
  Bool-cases, inr, true, inl, ◌≤◌, ◌⊎◌, some, ◌≡◌, ℕ,
}
use rust_accelerator_no_sql.Common.{PartitionId}
use rust_accelerator_no_sql.Store.{
  Key, Mutation, PartitionStore, writer, drop_writer, is_expired, version,
}
use rust_accelerator_no_sql.Store.Journal.{IsJournalled}
use rust_accelerator_no_sql.Store.Concurrent.{
  remove_whole_partition, begin_at, Phase, idle, found, counted, removed, drew, stored_revision,
  first_read, second_read, third_read, answered, phase_at, unlocked, Shared, advance,
  write_partition, Action, advance_thread, look_up, read_revision, write_key, other_partition,
  prune, remove_if_empty, expired_at, advance_at, step, run,
}
use rust_accelerator_no_sql.Store.Concurrent.Invariant.{IsSound, IsGuarded, GoneOrExpired}
use rust_accelerator_no_sql.Store.Concurrent.Steps.{run-IsGuarded}
use rust_accelerator_no_sql.Store.Concurrent.Changes.{shared-begin_at}
use rust_accelerator_no_sql.Store.Concurrent.Safety.{start, start-IsGuarded}
use rust_accelerator_no_sql.Store.Lww.{get-compare_insert, newer}

-- What an action may do to a stored mutation.
pub data IsAccounted (s : Shared) (key : Key) (mutation : Mutation) : Action → Type 0 where
  kept :
      {action : Action}
      → Map.get (step s action).shared.records key ≡ some mutation
      → IsAccounted s key mutation action
  overwritten :
      {newer : Mutation}
      → version mutation ≤ version newer
      → Map.get (step s (write_key key newer)).shared.records key ≡ some newer
      → IsAccounted s key mutation (write_key key newer)
  dropped : IsAccounted s key mutation remove_whole_partition
  expired :
      {i now : ℕ}
      → phase_at i s.threads ≡ counted key now
      → is_expired mutation now ≡ true
      → IsAccounted s key mutation (advance_thread i)

records-advance :
    (p : PartitionStore) (next : ℕ) (phase : Phase)
    → ((advance p next phase).moved.records ≡ p.records)
      ⊎ ((key : Key) × (now : ℕ) × (phase ≡ counted key now)
          × ((advance p next phase).moved.records ≡ Map.remove p.records key))
unfolding advance writer
records-advance p next idle = inl refl
records-advance p next (found key now) = inl refl
records-advance p next (counted key now) = inr (key, now, refl, refl)
records-advance p next removed = inl refl
records-advance p next (drew revision) = inl refl
records-advance p next stored_revision = inl refl
records-advance p next (first_read before) = inl refl
records-advance p next (second_read before) = inl refl
records-advance p next (third_read before after) = inl refl
records-advance p next (answered revision) = inl refl

records-advance_at :
    (s : Shared) (i : ℕ) (key : Key) (mutation : Mutation)
    → IsGuarded s
    → Map.get s.shared.records key ≡ some mutation
    → IsAccounted s key mutation (advance_thread i)
records-advance_at s i key mutation g h =
    elim (records-advance s.shared s.next_revision (phase_at i s.threads)) [
      | inl e ↦ kept {action = advance_thread i} (unfold step advance_at in rw e h)
      | inr (k, now, at, e) ↦ elim (Bool-cases (k == key)) [
        | inl same ↦
            let key_eq : k ≡ key = ground arith in
            let at_key : phase_at i s.threads ≡ counted key now = rw (sym key_eq) at in
            let sound : IsSound s.shared s.next_revision (counted key now) =
              rw (sym at_key) (g.sound i) in
            let fresh : GoneOrExpired s.shared key now = unfold IsSound in sound in
            expired at_key (fresh mutation h)
        | inr differ ↦
            kept {action = advance_thread i}
              (unfold step advance_at in ground (arith, e, Map.get-remove s.shared.records k key))
      ]
    ]

records-begin_at :
    (s : Shared) (i : ℕ) (phase : Phase) → (begin_at s i phase).shared.records ≡ s.shared.records
records-begin_at s i phase = ap (λ p. p.records) (shared-begin_at s i phase)

records-look_up :
    (s : Shared) (i : ℕ) (key : Key) (now : ℕ)
    → (step s (look_up i key now)).shared.records ≡ s.shared.records
unfolding step
records-look_up s i key now = elim (Bool-cases (expired_at s.shared key now)) [
  | inl e ↦ rw e (records-begin_at s i (found key now))
  | inr e ↦ rw e refl
]

get-write_partition :
    (p : PartitionStore) (revision : ℕ) (k key : Key) (mutation : Mutation)
    → Map.get (write_partition p revision k mutation).records key
      ≡ (if k == key then some (newer (Map.get p.records k) mutation) else Map.get p.records key)
unfolding write_partition writer drop_writer
get-write_partition p revision k key mutation = get-compare_insert p.records k key mutation

records-write_self :
    (s : Shared) (key : Key) (m mutation : Mutation)
    → unlocked s.threads ≡ true
    → Map.get s.shared.records key ≡ some mutation
    → IsAccounted s key mutation (write_key key m)
records-write_self s key m mutation e h = elim (Bool-cases (leb (version mutation) (version m))) [
  | inl le ↦ overwritten {newer = m} (ground arith) (
      unfold step newer in
      ground (arith, e, get-write_partition s.shared (add64 s.next_revision 1) key key m))
  | inr gt ↦ kept {action = write_key key m} (
      unfold step newer in
      ground (arith, e, get-write_partition s.shared (add64 s.next_revision 1) key key m))
]

records-write :
    (s : Shared) (k key : Key) (m mutation : Mutation)
    → Map.get s.shared.records key ≡ some mutation
    → IsAccounted s key mutation (write_key k m)
records-write s k key m mutation h = elim (Bool-cases (unlocked s.threads)) [
  | inr e ↦ kept {action = write_key k m} (unfold step in rw e h)
  | inl e ↦ elim (Bool-cases (k == key)) [
    | inl same ↦
        let key_eq : k ≡ key = ground arith in rw key_eq (records-write_self s key m mutation e h)
    | inr differ ↦ kept {action = write_key k m} (
        unfold step in
        ground (arith, e, get-write_partition s.shared (add64 s.next_revision 1) k key m))
  ]
]

records-remove_if_empty :
    (s : Shared) (key : Key) (mutation : Mutation)
    → Map.get s.shared.records key ≡ some mutation
    → Map.get (step s remove_if_empty).shared.records key ≡ some mutation
unfolding step
records-remove_if_empty s key mutation h =
    elim (Bool-cases (unlocked s.threads && Map.is_empty s.shared.records)) [
      | inl e ↦ absurd (ground (arith, Map.get-is_empty s.shared.records key))
      | inr e ↦ rw e h
    ]

records-step :
    (s : Shared) (action : Action) (key : Key) (mutation : Mutation)
    → IsGuarded s
    → Map.get s.shared.records key ≡ some mutation
    → IsAccounted s key mutation action
records-step s (advance_thread i) key mutation g h = records-advance_at s i key mutation g h
records-step s (look_up i k now) key mutation g h =
    kept (ap (λ m. Map.get m key) (records-look_up s i k now) ∙ h)
records-step s (read_revision i) key mutation g h = kept {action = read_revision i} (
    unfold step in
    ap (λ m. Map.get m key) (records-begin_at s i (first_read s.shared.revision)) ∙ h)
records-step s (write_key k m) key mutation g h = records-write s k key m mutation h
records-step s other_partition key mutation g h = kept {action = other_partition} (unfold step in h)
records-step s (prune through) key mutation g h = kept {action = prune through} (unfold step in h)
records-step s remove_if_empty key mutation g h = kept (records-remove_if_empty s key mutation h)
records-step s remove_whole_partition key mutation g h = dropped

-- However the threads interleave, a stored mutation is lost only in three ways: a write of its key
-- with at least its version takes its place, or a thread removes it that found it expired, and it
-- is this very mutation that has expired, or the whole partition is removed. In every other step it
-- stays. So no thread that expires a record takes away a newer one.
pub records-IsAccounted :
    (id : PartitionId) (p : PartitionStore) (next n : ℕ)
    → IsJournalled id next p
    → (before : List Action) (action : Action) (key : Key) (mutation : Mutation)
    → next + length before < u64_mod
    → Map.get (run (start p next n) before).shared.records key ≡ some mutation
    → IsAccounted (run (start p next n) before) key mutation action
records-IsAccounted id p next n j before action key mutation b h =
    records-step (run (start p next n) before) action key mutation
      (run-IsGuarded (start p next n) before b (start-IsGuarded id p next n j)).0 h
