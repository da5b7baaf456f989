-- ===== src/Store/Concurrent/Steps.antt =====
-- The actions of a schedule and the invariant of a partition under several threads.
use rust_accelerator_no_sql.Map
use rust_accelerator_no_sql.Prelude.{
  length, ◌&&◌, add64, ap, inr, refl, u64_mod, sym, inl, ◌<◌, arith, ◌∙◌, Bool-cases, true, false,
  ◌+◌, ◌≤◌, List, ◌≡◌, zero, suc, ◌∷◌, [], ℕ,
}
use rust_accelerator_no_sql.Store.{
  Key, Mutation, PartitionStore, writer, drop_writer, default_partition,
}
use rust_accelerator_no_sql.Store.Concurrent.{
  remove_whole_partition, Phase, idle, found, counted, removed, drew, stored_revision, first_read,
  second_read, third_read, answered, holds_lock, phase_at, unlocked, Shared, advance,
  write_partition, Action, advance_thread, look_up, read_revision, write_key, other_partition,
  prune, remove_if_empty, expired_at, begin_at, step, run,
}
use rust_accelerator_no_sql.Store.Concurrent.Moves.{advance_at-IsGuarded}
use rust_accelerator_no_sql.Store.Concurrent.Invariant.{
  writing, writers, writers-set_phase, JournalWithin, GoneOrExpired, IsSound, IsGuarded, IsShrunk,
  IsShrunk-IsSound, IsShrunk-refl, phase_at-set_phase,
}

-- A thread without a lock relies on nothing and is not counted.
free-IsSound :
    (p : PartitionStore) (next : ℕ) (phase : Phase)
    → holds_lock phase ≡ false
    → IsSound p next phase × (writing phase ≡ 0)
unfolding IsSound holds_lock writing
free-IsSound p next idle h = (tt, refl)
free-IsSound p next (answered revision) h = (tt, refl)
free-IsSound p next (found key now) h = absurd (ground arith)
free-IsSound p next (counted key now) h = absurd (ground arith)
free-IsSound p next removed h = absurd (ground arith)
free-IsSound p next (drew revision) h = absurd (ground arith)
free-IsSound p next stored_revision h = absurd (ground arith)
free-IsSound p next (first_read before) h = absurd (ground arith)
free-IsSound p next (second_read before) h = absurd (ground arith)
free-IsSound p next (third_read before after) h = absurd (ground arith)

unlocked-IsSound :
    (p : PartitionStore) (next : ℕ) (ts : List Phase)
    → unlocked ts ≡ true
    → ((i : ℕ) → IsSound p next (phase_at i ts)) × (writers ts ≡ 0)
unfolding unlocked phase_at writers
unlocked-IsSound p next [] h = (λ i. unfold IsSound in tt, refl)
unlocked-IsSound p next (t ∷ ts) h =
    let first = free-IsSound p next t (ground arith) in
    let rest = unlocked-IsSound p next ts (ground arith) in
    (each first.0 rest.0, omega (arith, first.1, rest.1))
  where
    each :
        IsSound p next t
        → ((i : ℕ) → IsSound p next (phase_at i ts))
        → (i : ℕ) → IsSound p next (phase_at i (t ∷ ts))
    each own others zero = own
    each own others (suc i) = others i

begin_at-IsGuarded :
    (s : Shared) (i : ℕ) (phase : Phase)
    → writing phase ≡ 0
    → IsSound s.shared s.next_revision phase
    → IsGuarded s
    → IsGuarded (begin_at s i phase)
unfolding begin_at
begin_at-IsGuarded s i phase w k g = elim (Bool-cases (holds_lock (phase_at i s.threads))) [
  | inl e ↦ rw e g
  | inr e ↦
      let free = (free-IsSound s.shared s.next_revision (phase_at i s.threads) e).1 in
      rw e (record {
        counts = elim (writers-set_phase i phase s.threads) [
          | inl (absent, same) ↦ g.counts ∙ ap writers (sym same)
          | inr q ↦ omega (arith, q, free, w, g.counts)
        ];
        journal = g.journal;
        revised = g.revised;
        sound = λ j. elim (phase_at-set_phase i j phase s.threads) [
          | inl q ↦ rw q (g.sound j)
          | inr (q, same) ↦ rw q k
        ];
      })
]

shrunk-IsGuarded :
    (s : Shared) (p : PartitionStore) (next : ℕ)
    → IsShrunk s.shared p
    → s.next_revision ≤ next
    → p.active_writers ≡ s.shared.active_writers
    → p.revision ≡ s.shared.revision
    → IsGuarded s
    → IsGuarded (record s { shared = p; next_revision = next })
shrunk-IsGuarded s p next e h counts same g = record {
  counts = counts ∙ g.counts;
  journal = λ r key q. rw same (g.journal r key (e.changes_shrunk r key q));
  revised = omega (arith, same, g.revised);
  sound = λ i. IsShrunk-IsSound s.shared p s.next_revision next _ e h (g.sound i);
}

write_partition-JournalWithin :
    (p : PartitionStore) (revision : ℕ) (key : Key) (mutation : Mutation)
    → p.revision ≤ revision
    → JournalWithin p p.revision
    → JournalWithin (write_partition p revision key mutation) revision
unfolding write_partition drop_writer writer
write_partition-JournalWithin p revision key mutation h j =
    λ r k q. ground (arith, j r k, Map.get-insert p.changes revision r key)

exclusive-IsGuarded :
    (s : Shared) (p : PartitionStore) (next : ℕ)
    → unlocked s.threads ≡ true
    → p.active_writers ≡ 0
    → JournalWithin p p.revision
    → p.revision ≤ next
    → IsGuarded (record s { shared = p; next_revision = next })
exclusive-IsGuarded s p next u counts j h =
    let others = unlocked-IsSound p next s.threads u in
    record { counts = counts ∙ sym others.1; journal = j; revised = h; sound = others.0 }

emptied-IsGuarded :
    (s : Shared) → unlocked s.threads ≡ true → IsGuarded (record s { shared = default_partition })
unfolding default_partition
emptied-IsGuarded s u =
    exclusive-IsGuarded s default_partition s.next_revision u refl
      (λ r key q. absurd (ground (arith, Map.get-empty {0} {V = Key} r))) (omega arith)

expired_at-GoneOrExpired :
    (p : PartitionStore) (key : Key) (now : ℕ)
    → expired_at p key now ≡ true
    → GoneOrExpired p key now
unfolding expired_at
expired_at-GoneOrExpired p key now h = λ m q. ground (arith, q)

pub step-IsGuarded :
    (s : Shared) (action : Action)
    → s.next_revision + 1 < u64_mod
    → IsGuarded s
    → IsGuarded (step s action)
unfolding step
step-IsGuarded s (advance_thread i) b g = advance_at-IsGuarded s i b g
step-IsGuarded s (look_up i key now) b g = elim (Bool-cases (expired_at s.shared key now)) [
  | inl e ↦ rw e (
      begin_at-IsGuarded s i (found key now) (unfold writing in refl)
        (unfold IsSound in expired_at-GoneOrExpired s.shared key now e) g)
  | inr e ↦ rw e g
]
step-IsGuarded s (read_revision i) b g =
    begin_at-IsGuarded s i (first_read s.shared.revision) (unfold writing in refl)
      (unfold IsSound in tt) g
step-IsGuarded s (write_key key mutation) b g = elim (Bool-cases (unlocked s.threads)) [
  | inl e ↦ rw e (
      exclusive-IsGuarded s (write_partition s.shared (add64 s.next_revision 1) key mutation)
        (add64 s.next_revision 1) e
        (omega (arith, g.counts, (unlocked-IsSound s.shared s.next_revision s.threads e).1))
        (write_partition-JournalWithin s.shared (add64 s.next_revision 1) key mutation
          (omega (arith, g.revised)) g.journal)
        (omega arith))
  | inr e ↦ rw e g
]
step-IsGuarded s other_partition b g =
    shrunk-IsGuarded s s.shared (add64 s.next_revision 1) (IsShrunk-refl s.shared) (omega arith)
      refl refl g
step-IsGuarded s (prune through) b g =
    shrunk-IsGuarded s (record s.shared { changes = Map.drop_through through s.shared.changes })
      s.next_revision
      (record {
        changes_shrunk = λ r key q. ground (arith, Map.get-drop_through through s.shared.changes r);
        records_shrunk = λ key m q. q;
      })
      (omega arith) refl refl g
step-IsGuarded s remove_if_empty b g =
    elim (Bool-cases (unlocked s.threads && Map.is_empty s.shared.records)) [
      | inl e ↦ rw e (emptied-IsGuarded s (ground arith))
      | inr e ↦ rw e g
    ]
step-IsGuarded s remove_whole_partition b g = elim (Bool-cases (unlocked s.threads)) [
  | inl e ↦ rw e (emptied-IsGuarded s e)
  | inr e ↦ rw e g
]

next_revision-advance :
    (p : PartitionStore) (next : ℕ) (phase : Phase)
    → next + 1 < u64_mod
    → (next ≤ (advance p next phase).next_revision)
      × ((advance p next phase).next_revision ≤ next + 1)
unfolding advance
next_revision-advance p next idle b = omega arith
next_revision-advance p next (found key now) b = omega arith
next_revision-advance p next (counted key now) b = omega arith
next_revision-advance p next removed b = omega arith
next_revision-advance p next (drew revision) b = omega arith
next_revision-advance p next stored_revision b = omega arith
next_revision-advance p next (first_read before) b = omega arith
next_revision-advance p next (second_read before) b = omega arith
next_revision-advance p next (third_read before after) b = omega arith
next_revision-advance p next (answered revision) b = omega arith

pub next_revision-step :
    (s : Shared) (action : Action)
    → s.next_revision + 1 < u64_mod
    → (s.next_revision ≤ (step s action).next_revision)
      × ((step s action).next_revision ≤ s.next_revision + 1)
unfolding step begin_at
next_revision-step s (advance_thread i) b =
    next_revision-advance s.shared s.next_revision (phase_at i s.threads) b
next_revision-step s (look_up i key now) b = ground arith
next_revision-step s (read_revision i) b = ground arith
next_revision-step s (write_key key mutation) b = ground arith
next_revision-step s other_partition b = omega arith
next_revision-step s (prune through) b = omega arith
next_revision-step s remove_if_empty b = ground arith
next_revision-step s remove_whole_partition b = ground arith

pub run-IsGuarded :
    (s : Shared) (actions : List Action)
    → s.next_revision + length actions < u64_mod
    → IsGuarded s
    → IsGuarded (run s actions) × ((run s actions).next_revision ≤ s.next_revision + length actions)
unfolding run
run-IsGuarded s [] b g = (g, omega arith)
run-IsGuarded s (action ∷ actions) b g =
    let moved = next_revision-step s action (omega arith) in
    let rest =
      run-IsGuarded (step s action) actions (omega (arith, moved))
        (step-IsGuarded s action (omega arith) g) in
    (rest.0, omega (arith, rest.1, moved))
