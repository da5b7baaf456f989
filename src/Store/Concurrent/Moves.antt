-- ===== src/Store/Concurrent/Moves.antt =====
-- A thread's access and the invariant of a partition under several threads.
use rust_accelerator_no_sql.Map
use rust_accelerator_no_sql.Prelude.{
  false, sym, none, refl, ◌∙◌, if◌then◌else◌, inr, ap, ◌==◌, Bool, u64_mod, inl, true, ◌<◌, arith,
  ◌+◌, ◌≤◌, ◌≡◌, ℕ,
}
use rust_accelerator_no_sql.Store.{PartitionStore, writer}
use rust_accelerator_no_sql.Store.Concurrent.{
  Phase, idle, found, counted, removed, drew, stored_revision, first_read, second_read, third_read,
  answered, phase_at, Shared, Moved, advance, advance_at,
}
use rust_accelerator_no_sql.Store.Concurrent.Invariant.{
  writing, writers, writers-set_phase, writing_le, JournalWithin, IsSound, IsGuarded, IsShrunk,
  IsShrunk-IsSound, IsShrunk-refl, phase_at-set_phase,
}

-- What a thread's access leaves is sound for the others and for itself.
pub record IsSoundMove (p : PartitionStore) (next : ℕ) (m : Moved) : Type 0 where
  pub shrunk : IsShrunk p m.moved
  pub grows : next ≤ m.next_revision
  pub own : IsSound m.moved m.next_revision m.phase
  pub journal_moved : JournalWithin m.moved m.moved.revision
  pub revised_moved : m.moved.revision ≤ m.next_revision

IsSound-if :
    (p : PartitionStore) (next : ℕ) (b : Bool) (before : ℕ)
    → IsSound p next (if b then second_read before else answered none)
unfolding IsSound
IsSound-if p next true before = tt
IsSound-if p next false before = tt

advance-IsSoundMove :
    (p : PartitionStore) (next : ℕ) (phase : Phase)
    → next + 1 < u64_mod
    → JournalWithin p p.revision
    → p.revision ≤ next
    → IsSound p next phase
    → IsSoundMove p next (advance p next phase)
unfolding advance IsSound writer
advance-IsSoundMove p next idle b j h k = record {
  shrunk = IsShrunk-refl p;
  grows = omega arith;
  own = tt;
  journal_moved = j;
  revised_moved = h;
}
advance-IsSoundMove p next (found key now) b j h k = record {
  shrunk = record { changes_shrunk = λ r key q. q; records_shrunk = λ key m q. q };
  grows = omega arith;
  own = k;
  journal_moved = j;
  revised_moved = h;
}
advance-IsSoundMove p next (counted key now) b j h k = record {
  shrunk = record {
    changes_shrunk = λ r key q. q;
    records_shrunk = λ i m q. ground (arith, Map.get-remove p.records key i);
  };
  grows = omega arith;
  own = tt;
  journal_moved = j;
  revised_moved = h;
}
advance-IsSoundMove p next removed b j h k = record {
  shrunk = IsShrunk-refl p;
  grows = omega arith;
  own = (λ r key q. omega (arith, j r key q), omega arith);
  journal_moved = j;
  revised_moved = omega arith;
}
advance-IsSoundMove p next (drew revision) b j h k = record {
  shrunk = record { changes_shrunk = λ r key q. q; records_shrunk = λ key m q. q };
  grows = omega arith;
  own = tt;
  journal_moved = k.0;
  revised_moved = k.1;
}
advance-IsSoundMove p next stored_revision b j h k = record {
  shrunk = record { changes_shrunk = λ r key q. q; records_shrunk = λ key m q. q };
  grows = omega arith;
  own = tt;
  journal_moved = j;
  revised_moved = h;
}
advance-IsSoundMove p next (first_read before) b j h k = record {
  shrunk = IsShrunk-refl p;
  grows = omega arith;
  own = IsSound-if p next (p.active_writers == 0) before;
  journal_moved = j;
  revised_moved = h;
}
advance-IsSoundMove p next (second_read before) b j h k = record {
  shrunk = IsShrunk-refl p;
  grows = omega arith;
  own = (j, h);
  journal_moved = j;
  revised_moved = h;
}
advance-IsSoundMove p next (third_read before after) b j h k = record {
  shrunk = IsShrunk-refl p;
  grows = omega arith;
  own = tt;
  journal_moved = j;
  revised_moved = h;
}
advance-IsSoundMove p next (answered revision) b j h k = record {
  shrunk = IsShrunk-refl p;
  grows = omega arith;
  own = tt;
  journal_moved = j;
  revised_moved = h;
}

-- A thread's access changes the counter as it changes what the thread counts for.
writing-if : (b : Bool) (before : ℕ) → writing (if b then second_read before else answered none) ≡ 0
unfolding writing
writing-if true before = refl
writing-if false before = refl

advance_counts :
    (p : PartitionStore) (next : ℕ) (phase : Phase)
    → writing phase ≤ p.active_writers
    → (advance p next phase).moved.active_writers + writing phase
      ≡ p.active_writers + writing (advance p next phase).phase
unfolding advance writing writer
advance_counts p next idle h = refl
advance_counts p next (found key now) h = omega arith
advance_counts p next (counted key now) h = refl
advance_counts p next removed h = refl
advance_counts p next (drew revision) h = refl
advance_counts p next stored_revision h = omega arith
advance_counts p next (first_read before) h = rw (writing-if (p.active_writers == 0) before) refl
advance_counts p next (second_read before) h = refl
advance_counts p next (third_read before after) h = refl
advance_counts p next (answered revision) h = refl

advance_idle : (p : PartitionStore) (next : ℕ) → (advance p next idle).moved ≡ p
unfolding advance
advance_idle p next = refl

advance_at_counts :
    (s : Shared) (i : ℕ)
    → IsGuarded s
    → (advance_at s i).shared.active_writers ≡ writers (advance_at s i).threads
unfolding advance_at
advance_at_counts s i g =
    let t = phase_at i s.threads in
    let m = advance s.shared s.next_revision t in
    let c =
      advance_counts s.shared s.next_revision t (omega (arith, g.counts, writing_le i s.threads)) in
    elim (writers-set_phase i m.phase s.threads) [
      | inl (absent, same) ↦
          ap (λ p. p.active_writers) (ap (λ q. (advance s.shared s.next_revision q).moved) absent)
          ∙ (ap (λ p. p.active_writers) (advance_idle s.shared s.next_revision)
              ∙ (g.counts ∙ ap writers (sym same)))
      | inr e ↦ omega (arith, e, c, g.counts)
    ]

pub advance_at-IsGuarded :
    (s : Shared) (i : ℕ) → s.next_revision + 1 < u64_mod → IsGuarded s → IsGuarded (advance_at s i)
unfolding advance_at
advance_at-IsGuarded s i b g =
    let t = phase_at i s.threads in
    let m = advance s.shared s.next_revision t in
    let ok : IsSoundMove s.shared s.next_revision m =
      advance-IsSoundMove s.shared s.next_revision t b g.journal g.revised (g.sound i) in
    record {
      counts = advance_at_counts s i g;
      journal = ok.journal_moved;
      revised = ok.revised_moved;
      sound = λ j. elim (phase_at-set_phase i j m.phase s.threads) [
        | inl e ↦ rw e (
            IsShrunk-IsSound s.shared m.moved s.next_revision m.next_revision _ ok.shrunk ok.grows
              (g.sound j))
        | inr (e, same) ↦ rw e ok.own
      ];
    }
