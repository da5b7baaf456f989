-- ===== src/Store/Concurrent/Safety.antt =====
-- What the threads of a partition can rely on: the revision that a reader is told, and the records
-- that expiry leaves.
use rust_accelerator_no_sql.Map
use rust_accelerator_no_sql.Prelude.{
  none, ap, ◌∙◌, Option, sym, ◌≤◌, ◌⊎◌, some, inr, u64_mod, inl, refl, length, ◌<◌, ◌+◌, arith, ◌≡◌,
  List, zero, suc, ◌∷◌, [], ℕ,
}
use rust_accelerator_no_sql.Common.{PartitionId}
use rust_accelerator_no_sql.Store.{stable_reads, Key, PartitionStore}
use rust_accelerator_no_sql.Store.Journal.{IsJournalled}
use rust_accelerator_no_sql.Store.Concurrent.{
  Phase, idle, third_read, answered, phase_at, Shared, advance, Action, advance_thread, advance_at,
  step, run,
}
use rust_accelerator_no_sql.Store.Concurrent.Invariant.{
  phase_at-set_phase, writing, writers, JournalWithin, IsSound, IsGuarded,
}
use rust_accelerator_no_sql.Store.Concurrent.Steps.{run-IsGuarded, next_revision-step}
use rust_accelerator_no_sql.Store.Concurrent.Changes.{changes-step, changes-run}

abbrev pub idle_threads : ℕ → List Phase
idle_threads zero = []
idle_threads (suc n) = idle ∷ idle_threads n

-- A partition that nobody uses yet, with `n` threads.
abbrev pub start : PartitionStore → (next_revision n : ℕ) → Shared
start p next n = record { shared = p; next_revision = next; threads = idle_threads n }

idle_threads_idle :
    (p : PartitionStore) (next n i : ℕ)
    → IsSound p next (phase_at i (idle_threads n)) × (writers (idle_threads n) ≡ 0)
unfolding IsSound phase_at writers writing
idle_threads_idle p next zero i = (tt, refl)
idle_threads_idle p next (suc n) zero = (tt, omega (arith, (idle_threads_idle p next n zero).1))
idle_threads_idle p next (suc n) (suc i) =
    ((idle_threads_idle p next n i).0, omega (arith, (idle_threads_idle p next n i).1))

pub start-IsGuarded :
    (id : PartitionId) (p : PartitionStore) (next n : ℕ)
    → IsJournalled id next p
    → IsGuarded (start p next n)
start-IsGuarded id p next n j = record {
  counts = omega (arith, j.idle, idle_threads_idle p next n 0);
  journal = λ r key q. (j.journal r key q).0;
  revised = j.revised;
  sound = λ i. (idle_threads_idle p next n i).0;
}

answered_lem :
    (before after writers_after : ℕ) (revision : ℕ)
    → stable_reads before 0 after writers_after ≡ some revision
    → (revision ≡ after) × (writers_after ≡ 0)
unfolding stable_reads
answered_lem before after writers_after revision h = ground arith

third_answered : (rb ra revision : ℕ) → ¬ (third_read rb ra ≡ answered (some revision))
third_answered rb ra revision e = ground (arith, e)

told_reads : (r r' : Option ℕ) → answered r ≡ answered r' → r ≡ r'
told_reads r r' e = ap (λ t. elim t [ answered o ↦ o | _ ↦ none ]) e

-- What a reader knows that is about to answer.
reading_lem :
    (s : Shared) (i revision_before revision_after revision : ℕ)
    → IsGuarded s
    → phase_at i s.threads ≡ third_read revision_before revision_after
    → phase_at i (step s (advance_thread i)).threads ≡ answered (some revision)
    → (s.shared.active_writers ≡ 0) × JournalWithin s.shared revision × (revision ≤ s.next_revision)
unfolding step advance_at advance
reading_lem s i rb ra revision g reading told =
    let sound : IsSound s.shared s.next_revision (third_read rb ra) =
      rw (sym reading) (g.sound i) in
    let sound_at : JournalWithin s.shared ra × (ra ≤ s.next_revision) = unfold IsSound in sound in
    let m = advance s.shared s.next_revision (phase_at i s.threads) in
    elim (phase_at-set_phase i i m.phase s.threads) [
      | inl e ↦ absurd (third_answered rb ra revision (sym reading ∙ (sym e ∙ told)))
      | inr (e, _) ↦
          let reads =
            told_reads _ _ (
              sym (ap (λ t. (advance s.shared s.next_revision t).phase) reading)
              ∙ (sym e ∙ told)) in
          let answer = answered_lem rb ra s.shared.active_writers revision reads in
          (answer.1, rw answer.0 sound_at.0, rw answer.0 sound_at.1)
    ]

-- Any number of threads expire records of a partition and ask for its stable revision, in any
-- order of their accesses, with writes in between. Whenever a reader is told a revision, no writer
-- is in flight at its last reading, every journalled change has at most that revision, and
-- whatever happens afterwards, each change that the journal then has was there already or has a
-- higher revision: a copy made now and the changes after the revision miss nothing.
pub stable_revision_covers :
    (id : PartitionId) (p : PartitionStore) (next n : ℕ)
    → IsJournalled id next p
    → (before after : List Action) (i revision_before revision_after revision : ℕ)
    → next + length before + 1 + length after < u64_mod
    → phase_at i (run (start p next n) before).threads ≡ third_read revision_before revision_after
    → phase_at i (step (run (start p next n) before) (advance_thread i)).threads
      ≡ answered (some revision)
    → ((run (start p next n) before).shared.active_writers ≡ 0)
      × ((r : ℕ) (key : Key)
          → Map.get (run (start p next n) before).shared.changes r ≡ some key
          → r ≤ revision)
      × ((r : ℕ) (key : Key)
          → Map.get
              (run (step (run (start p next n) before) (advance_thread i)) after).shared.changes
              r
            ≡ some key
          → (Map.get (run (start p next n) before).shared.changes r ≡ some key) ⊎ (revision < r))
stable_revision_covers id p next n j before after i rb ra revision b reading told =
    let s = run (start p next n) before in
    let reached =
      run-IsGuarded (start p next n) before (omega arith) (start-IsGuarded id p next n j) in
    let moved = next_revision-step s (advance_thread i) (omega (arith, reached.1)) in
    let sure = reading_lem s i rb ra revision reached.0 reading told in
    (
      sure.0,
      sure.1,
      λ r key h.
          elim (changes-run (step s (advance_thread i)) after r key
            (omega (arith, reached.1, moved)) h) [
              | inl e ↦
                  elim (changes-step s (advance_thread i) r key (omega (arith, reached.1)) e) [
                    | inl k ↦ inl k
                    | inr k ↦ inr (omega (arith, k, sure.2))
                  ]
              | inr k ↦ inr (omega (arith, k, sure.2, moved))
            ],
    )
