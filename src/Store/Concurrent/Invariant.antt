-- ===== src/Store/Concurrent/Invariant.antt =====
-- What holds of a partition under several threads, between any two accesses.
use rust_accelerator_no_sql.Map
use rust_accelerator_no_sql.Prelude.{
  zero, suc, ◌∷◌, [], refl, inr, ap, inl, true, ◌⊎◌, arith, some, ◌+◌, ◌≤◌, ◌≡◌, List, ℕ,
}
use rust_accelerator_no_sql.Store.{Key, Mutation, PartitionStore, is_expired}
use rust_accelerator_no_sql.Store.Concurrent.{
  Phase, idle, found, counted, removed, drew, stored_revision, first_read, second_read, third_read,
  answered, phase_at, set_phase, Shared,
}

-- The threads that the partition's counter counts.
unfoldable pub writing : Phase → ℕ
writing (counted _ _) = 1
writing removed = 1
writing (drew _) = 1
writing stored_revision = 1
writing _ = 0

unfoldable pub writers : List Phase → ℕ
unfolding writing
writers [] = 0
writers (t ∷ ts) = writing t + writers ts

-- The counter moves with the thread; a thread that is not there stays idle.
pub writers-set_phase :
    (i : ℕ) (phase : Phase) (ts : List Phase)
    → ((phase_at i ts ≡ idle) × (set_phase i phase ts ≡ ts))
      ⊎ (writers (set_phase i phase ts) + writing (phase_at i ts) ≡ writers ts + writing phase)
unfolding writers phase_at set_phase
writers-set_phase i phase [] = inl (refl, refl)
writers-set_phase zero phase (t ∷ ts) = inr (omega arith)
writers-set_phase (suc i) phase (t ∷ ts) = elim (writers-set_phase i phase ts) [
  | inl (absent, same) ↦ inl (absent, ap (λ l. t ∷ l) same)
  | inr e ↦ inr (omega (arith, e))
]

pub writing_le : (i : ℕ) (ts : List Phase) → writing (phase_at i ts) ≤ writers ts
unfolding writers phase_at writing
writing_le i [] = omega arith
writing_le zero (t ∷ ts) = omega arith
writing_le (suc i) (t ∷ ts) = omega (arith, writing_le i ts)

-- Every journalled change has a revision of at most `bound`.
abbrev pub JournalWithin : PartitionStore → ℕ → Type 0
JournalWithin p bound = (r : ℕ) (key : Key) → Map.get p.changes r ≡ some key → r ≤ bound

-- What is stored under the key, if anything is, has expired by `now`.
abbrev pub GoneOrExpired : PartitionStore → Key → ℕ → Type 0
GoneOrExpired p key now =
    (mutation : Mutation) → Map.get p.records key ≡ some mutation → is_expired mutation now ≡ true

-- What a thread in a phase relies on.
unfoldable pub IsSound : PartitionStore → ℕ → Phase → Type 0
IsSound p next (found key now) = GoneOrExpired p key now
IsSound p next (counted key now) = GoneOrExpired p key now
IsSound p next (drew revision) = JournalWithin p revision × (revision ≤ next)
IsSound p next (third_read before after) = JournalWithin p after × (after ≤ next)
IsSound p next _ = Unit

pub record IsGuarded (s : Shared) : Type 0 where
  pub counts : s.shared.active_writers ≡ writers s.threads
  pub journal : JournalWithin s.shared s.shared.revision
  pub revised : s.shared.revision ≤ s.next_revision
  pub sound : (i : ℕ) → IsSound s.shared s.next_revision (phase_at i s.threads)

-- A partition that has lost entries only.
pub record IsShrunk (p p' : PartitionStore) : Type 0 where
  pub changes_shrunk :
      (r : ℕ) (key : Key) → Map.get p'.changes r ≡ some key → Map.get p.changes r ≡ some key
  pub records_shrunk :
      (key : Key) (mutation : Mutation)
      → Map.get p'.records key ≡ some mutation
      → Map.get p.records key ≡ some mutation

pub IsShrunk-IsSound :
    (p p' : PartitionStore) (next next' : ℕ) (phase : Phase)
    → IsShrunk p p'
    → next ≤ next'
    → IsSound p next phase
    → IsSound p' next' phase
unfolding IsSound
IsShrunk-IsSound p p' next next' (found key now) e h k = λ m q. k m (e.records_shrunk key m q)
IsShrunk-IsSound p p' next next' (counted key now) e h k = λ m q. k m (e.records_shrunk key m q)
IsShrunk-IsSound p p' next next' (drew revision) e h k =
    (λ r key q. k.0 r key (e.changes_shrunk r key q), omega (arith, k.1))
IsShrunk-IsSound p p' next next' (third_read before after) e h k =
    (λ r key q. k.0 r key (e.changes_shrunk r key q), omega (arith, k.1))
IsShrunk-IsSound p p' next next' idle e h k = tt
IsShrunk-IsSound p p' next next' removed e h k = tt
IsShrunk-IsSound p p' next next' stored_revision e h k = tt
IsShrunk-IsSound p p' next next' (first_read before) e h k = tt
IsShrunk-IsSound p p' next next' (second_read before) e h k = tt
IsShrunk-IsSound p p' next next' (answered revision) e h k = tt

pub IsShrunk-refl : (p : PartitionStore) → IsShrunk p p
IsShrunk-refl p = record { changes_shrunk = λ r key q. q; records_shrunk = λ key m q. q }

pub phase_at-set_phase :
    (i j : ℕ) (phase : Phase) (ts : List Phase)
    → (phase_at j (set_phase i phase ts) ≡ phase_at j ts)
      ⊎ ((phase_at j (set_phase i phase ts) ≡ phase) × (i ≡ j))
unfolding phase_at set_phase
phase_at-set_phase i j phase [] = inl refl
phase_at-set_phase zero zero phase (t ∷ ts) = inr (refl, refl)
phase_at-set_phase zero (suc j) phase (t ∷ ts) = inl refl
phase_at-set_phase (suc i) zero phase (t ∷ ts) = inl refl
phase_at-set_phase (suc i) (suc j) phase (t ∷ ts) = elim (phase_at-set_phase i j phase ts) [
  | inl e ↦ inl e
  | inr (e, same) ↦ inr (e, ap suc same)
]
