-- ===== src/Worker/Pass/Journal.antt =====
-- What the pass leaves of the journal for the copies that are under way.
use rust_accelerator_no_sql.Map
use rust_accelerator_no_sql.Map.Entries
use rust_accelerator_no_sql.Map.{Map}
use Prim.Native.Nat.{min}
use rust_accelerator_no_sql.Prelude.{
  ℕ, ◌≡◌, ◌≤◌, ◌==◌, refl, ap, ◌∙◌, arith, List, [], ◌∷◌, some, inl, inr, Bool-cases, Option-cases,
  map,
}
use rust_accelerator_no_sql.Store.{RuntimeStore, get_partition_changes, prune_partition_changes}
use rust_accelerator_no_sql.Store.Journal.{get_partition_changes-prune}
use rust_accelerator_no_sql.Common.{PartitionId, NodeId}
use rust_accelerator_no_sql.Worker.{changes, snapshot, SyncPhase, State, SyncState}
use rust_accelerator_no_sql.Worker.Pass.{
  min_revision, needed_revision, unconfirmed, finish_partition, prune_through, or_else,
}

-- The revision after which a copy still reads changes: that of its snapshot, whose later changes it
-- sends when the snapshot has been copied, or the last that the recipient has confirmed, from which a
-- batch is sent again when it is lost.
abbrev pub resumes_after : SyncPhase → ℕ
resumes_after (snapshot revision) = revision
resumes_after (changes confirmed_revision pending_revision) = confirmed_revision

needed_revision_lem : (phase : SyncPhase) → needed_revision phase ≡ resumes_after phase
unfolding needed_revision
needed_revision_lem (snapshot revision) = refl
needed_revision_lem (changes confirmed_revision pending_revision) = refl

min_revision-some :
    (es : List (NodeId × SyncState)) (id : NodeId) {s : SyncState}
    → Entries.lookup id es ≡ some s
    → (m : ℕ) × (min_revision (map (λ e. e.1) es) ≡ some m) × (m ≤ needed_revision s.phase)
unfolding Entries.lookup min_revision
min_revision-some [] id h = absurd (ground arith)
min_revision-some ((i, first) ∷ es) id {s} h = elim (Bool-cases (i == id)) [
  | inl same ↦
      let e : first ≡ s = ground (arith, same, h) in
      elim (Option-cases (min_revision (map (λ e. e.1) es))) [
        | inl last_one ↦
            (needed_revision first.phase, rw (last_one, min_revision) refl, rw e (omega arith))
        | inr (m, rest) ↦
            (min (needed_revision first.phase) m, rw (rest, min_revision) refl, rw e (omega arith))
      ]
  | inr differ ↦
      let (m, rest, below) = min_revision-some es id {s = s} (ground (arith, differ, h)) in
      (min (needed_revision first.phase) m, rw (rest, min_revision) refl, omega (arith, below))
]

finish_partition-prunes :
    (state : State) (store : RuntimeStore) (id : PartitionId) {states : Map SyncState} {m : ℕ}
    → Map.get state.sync id ≡ some states
    → min_revision (Map.values (unconfirmed states)) ≡ some m
    → (finish_partition state store id).1 ≡ prune_partition_changes store id m
unfolding finish_partition prune_through or_else
finish_partition-prunes state store id h least = rw (h, finish_partition) (rw least refl)

-- The end of the pass over a partition prunes nothing that a copy under way still has to send: after
-- the revision of its snapshot while the snapshot is copied, after the last confirmed revision while
-- changes are, and after every later revision, the journal yields the same changes as before.
pub finish_partition-keeps_changes :
    (state : State) (store : RuntimeStore) (id : PartitionId) (recipient_id : NodeId)
    (states : Map SyncState) (s : SyncState) (after amount : ℕ)
    → Map.get state.sync id ≡ some states
    → Map.get (unconfirmed states) recipient_id ≡ some s
    → resumes_after s.phase ≤ after
    → get_partition_changes (finish_partition state store id).1 id after amount
      ≡ get_partition_changes store id after amount
unfolding Map.get Map.values
finish_partition-keeps_changes state store id recipient_id states s after amount h copying later =
    let (m, least, below) =
      min_revision-some (unconfirmed states).entries recipient_id {s = s} copying in
    let enough : m ≤ after = omega (arith, below, needed_revision_lem s.phase, later) in
    ap (λ st. get_partition_changes st id after amount)
      (finish_partition-prunes state store id {states = states} {m = m} h least)
    ∙ (get_partition_changes-prune store id m after amount 0 enough).0
