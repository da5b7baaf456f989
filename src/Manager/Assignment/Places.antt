-- ===== src/Manager/Assignment/Places.antt =====
-- Where the owners of a partition stand in the list of workers after `calculate_new_mapping`.
use rust_accelerator_no_sql.Map
use native.Mathlib.Nat.{mod-lt}
use rust_accelerator_no_sql.Prelude.{
  sym, ◌^◌, ◌∙◌, ap, contains, ◌-◌, ◌≤◌, ◌%◌, ◌+◌, length, zero, get_elem?, ◌<◌, suc, unwrap_or,
  arith, refl, ◌∷◌, [], List, some, none, ◌≡◌, ℕ,
}
use rust_accelerator_no_sql.Common.{Partition, NodeId}
use rust_accelerator_no_sql.Manager.{State}
use rust_accelerator_no_sql.Map.{Map}
use rust_accelerator_no_sql.Manager.Assignment.Mapping.{holder_found, IsPlaced, walk, holder}
use rust_accelerator_no_sql.Manager.Assignment.{
  calculate_new_mapping, reduce_replica, calc_replica_index,
}
use rust_accelerator_no_sql.Manager.Assignment.Index.{calc_replica_index_lem}
use rust_accelerator_no_sql.Manager.Assignment.Ownership.{calculate_new_mapping_lem, with_mapping}

-- The worker `r` places before the place `m`, counted round the list.
abbrev pub worker_before : List NodeId → ℕ → ℕ → NodeId
worker_before ids m r = unwrap_or (get_elem? ids ((m + length ids - r % length ids) % length ids)) 0

-- The workers from `r` to `r + count - 1` places before the place `m`.
abbrev pub workers_before : List NodeId → ℕ → ℕ → ℕ → List NodeId
workers_before ids m r zero = []
workers_before ids m r (suc count) = worker_before ids m r ∷ workers_before ids m (suc r) count

-- The partition's master stands at the place `p % n`, and its replicas are the workers 1 to `count`
-- places before it.
abbrev pub StandsAt : List NodeId → ℕ → Map Partition → ℕ → Type 0
StandsAt ids count mapping p =
    (part : Partition) × (Map.get mapping p ≡ some part)
    × (get_elem? ids (p % length ids) ≡ some part.master)
    × ((id : ℕ)
        → Map.contains_key part.replicas id
          ≡ contains (workers_before ids (p % length ids) 1 count) id)

module _ (ids : List NodeId) (m : ℕ) (h : m < length ids) where
  holder-worker_before : (r : ℕ) → holder ids m r ≡ worker_before ids m r
  holder-worker_before r =
      ap (λ i. unwrap_or (get_elem? ids i) 0) (calc_replica_index_lem (length ids) m r h)

  walk-workers_before : (r count : ℕ) → walk ids m r count ≡ workers_before ids m r count
  walk-workers_before r zero = refl
  walk-workers_before r (suc count) =
      rw (holder-worker_before r, walk-workers_before (suc r) count) refl

  master_place : get_elem? ids m ≡ some (holder ids m 0)
  unfolding calc_replica_index reduce_replica
  master_place =
      let first : calc_replica_index (length ids) m 0 ≡ m = ground arith in
      ap (get_elem? ids) (sym first) ∙ holder_found ids m 0 h

IsPlaced-StandsAt :
    (ids : List NodeId) (count : ℕ) (mapping : Map Partition) (p : ℕ)
    → 0 < length ids
    → IsPlaced ids count mapping p
    → StandsAt ids count mapping p
IsPlaced-StandsAt ids count mapping p h (part, found, master, holds) =
    let below : p % length ids < length ids = mod-lt p h in
    (
      part,
      found,
      master_place ids (p % length ids) below ∙ ap some (sym master),
      λ id.
          holds id
          ∙ ap (λ l. contains l id) (walk-workers_before ids (p % length ids) below 1 count),
    )

-- With at least one worker and one replica the calculation does not panic. Every partition `p` has its
-- master at the place `p % n` of the list of the `n` workers, and as replicas the workers one place
-- before it, two places and so on, counted round; no other partition is mapped. Nothing but the
-- mapping and the new replicas changes.
pub calculate_new_mapping_places :
    (state : State) (amount factor : ℕ) (ids : List NodeId)
    → 0 < length ids
    → amount ≤ 2 ^ 16
    → (mapping : Map Partition) × (calculate_new_mapping state amount (suc factor) ids
        ≡ some (with_mapping state mapping))
      × ((p : ℕ) → p < amount → StandsAt ids factor mapping p)
      × ((p : ℕ) → amount ≤ p → Map.get mapping p ≡ none)
calculate_new_mapping_places state amount factor ids h b =
    let (mapping, done, placed, others) = calculate_new_mapping_lem state amount factor ids h b in
    (mapping, done, λ p below. IsPlaced-StandsAt ids factor mapping p h (placed p below), others)
