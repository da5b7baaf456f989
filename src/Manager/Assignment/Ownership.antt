-- ===== src/Manager/Assignment/Ownership.antt =====
-- Who owns a partition after `calculate_new_mapping`.
use rust_accelerator_no_sql.Map
use native.Mathlib.Nat.{mod-lt, mod_self, zero-mod}
use rust_accelerator_no_sql.Prelude.{
  unwrap_or, ◌-◌, ◌%◌, sym, ◌∙◌, ◌==◌, Bool-cases, ap, zero, ◌^◌, ◌+◌, suc, length, ◌≤◌, ◌<◌,
  contains, get_elem?, inr, inl, arith, refl, ◌∷◌, [], List, some, none, false, true, ◌≡◌, ℕ,
}
use rust_accelerator_no_sql.Manager.Assignment.{
  place_partitions, owners, record_new_replicas, calc_replica_index, calculate_new_mapping,
}
use rust_accelerator_no_sql.Common.{Partition, NodeId}
use rust_accelerator_no_sql.Manager.{State}
use rust_accelerator_no_sql.Manager.Assignment.Mapping.{
  holder_found, place_partitions_lem, IsPlaced, walk, holder,
}
use rust_accelerator_no_sql.Manager.Assignment.Index.{
  calc_replica_index_lem, calc_replica_index_injective,
}
use rust_accelerator_no_sql.Map.{Map, get-empty}
use rust_accelerator_no_sql.Map.Set.{contains_key-add}

abbrev pub with_mapping : State → Map Partition → State
with_mapping state mapping = record state {
  partitions = record (state.partitions) {
    mapping = mapping;
    new_replicas =
        record_new_replicas state.partitions.mapping.entries mapping state.partitions.new_replicas;
  };
}

pub calculate_new_mapping-done :
    (state : State) (amount factor : ℕ) (ids : List NodeId) (mapping : Map Partition)
    → place_partitions amount ids factor 0 Map.empty ≡ some mapping
    → calculate_new_mapping state amount factor ids ≡ some (with_mapping state mapping)
unfolding calculate_new_mapping
calculate_new_mapping-done state amount factor ids mapping e = rw (e, calculate_new_mapping)

-- What the calculation leaves, by the walk round the workers.
pub calculate_new_mapping_lem :
    (state : State) (amount factor : ℕ) (ids : List NodeId)
    → 0 < length ids
    → amount ≤ 2 ^ 16
    → (mapping : Map Partition) × (calculate_new_mapping state amount (suc factor) ids
        ≡ some (with_mapping state mapping))
      × ((p : ℕ) → p < amount → IsPlaced ids factor mapping p)
      × ((p : ℕ) → amount ≤ p → Map.get mapping p ≡ none)
calculate_new_mapping_lem state amount factor ids h b =
    let (mapping, done, placed, others) =
      place_partitions_lem amount ids factor 0 Map.empty h (omega arith) in
    (
      mapping,
      calculate_new_mapping-done state amount (suc factor) ids mapping done,
      λ p below. placed p (omega arith) (omega arith),
      λ p above. others p (inr (omega arith)) ∙ get-empty p,
    )

-- No worker stands twice in the list.
abbrev pub Distinct : List NodeId → Type 0
Distinct [] = Unit
Distinct (x ∷ xs) = (contains xs x ≡ false) × Distinct xs

contains-get_elem? : (xs : List ℕ) (i : ℕ) {x : ℕ} → get_elem? xs i ≡ some x → contains xs x ≡ true
contains-get_elem? [] i h = ground arith
contains-get_elem? (y ∷ ys) zero h = ground arith
contains-get_elem? (y ∷ ys) (suc i) {x} h = ground (arith, contains-get_elem? ys i {x = x} h)

-- Every place of the walk holds a worker of the list.
pub holder_is_current :
    (ids : List NodeId) (m r : ℕ) → m < length ids → contains ids (holder ids m r) ≡ true
holder_is_current ids m r h =
    contains-get_elem? ids (calc_replica_index (length ids) m r) (holder_found ids m r h)

Distinct-injective :
    (xs : List ℕ) (i j : ℕ) {x : ℕ}
    → Distinct xs
    → get_elem? xs i ≡ some x
    → get_elem? xs j ≡ some x
    → i ≡ j
Distinct-injective [] i j d p q = ground arith
Distinct-injective (y ∷ ys) zero zero d p q = refl
Distinct-injective (y ∷ ys) zero (suc j) {x} d p q =
    absurd (ground (arith, contains-get_elem? ys j {x = x} q))
Distinct-injective (y ∷ ys) (suc i) zero {x} d p q =
    absurd (ground (arith, contains-get_elem? ys i {x = x} p))
Distinct-injective (y ∷ ys) (suc i) (suc j) {x} d p q =
    ap suc (Distinct-injective ys i j {x = x} d.1 p q)

-- With no more replicas than workers, no worker holds two places of a partition.
pub holder_injective :
    (ids : List NodeId) (m r s : ℕ)
    → Distinct ids
    → m < length ids
    → r < length ids
    → s < length ids
    → holder ids m r ≡ holder ids m s
    → r ≡ s
holder_injective ids m r s d h p q e = calc_replica_index_injective (length ids) m r s h p q (
    Distinct-injective ids _ _ {x = holder ids m r} d (holder_found ids m r h)
      (holder_found ids m s h ∙ ap some (sym e)))

walk_without :
    (ids : List NodeId) (m r count : ℕ)
    → Distinct ids
    → m < length ids
    → 0 < r
    → r + count ≤ length ids
    → contains (walk ids m r count) (holder ids m 0) ≡ false
walk_without ids m r zero d h p b = refl
walk_without ids m r (suc count) d h p b =
    let ih = walk_without ids m (suc r) count d h (omega arith) (omega arith) in
    elim (Bool-cases (holder ids m r == holder ids m 0)) [
      | inl same ↦
          absurd (
            omega
              (arith, holder_injective ids m r 0 d h (omega arith) (omega arith) (ground arith)))
      | inr differ ↦ ground (arith, differ, ih)
    ]

walk_with :
    (ids : List NodeId) (m r count s : ℕ)
    → r ≤ s
    → s < r + count
    → contains (walk ids m r count) (holder ids m s) ≡ true
walk_with ids m r zero s lo hi = absurd (omega arith)
walk_with ids m r (suc count) s lo hi = elim (Bool-cases (r == s)) [
  | inl same ↦ let e : r ≡ s = ground arith in rw e (ground arith)
  | inr differ ↦ ground (arith, walk_with ids m (suc r) count s (ground arith) (omega arith))
]

walk_members :
    (ids : List NodeId) (m r count id : ℕ)
    → m < length ids
    → contains (walk ids m r count) id ≡ true
    → contains ids id ≡ true
walk_members ids m r zero id h k = absurd (ground arith)
walk_members ids m r (suc count) id h k =
    ground (arith, holder_is_current ids m r h, walk_members ids m (suc r) count id h)

-- What `IsPlaced` says of the partition that a lookup finds.
placed_part :
    (ids : List NodeId) (factor p : ℕ) (mapping : Map Partition) (part : Partition)
    → IsPlaced ids factor mapping p
    → Map.get mapping p ≡ some part
    → (part.master ≡ holder ids (p % length ids) 0)
      × ((id : ℕ)
          → Map.contains_key part.replicas id ≡ contains (walk ids (p % length ids) 1 factor) id)
placed_part ids factor p mapping part (part', found, master, holds) e =
    let same : part' ≡ part = cc in
    (
      ap (λ (x : Partition). x.master) (sym same) ∙ master,
      λ id. ap (λ (x : Partition). Map.contains_key x.replicas id) (sym same) ∙ holds id,
    )

full_circle :
    (ids : List NodeId) (m : ℕ) → m < length ids → holder ids m (length ids) ≡ holder ids m 0
full_circle ids m h =
    let e : calc_replica_index (length ids) m (length ids) ≡ calc_replica_index (length ids) m 0 =
      calc_replica_index_lem (length ids) m (length ids) h
      ∙ (ap (λ (x : ℕ). (m + length ids - x) % length ids)
            (mod_self (length ids) ∙ sym (zero-mod (length ids)))
          ∙ sym (calc_replica_index_lem (length ids) m 0 h)) in
    ap (λ (i : ℕ). unwrap_or (get_elem? ids i) 0) e

-- Every owner of a placed partition, master or replica, is a worker of the list.
pub owners_are_current :
    (ids : List NodeId) (factor p : ℕ) (mapping : Map Partition) (part : Partition) (id : ℕ)
    → 0 < length ids
    → IsPlaced ids factor mapping p
    → Map.get mapping p ≡ some part
    → Map.contains_key (owners part) id ≡ true
    → contains ids id ≡ true
unfolding owners
owners_are_current ids factor p mapping part id h placed e k =
    let (master, holds) = placed_part ids factor p mapping part placed e in
    ground (
      arith,
      master,
      holds id,
      contains_key-add part.replicas part.master id,
      holder_is_current ids (p % length ids) 0 (mod-lt p h),
      walk_members ids (p % length ids) 1 factor id (mod-lt p h),
    )

-- With no more replicas than workers the master is not among its own replicas.
pub master_is_no_replica :
    (ids : List NodeId) (factor p : ℕ) (mapping : Map Partition) (part : Partition)
    → Distinct ids
    → suc factor ≤ length ids
    → IsPlaced ids factor mapping p
    → Map.get mapping p ≡ some part
    → Map.contains_key part.replicas part.master ≡ false
master_is_no_replica ids factor p mapping part d h placed e =
    let (master, holds) = placed_part ids factor p mapping part placed e in
    holds part.master
    ∙ (ap (contains (walk ids (p % length ids) 1 factor)) master
        ∙ walk_without ids (p % length ids) 1 factor d (mod-lt p (omega arith)) (omega arith)
            (omega arith))

-- With more replicas than workers the walk comes back to the master, which then stands among its
-- own replicas.
pub master_is_own_replica :
    (ids : List NodeId) (factor p : ℕ) (mapping : Map Partition) (part : Partition)
    → 0 < length ids
    → length ids < suc factor
    → IsPlaced ids factor mapping p
    → Map.get mapping p ≡ some part
    → Map.contains_key part.replicas part.master ≡ true
master_is_own_replica ids factor p mapping part h more placed e =
    let (master, holds) = placed_part ids factor p mapping part placed e in
    holds part.master
    ∙ (ap (contains (walk ids (p % length ids) 1 factor))
          (master ∙ sym (full_circle ids (p % length ids) (mod-lt p h)))
        ∙ walk_with ids (p % length ids) 1 factor (length ids) (omega arith) (omega arith))
