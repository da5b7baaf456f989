-- ===== src/Manager/Assignment/Distribution.antt =====
-- How `calculate_new_mapping` spreads a partition's owners over the workers.
use rust_accelerator_no_sql.Map
use rust_accelerator_no_sql.Manager.Assignment.Ownership.{
  with_mapping, Distinct, calculate_new_mapping_lem, master_is_no_replica, owners_are_current,
  master_is_own_replica,
}
use rust_accelerator_no_sql.Manager.Assignment.{calculate_new_mapping, owners}
use rust_accelerator_no_sql.Manager.{State}
use rust_accelerator_no_sql.Common.{NodeId, Partition}
use rust_accelerator_no_sql.Prelude.{
  ℕ, suc, ◌≡◌, ◌<◌, ◌≤◌, ◌^◌, List, some, true, false, length, contains, arith,
}

-- For different workers, no fewer than replicas, the calculation gives each partition a master that
-- is not among its own replicas, and every owner is a worker of the list.
pub calculate_new_mapping-owners :
    (state : State) (amount factor : ℕ) (ids : List NodeId)
    → Distinct ids
    → suc factor ≤ length ids
    → amount ≤ 2 ^ 16
    → (state' : State) × (calculate_new_mapping state amount (suc factor) ids ≡ some state')
      × ((p : ℕ)
          → p < amount
          → (part : Partition) × (Map.get state'.partitions.mapping p ≡ some part)
            × (Map.contains_key part.replicas part.master ≡ false)
            × ((id : ℕ) → Map.contains_key (owners part) id ≡ true → contains ids id ≡ true))
calculate_new_mapping-owners state amount factor ids d h b =
    let (mapping, done, placed, others) =
      calculate_new_mapping_lem state amount factor ids (omega arith) b in
    (
      with_mapping state mapping,
      done,
      λ p below. (
        (placed p below).0,
        (placed p below).1,
        master_is_no_replica ids factor p mapping (placed p below).0 d h (placed p below)
            (placed p below).1,
        λ id owned.
            owners_are_current ids factor p mapping (placed p below).0 id (omega arith)
              (placed p below) (placed p below).1 owned,
      ),
    )

-- With a replication factor above the number of workers, which nothing rules out, the calculation
-- puts the master of every partition among its own replicas.
pub calculate_new_mapping_wraps :
    (state : State) (amount factor : ℕ) (ids : List NodeId)
    → 0 < length ids
    → length ids < suc factor
    → amount ≤ 2 ^ 16
    → (state' : State) × (calculate_new_mapping state amount (suc factor) ids ≡ some state')
      × ((p : ℕ)
          → p < amount
          → (part : Partition) × (Map.get state'.partitions.mapping p ≡ some part)
            × (Map.contains_key part.replicas part.master ≡ true))
calculate_new_mapping_wraps state amount factor ids h more b =
    let (mapping, done, placed, others) = calculate_new_mapping_lem state amount factor ids h b in
    (
      with_mapping state mapping,
      done,
      λ p below. (
        (placed p below).0,
        (placed p below).1,
        master_is_own_replica ids factor p mapping (placed p below).0 h more (placed p below)
            (placed p below).1,
      ),
    )
