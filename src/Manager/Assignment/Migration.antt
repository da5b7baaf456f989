-- ===== src/Manager/Assignment/Migration.antt =====
-- The sets of old and new replicas, by which the workers move their records.
use rust_accelerator_no_sql.Map
use rust_accelerator_no_sql.Map.Entries
use rust_accelerator_no_sql.Prelude.{
  Bool-cases, ◌∙◌, Option-cases, not, contains, ◌||◌, ◌&&◌, ◌==◌, inr, inl, arith, refl,
  if◌then◌else◌, ◌∷◌, [], List, some, none, Option, false, Bool, ◌≡◌,
}
use rust_accelerator_no_sql.Map.{contains_key-is_empty, contains-keys, Map}
use rust_accelerator_no_sql.Common.{PartitionId, NodeId, Partition}
use rust_accelerator_no_sql.Manager.Assignment.{
  record_new_replica, joining_replicas, promoted_master, record_new_replicas, new_owners,
  copy_current_mapping_to_old, retain_current, add_all_owners, add_owners, owners,
}
use rust_accelerator_no_sql.Map.Set.{
  contains_key-empty, contains_key-filter_set, extend, add, contains_key-extend, filter_set,
  contains_key-add, Set,
}
use rust_accelerator_no_sql.Manager.{State}

-- The node is in the set that the map has for the partition.
unfoldable pub holds : Map Set → PartitionId → NodeId → Bool
holds sets p id = elim (Map.get sets p) [ none ↦ false | some s ↦ Map.contains_key s id ]

-- The node is an owner, by what a lookup in the mapping gives.
unfoldable pub owns : Option Partition → NodeId → Bool
owns none id = false
owns (some part) id = part.master == id || Map.contains_key part.replicas id

pub contains_key-owners :
    (part : Partition) (id : NodeId) → Map.contains_key (owners part) id ≡ owns (some part) id
unfolding owners owns
contains_key-owners part id = contains_key-add part.replicas part.master id

holds-insert :
    (sets : Map Set) (p q : PartitionId) (s : Set) (id : NodeId)
    → holds (Map.insert sets p s) q id ≡ (if p == q then Map.contains_key s id else holds sets q id)
unfolding holds
holds-insert sets p q s id = ground (arith, Map.get-insert sets p q s)

holds-add_owners :
    (old : Map Set) (p q : PartitionId) (part : Partition) (id : NodeId)
    → holds (add_owners old p part) q id
      ≡ (if p == q then owns (some part) id || holds old q id else holds old q id)
unfolding add_owners holds owns
holds-add_owners old p q part id = elim (Option-cases (Map.get old p)) [
  | inl e ↦ ground (arith, e, holds-insert old p q (owners part) id, contains_key-owners part id)
  | inr (s, e) ↦ ground (
    arith,
    e,
    holds-insert old p q (add (extend s (Map.keys part.replicas)) part.master) id,
    contains_key-add (extend s (Map.keys part.replicas)) part.master id,
    contains_key-extend s (Map.keys part.replicas) id,
    contains-keys part.replicas id,
  )
]

-- Every owner in the entries has become an old replica.
holds-add_all_owners :
    (es : List (PartitionId × Partition)) (old : Map Set) (q : PartitionId) (id : NodeId)
    → Entries.IsSorted es
    → holds (add_all_owners es old) q id ≡ (owns (Entries.lookup q es) id || holds old q id)
unfolding add_all_owners Entries.lookup owns
holds-add_all_owners [] old q id s = refl
holds-add_all_owners ((p, part) ∷ es) old q id s = ground (
  arith,
  holds-add_all_owners es (add_owners old p part) q id,
  holds-add_owners old p q part id,
  Entries.lookup_above p es,
)

holds-retain_current :
    (old : Map Set) (ids : List NodeId) (q : PartitionId) (id : NodeId)
    → holds (retain_current old ids) q id ≡ (contains ids id && holds old q id)
unfolding retain_current holds
holds-retain_current old ids q id = elim (Option-cases (Map.get old q)) [
  | inl e ↦ ground (
    arith,
    e,
    Map.get-retain (λ _ s. not (Map.is_empty s))
        (Map.map_values (λ _ s. filter_set (contains ids) s) old) q,
    Map.get-map_values (λ _ s. filter_set (contains ids) s) old q,
  )
  | inr (s, e) ↦ ground (
    arith,
    e,
    Map.get-retain (λ _ s. not (Map.is_empty s))
        (Map.map_values (λ _ s. filter_set (contains ids) s) old) q,
    Map.get-map_values (λ _ s. filter_set (contains ids) s) old q,
    contains_key-is_empty (filter_set (contains ids) s) id,
    contains_key-filter_set (contains ids) s id,
  )
]

-- After the copy a node is an old replica of a partition exactly when it is still a worker and
-- was an owner or an old replica before.
pub holds-copy_current_mapping_to_old :
    (state : State) (ids : List NodeId) (q : PartitionId) (id : NodeId)
    → holds (copy_current_mapping_to_old state ids).partitions.old_replicas q id ≡ (
        contains ids id
        && (owns (Map.get state.partitions.mapping q) id
            || holds state.partitions.old_replicas q id))
unfolding copy_current_mapping_to_old Map.get
holds-copy_current_mapping_to_old state ids q id = ground (
  arith,
  holds-retain_current
      (add_all_owners state.partitions.mapping.entries state.partitions.old_replicas) ids q id,
  holds-add_all_owners state.partitions.mapping.entries state.partitions.old_replicas q id
      state.partitions.mapping.sorted,
)

contains_key-promoted_master :
    (old new : Partition) (id : NodeId)
    → Map.contains_key (promoted_master old new) id ≡ (new.master == id && not (owns (some old) id))
unfolding promoted_master owns
contains_key-promoted_master old new id =
    ground (arith, contains_key-add Map.empty new.master id, contains_key-empty id)

contains_key-joining_replicas :
    (old new : Partition) (id : NodeId)
    → Map.contains_key (joining_replicas old new) id
      ≡ (Map.contains_key new.replicas id && not (owns (some old) id))
unfolding joining_replicas owns
contains_key-joining_replicas old new id =
    contains_key-filter_set (λ r. not (r == old.master) && not (Map.contains_key old.replicas r))
      new.replicas id
    ∙ ground arith

-- A node is a new owner exactly when it owns the partition by the new mapping and not by the old.
pub contains_key-new_owners :
    (old new : Partition) (id : NodeId)
    → Map.contains_key (new_owners old new) id ≡ (owns (some new) id && not (owns (some old) id))
unfolding new_owners owns
contains_key-new_owners old new id = ground (
  arith,
  contains_key-extend (promoted_master old new) (Map.keys (joining_replicas old new)) id,
  contains-keys (joining_replicas old new) id,
  contains_key-promoted_master old new id,
  contains_key-joining_replicas old new id,
)

-- What is recorded for a partition: its new owners, if both mappings have it.
abbrev pub recorded : Option Partition → Option Partition → Option Set → Option Set
recorded none new kept = kept
recorded (some old) none kept = kept
recorded (some old) (some new) kept = some (new_owners old new)

get-record_new_replica :
    (new_mapping : Map Partition) (sets : Map Set) (p q : PartitionId) (old : Partition)
    → Map.get (record_new_replica new_mapping sets p old) q ≡ (
        if p == q
        then recorded (some old) (Map.get new_mapping q) (Map.get sets q)
        else Map.get sets q)
unfolding record_new_replica
get-record_new_replica new_mapping sets p q old = elim (Option-cases (Map.get new_mapping p)) [
  | inl e ↦ ground (arith, e)
  | inr (new, e) ↦ ground (arith, e, Map.get-insert sets p q (new_owners old new))
]

get-record_entries :
    (es : List (PartitionId × Partition)) (new_mapping : Map Partition) (sets : Map Set)
    (q : PartitionId)
    → Entries.IsSorted es
    → Map.get (record_new_replicas es new_mapping sets) q
      ≡ recorded (Entries.lookup q es) (Map.get new_mapping q) (Map.get sets q)
unfolding record_new_replicas Entries.lookup
get-record_entries [] new_mapping sets q s = refl
get-record_entries ((p, old) ∷ es) new_mapping sets q s =
    get-record_entries es new_mapping (record_new_replica new_mapping sets p old) q s.1
    ∙ elim (Bool-cases (p == q)) [
      | inl same ↦
          ground
            (arith, Entries.lookup_above p es s.0, get-record_new_replica new_mapping sets p q old)
      | inr differ ↦ rw (get-record_new_replica new_mapping sets p q old, differ)
    ]

-- The new replicas of a partition that both mappings have are its new owners; those of any other
-- partition stay.
pub get-record_new_replicas :
    (mapping new_mapping : Map Partition) (sets : Map Set) (q : PartitionId)
    → Map.get (record_new_replicas mapping.entries new_mapping sets) q
      ≡ recorded (Map.get mapping q) (Map.get new_mapping q) (Map.get sets q)
unfolding Map.get
get-record_new_replicas mapping new_mapping sets q =
    get-record_entries mapping.entries new_mapping sets q mapping.sorted
