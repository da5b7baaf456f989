-- ===== src/Manager/Assignment/Mapping.antt =====
-- `calculate_new_mapping`: what the nested loops over partitions and replicas build.
use rust_accelerator_no_sql.Map
use native.Mathlib.Nat.{mod-lt, mod-eq_of_lt}
use rust_accelerator_no_sql.Prelude.{
  Bool-cases, ◌∙◌, ◌^◌, ◌≤◌, ◌+◌, ◌==◌, ◌||◌, contains, ◌%◌, zero, get_elem?, length, suc,
  unwrap_or, ◌<◌, inr, inl, ◌⊎◌, arith, refl, ◌∷◌, [], List, some, false, ◌≡◌, ℕ,
}
use rust_accelerator_no_sql.Common.{Partition, NodeId}
use rust_accelerator_no_sql.Map.{get-empty, Map}
use rust_accelerator_no_sql.Manager.Assignment.{
  place_partitions, calc_replica_index, place_replicas, place,
}
use rust_accelerator_no_sql.Map.Set.{contains_key-add, add}
use rust_accelerator_no_sql.Manager.Assignment.Index.{calc_replica_index-lt}

-- The worker at replica `r` of a partition whose master stands at place `m`.
abbrev pub holder : List NodeId → ℕ → ℕ → NodeId
holder ids m r = unwrap_or (get_elem? ids (calc_replica_index (length ids) m r)) 0

-- The workers at the replicas `r` up to `r + count`.
abbrev pub walk : List NodeId → ℕ → ℕ → ℕ → List NodeId
walk ids m r zero = []
walk ids m r (suc count) = holder ids m r ∷ walk ids m (suc r) count

-- The partition `p` of the mapping has the master and the `count` replicas that the walk says.
abbrev pub IsPlaced : List NodeId → ℕ → Map Partition → ℕ → Type 0
IsPlaced ids count mapping p =
    (part : Partition) × (Map.get mapping p ≡ some part)
    × (part.master ≡ holder ids (p % length ids) 0)
    × ((id : ℕ)
        → Map.contains_key part.replicas id ≡ contains (walk ids (p % length ids) 1 count) id)

get_elem?-lt {ℓ} :
    {A : Type ℓ} (xs : List A) (i : ℕ) → i < length xs → (x : A) × (get_elem? xs i ≡ some x)
get_elem?-lt [] i h = absurd (omega arith)
get_elem?-lt (x ∷ xs) zero h = (x, refl)
get_elem?-lt (x ∷ xs) (suc i) h = get_elem?-lt xs i (omega arith)

pub holder_found :
    (ids : List NodeId) (m r : ℕ)
    → m < length ids
    → get_elem? ids (calc_replica_index (length ids) m r) ≡ some (holder ids m r)
holder_found ids m r h =
    let (x, e) =
      get_elem?-lt ids (calc_replica_index (length ids) m r)
        (calc_replica_index-lt (length ids) m r h) in
    ground (arith, e)

-- What the loop over the replicas has done to the mapping when it ends.
abbrev Extended : Map Partition → ℕ → Partition → List NodeId → Map Partition → Type 0
Extended mapping pid part ids mapping' =
    (part' : Partition) × (Map.get mapping' pid ≡ some part')
    × (part'.master ≡ part.master)
    × ((id : ℕ)
        → Map.contains_key part'.replicas id
          ≡ (contains ids id || Map.contains_key part.replicas id))
    × ((q : ℕ) → (q == pid) ≡ false → Map.get mapping' q ≡ Map.get mapping q)

place_more :
    (ids : List NodeId) (m pid r : ℕ) (part : Partition) (mapping : Map Partition)
    → m < length ids
    → 0 < r
    → Map.get mapping pid ≡ some part
    → place ids m pid r mapping
      ≡ some
          (Map.insert mapping pid (record part { replicas = add part.replicas (holder ids m r) }))
unfolding place
place_more ids m pid r part mapping h p e = ground (arith, holder_found ids m r h)

place_replicas-step :
    (count : ℕ) (ids : List NodeId) (m pid r : ℕ) (mapping mapping₁ mapping' : Map Partition)
    → place ids m pid r mapping ≡ some mapping₁
    → place_replicas count ids m pid (suc r) mapping₁ ≡ some mapping'
    → place_replicas (suc count) ids m pid r mapping ≡ some mapping'
unfolding place_replicas
place_replicas-step count ids m pid r mapping mapping₁ mapping' e f = ground (arith, e, f)

place_replicas_lem :
    (count : ℕ) (ids : List NodeId) (m pid r : ℕ) (part : Partition) (mapping : Map Partition)
    → m < length ids
    → 0 < r
    → Map.get mapping pid ≡ some part
    → (mapping' : Map Partition) × (place_replicas count ids m pid r mapping ≡ some mapping')
      × Extended mapping pid part (walk ids m r count) mapping'
unfolding place_replicas
place_replicas_lem zero ids m pid r part mapping h p e =
    (mapping, refl, (part, e, refl, λ id. ground arith, λ q _. refl))
place_replicas_lem (suc count) ids m pid r part mapping h p e =
    let x = holder ids m r in
    let part₁ : Partition = record part { replicas = add part.replicas x } in
    let mapping₁ = Map.insert mapping pid part₁ in
    let found : Map.get mapping₁ pid ≡ some part₁ =
      ground (arith, Map.get-insert mapping pid pid part₁) in
    let (mapping', done, extended) =
      place_replicas_lem count ids m pid (suc r) part₁ mapping₁ h (omega arith) found in
    let (part', found', masters, holds, others) = extended in
    (
      mapping',
      place_replicas-step count ids m pid r mapping mapping₁ mapping'
          (place_more ids m pid r part mapping h p e) done,
      (
        part',
        found',
        masters,
        λ id. ground (arith, holds id, contains_key-add part.replicas x id),
        λ q ne. ground (arith, others q ne, Map.get-insert mapping pid q part₁),
      ),
    )

place_first :
    (ids : List NodeId) (m pid : ℕ) (mapping : Map Partition)
    → m < length ids
    → place ids m pid 0 mapping
      ≡ some (Map.insert mapping pid (record { master = holder ids m 0; replicas = Map.empty }))
unfolding place
place_first ids m pid mapping h = ground (arith, holder_found ids m 0 h)

-- One partition: its entry is as specified, and the others are as they were.
place_partition_lem :
    (factor : ℕ) (ids : List NodeId) (p : ℕ) (mapping : Map Partition)
    → 0 < length ids
    → (mapping' : Map Partition) × (place_replicas (suc factor) ids (p % length ids) p 0 mapping
        ≡ some mapping')
      × IsPlaced ids factor mapping' p
      × ((q : ℕ) → (q == p) ≡ false → Map.get mapping' q ≡ Map.get mapping q)
unfolding Map.contains_key
place_partition_lem factor ids p mapping h =
    let m : ℕ = p % length ids in
    let below : p % length ids < length ids = mod-lt p h in
    let part₁ : Partition = record { master = holder ids m 0; replicas = Map.empty } in
    let mapping₁ = Map.insert mapping p part₁ in
    let found : Map.get mapping₁ p ≡ some part₁ =
      ground (arith, Map.get-insert mapping p p part₁) in
    let (mapping', done, extended) =
      place_replicas_lem factor ids m p 1 part₁ mapping₁ below (omega arith) found in
    let (part', found', masters, holds, others) = extended in
    (
      mapping',
      place_replicas-step factor ids m p 0 mapping mapping₁ mapping'
          (place_first ids m p mapping below) done,
      (part', found', masters, λ id. ground (arith, holds id, get-empty {0} {V = Unit {0}} id)),
      λ q ne. ground (arith, others q ne, Map.get-insert mapping p q part₁),
    )

place_partitions-step :
    (count : ℕ) (ids : List NodeId) (factor p : ℕ) (mapping mapping₁ mapping' : Map Partition)
    → p < 2 ^ 16
    → place_replicas (suc factor) ids (p % length ids) p 0 mapping ≡ some mapping₁
    → place_partitions count ids (suc factor) (suc p) mapping₁ ≡ some mapping'
    → place_partitions (suc count) ids (suc factor) p mapping ≡ some mapping'
unfolding place_partitions
place_partitions-step count ids factor p mapping mapping₁ mapping' b e f =
    let small : p % 2 ^ 16 ≡ p = mod-eq_of_lt b in ground (arith, small, e, f)

eq_or_above : (p q : ℕ) → p ≤ q → (q ≡ p) ⊎ (suc p ≤ q)
eq_or_above p q h = elim (Bool-cases (q == p)) [
  | inl same ↦ inl (ground arith)
  | inr other ↦ inr (ground arith)
]

outside : (p count q : ℕ) → (q < p) ⊎ (p + suc count ≤ q) → (q < suc p) ⊎ (suc p + count ≤ q)
outside p count q (inl below) = inl (omega arith)
outside p count q (inr above) = inr (omega arith)

IsPlaced-transfer :
    (ids : List NodeId) (factor : ℕ) (mapping mapping' : Map Partition) (q : ℕ)
    → Map.get mapping' q ≡ Map.get mapping q
    → IsPlaced ids factor mapping q
    → IsPlaced ids factor mapping' q
IsPlaced-transfer ids factor mapping mapping' q e (part, found, master, holds) =
    (part, e ∙ found, master, holds)

-- The loop over the partitions.
pub place_partitions_lem :
    (count : ℕ) (ids : List NodeId) (factor p : ℕ) (mapping : Map Partition)
    → 0 < length ids
    → p + count ≤ 2 ^ 16
    → (mapping' : Map Partition) × (place_partitions count ids (suc factor) p mapping
        ≡ some mapping')
      × ((q : ℕ) → p ≤ q → q < p + count → IsPlaced ids factor mapping' q)
      × ((q : ℕ) → (q < p) ⊎ (p + count ≤ q) → Map.get mapping' q ≡ Map.get mapping q)
unfolding place_partitions
place_partitions_lem zero ids factor p mapping h b =
    (mapping, refl, λ q lo hi. absurd (omega arith), λ q out. refl)
place_partitions_lem (suc count) ids factor p mapping h b =
    let (mapping₁, done₁, placed, kept) = place_partition_lem factor ids p mapping h in
    let (mapping', done, later, others) =
      place_partitions_lem count ids factor (suc p) mapping₁ h (omega arith) in
    (
      mapping',
      place_partitions-step count ids factor p mapping mapping₁ mapping' (omega arith) done₁ done,
      λ q lo hi. elim (eq_or_above p q lo) [
        | inl same ↦
            rw same (
              IsPlaced-transfer ids factor mapping₁ mapping' p (others p (inl (omega arith)))
                placed)
        | inr above ↦ later q above (omega arith)
      ],
      λ q out. others q (outside p count q out) ∙ kept q (ground arith),
    )
