-- ===== src/Manager/Assignment/Examples.antt =====
-- Runs of the theorems on the assignment of partitions.
use rust_accelerator_no_sql.Map
use rust_accelerator_no_sql.Map.{Map}
use rust_accelerator_no_sql.Map.Set.{add}
use rust_accelerator_no_sql.Prelude.{
  ◌%◌, ◌-◌, ◌+◌, ◌≤◌, contains, ◌<◌, arith, refl, ◌∷◌, [], List, some, none, false, true, ◌≡◌, ℕ,
}
use rust_accelerator_no_sql.Common.{worker, Partition, NodeId, Me}
use rust_accelerator_no_sql.Manager.{ManagerProtocol, State}
use rust_accelerator_no_sql.Manager.Assignment.Stability.{worker_partitions_settles, HasEpoch}
use rust_accelerator_no_sql.Manager.Assignment.Distribution.{calculate_new_mapping-owners}
use rust_accelerator_no_sql.Manager.Assignment.Ownership.{with_mapping, Distinct}
use rust_accelerator_no_sql.Manager.Assignment.{
  calc_replica_index, owners, worker_partitions, calculate_new_mapping,
}
use rust_accelerator_no_sql.Manager.Assignment.Places.{StandsAt, calculate_new_mapping_places}
use rust_accelerator_no_sql.Manager.Assignment.Index.{calc_replica_index_lem}

abbrev me : Me
me = record { id = 1; host = ""; port = 9000 }

abbrev workers : List NodeId
workers = 3 ∷ 4 ∷ 5 ∷ []

-- One partition, 0, of the master 3 with the replica 9.
abbrev mapped : Partition
mapped = record { master = 3; replicas = add Map.empty 9 }

abbrev remapped : Partition
remapped = record { master = 4; replicas = add Map.empty 3 }

abbrev led : State
led = record {
  epoch = some 7;
  elected_leader_id = some 1;
  nodes =
      Map.insert Map.empty 3
        (record { host = ""; port = 9001; last_heartbeat = 5; node_type = worker });
  partitions = record {
    mapping = Map.insert Map.empty 0 mapped;
    old_replicas = Map.empty;
    new_replicas = Map.empty;
  };
  workers_with_calculated_partitions = Map.empty;
}

led-HasEpoch : HasEpoch led
led-HasEpoch h = refl

workers-Distinct : Distinct workers
workers-Distinct = (refl, (refl, (refl, tt)))

calculate_new_mapping_places_example :
    (mapping : Map Partition) × (calculate_new_mapping led 4 2 workers
      ≡ some (with_mapping led mapping))
    × ((p : ℕ) → p < 4 → StandsAt workers 1 mapping p)
    × ((p : ℕ) → 4 ≤ p → Map.get mapping p ≡ none)
calculate_new_mapping_places_example =
    calculate_new_mapping_places led 4 1 workers (omega arith) (omega arith)

calculate_new_mapping-owners_example :
    (state' : State) × (calculate_new_mapping led 4 2 workers ≡ some state')
    × ((p : ℕ)
        → p < 4
        → (part : Partition) × (Map.get state'.partitions.mapping p ≡ some part)
          × (Map.contains_key part.replicas part.master ≡ false)
          × ((id : ℕ) → Map.contains_key (owners part) id ≡ true → contains workers id ≡ true))
calculate_new_mapping-owners_example =
    calculate_new_mapping-owners led 4 1 workers workers-Distinct (omega arith) (omega arith)

worker_partitions_settles_example :
    (r : State × List ManagerProtocol) × (worker_partitions led me 2 ≡ some r)
    × (r.0.nodes ≡ led.nodes)
    × (r.0.epoch ≡ led.epoch)
    × (r.0.elected_leader_id ≡ led.elected_leader_id)
    × (worker_partitions r.0 me 2 ≡ some (r.0, []))
worker_partitions_settles_example = worker_partitions_settles led me 2 led-HasEpoch

-- The third replica behind place 1 of five workers, with the walk past the start of the list.
calc_replica_index_lem_example : calc_replica_index 5 1 3 ≡ (1 + 5 - 3 % 5) % 5
calc_replica_index_lem_example = calc_replica_index_lem 5 1 3 (omega arith)
