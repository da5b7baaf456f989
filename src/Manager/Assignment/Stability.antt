-- ===== src/Manager/Assignment/Stability.antt =====
-- `worker_partitions` as a whole, and when it acts again.
use rust_accelerator_no_sql.Map
use rust_accelerator_no_sql.Map.Set
use rust_accelerator_no_sql.Prelude.{
  zero, sym, ap, ◌∙◌, Option-cases, map, not, ◌&&◌, option_eq, Bool-cases, suc, is_some, inr, inl,
  arith, refl, ◌∷◌, [], List, some, true, Bool, ◌≡◌, ℕ,
}
use rust_accelerator_no_sql.Manager.{other_nodes, cluster_state, ManagerProtocol, State}
use rust_accelerator_no_sql.Manager.Assignment.{
  place_replicas, place_partitions, worker_ids, calculate_new_mapping, worker_partitions,
  is_assigned, create_new_workers_state, copy_current_mapping_to_old, reassign,
}
use rust_accelerator_no_sql.Common.{Node, ClusterState, Partition, partitions_amount, Me, NodeId}
use rust_accelerator_no_sql.Map.Set.{
  keys-IsAscending, list_eq_refl, len-keys, set_eq, keys-from_list, IsAscending,
}
use rust_accelerator_no_sql.Manager.Assignment.Ownership.{
  calculate_new_mapping-done, with_mapping, calculate_new_mapping_lem,
}
use rust_accelerator_no_sql.Map.{Map}

-- A leader is known only together with its epoch.
abbrev pub HasEpoch : State → Type 0
HasEpoch state = (is_some state.elected_leader_id ≡ true) → is_some state.epoch ≡ true

-- What a recalculation leaves alone, and the workers that it notes.
pub record IsReassigned (state state' : State) (ids : List NodeId) : Type 0 where
  pub nodes : state'.nodes ≡ state.nodes
  pub epoch : state'.epoch ≡ state.epoch
  pub leader : state'.elected_leader_id ≡ state.elected_leader_id
  pub workers : Map.keys state'.workers_with_calculated_partitions ≡ ids

create_new_workers_state-some :
    (state : State) (epoch leader_id : ℕ)
    → state.epoch ≡ some epoch
    → state.elected_leader_id ≡ some leader_id
    → create_new_workers_state state
      ≡ some (record {
        epoch = epoch;
        leader_id = leader_id;
        nodes = [];
        partitions = state.partitions;
      })
unfolding create_new_workers_state
create_new_workers_state-some state epoch leader_id e l = ground (arith, e, l)

reassign-some :
    (state : State) (me : Me) (factor epoch leader_id id : ℕ) (ids : List NodeId)
    (mapping : Map Partition)
    → state.epoch ≡ some epoch
    → state.elected_leader_id ≡ some leader_id
    → calculate_new_mapping
        (copy_current_mapping_to_old state (id ∷ ids))
        partitions_amount
        factor
        (id ∷ ids)
      ≡ some (with_mapping (copy_current_mapping_to_old state (id ∷ ids)) mapping)
    → IsAscending (id ∷ ids)
    → (r : State × List ManagerProtocol) × (reassign state me factor (id ∷ ids) ≡ some r)
      × IsReassigned state r.0 (id ∷ ids)
unfolding reassign copy_current_mapping_to_old
reassign-some state me factor epoch leader_id id ids mapping e l done a =
    let copied = copy_current_mapping_to_old state (id ∷ ids) in
    let state' = with_mapping copied mapping in
    let workers_state : ClusterState = record {
      epoch = epoch;
      leader_id = leader_id;
      nodes = [];
      partitions = state'.partitions;
    } in
    (
      (
        record state' { workers_with_calculated_partitions = Set.from_list (id ∷ ids) },
        map (λ recipient_id. cluster_state recipient_id workers_state) (other_nodes state.nodes me),
      ),
      rw (done, reassign) (rw (create_new_workers_state-some state' epoch leader_id e l)),
      record { nodes = refl; epoch = refl; leader = refl; workers = keys-from_list (id ∷ ids) a },
    )

-- Without replicas no partition is mapped.
place_partitions_none :
    (count : ℕ) (ids : List NodeId) (p : ℕ) (mapping : Map Partition)
    → place_partitions count ids 0 p mapping ≡ some mapping
unfolding place_partitions place_replicas
place_partitions_none zero ids p mapping = refl
place_partitions_none (suc count) ids p mapping = place_partitions_none count ids (suc p) mapping

calculate_new_mapping_done :
    (state : State) (factor id : ℕ) (ids : List NodeId)
    → (mapping : Map Partition) × (calculate_new_mapping state partitions_amount factor (id ∷ ids)
        ≡ some (with_mapping state mapping))
calculate_new_mapping_done state zero id ids = (
  Map.empty,
  calculate_new_mapping-done state partitions_amount 0 (id ∷ ids) Map.empty
      (place_partitions_none partitions_amount (id ∷ ids) 0 Map.empty),
)
calculate_new_mapping_done state (suc factor) id ids =
    let (mapping, done, _, _) =
      calculate_new_mapping_lem state partitions_amount factor (id ∷ ids) (omega arith)
        (omega arith) in
    (mapping, done)

reassign_lem :
    (state : State) (me : Me) (factor epoch leader_id : ℕ) (ids : List NodeId)
    → state.epoch ≡ some epoch
    → state.elected_leader_id ≡ some leader_id
    → IsAscending ids
    → (r : State × List ManagerProtocol) × (reassign state me factor ids ≡ some r)
      × IsReassigned state r.0 ids
unfolding reassign copy_current_mapping_to_old Set.from_list
reassign_lem state me factor epoch leader_id [] e l a = (
  (
    record (copy_current_mapping_to_old state []) {
      workers_with_calculated_partitions = Map.empty;
    },
    [],
  ),
  refl,
  record { nodes = refl; epoch = refl; leader = refl; workers = keys-from_list [] tt },
)
reassign_lem state me factor epoch leader_id (id ∷ ids) e l a =
    let (mapping, done) =
      calculate_new_mapping_done (copy_current_mapping_to_old state (id ∷ ids)) factor id ids in
    reassign-some state me factor epoch leader_id id ids mapping e l done a

is_assigned_lem :
    (state : State)
    → Map.keys state.workers_with_calculated_partitions ≡ Map.keys (worker_ids state.nodes)
    → is_assigned state ≡ true
unfolding is_assigned set_eq
is_assigned_lem state h = ground (
  arith,
  h,
  len-keys state.workers_with_calculated_partitions,
  len-keys (worker_ids state.nodes),
  list_eq_refl (Map.keys (worker_ids state.nodes)),
)

acting_leader :
    (state : State) (me : Me) (assigned : Bool)
    → (option_eq state.elected_leader_id (some me.id) && not assigned) ≡ true
    → state.elected_leader_id ≡ some me.id
acting_leader state me assigned h = ground arith

known_epoch :
    (state : State) (leader_id : ℕ)
    → HasEpoch state
    → state.elected_leader_id ≡ some leader_id
    → (epoch : ℕ) × (state.epoch ≡ some epoch)
known_epoch state leader_id h l = elim (Option-cases state.epoch) [
  | inl e ↦ absurd (ground (arith, h (rw l)))
  | inr found ↦ found
]

assigned_idle :
    (state : State) (me : Me) (factor : ℕ)
    → is_assigned state ≡ true
    → worker_partitions state me factor ≡ some (state, [])
unfolding worker_partitions
assigned_idle state me factor h = ground (arith, h)

-- With any replication factor, and a leader known only together with its epoch, the tick's
-- `worker_partitions` does not panic, leaves the nodes, the epoch and the leader as they are, and doing
-- it again changes nothing and sends nothing.
pub worker_partitions_settles :
    (state : State) (me : Me) (factor : ℕ)
    → HasEpoch state
    → (r : State × List ManagerProtocol) × (worker_partitions state me factor ≡ some r)
      × (r.0.nodes ≡ state.nodes)
      × (r.0.epoch ≡ state.epoch)
      × (r.0.elected_leader_id ≡ state.elected_leader_id)
      × (worker_partitions r.0 me factor ≡ some (r.0, []))
unfolding worker_partitions
worker_partitions_settles state me factor h =
    elim (Bool-cases (option_eq state.elected_leader_id (some me.id) && not (is_assigned state))) [
      | inr idle ↦ (
        (state, []),
        rw (idle, worker_partitions),
        refl,
        refl,
        refl,
        rw (idle, worker_partitions),
      )
      | inl acts ↦
          let leads = acting_leader state me (is_assigned state) acts in
          let (epoch, e) = known_epoch state me.id h leads in
          let (r, done, kept) =
            reassign_lem state me factor epoch me.id (Map.keys (worker_ids state.nodes)) e leads
              (keys-IsAscending (worker_ids state.nodes)) in
          (
            r,
            rw (acts, worker_partitions) done,
            kept.nodes,
            kept.epoch,
            kept.leader,
            assigned_idle r.0 me factor (
                is_assigned_lem r.0 (
                  kept.workers
                  ∙ ap (λ (nodes : Map Node). Map.keys (worker_ids nodes)) (sym kept.nodes))),
          )
    ]
