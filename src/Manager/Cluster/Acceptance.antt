-- ===== src/Manager/Cluster/Acceptance.antt =====
-- Which snapshots of the cluster a manager accepts.
use rust_accelerator_no_sql.Prelude.{
  OptionLe-refl, option_lt→le, OptionLe, option_eq_refl, ◌&&◌, option_eq, Bool-cases, option_lt,
  inr, inl, ◌⊎◌, arith, refl, [], List, some, none, false, true, ◌≡◌, ℕ,
}
use rust_accelerator_no_sql.Manager.{State}
use rust_accelerator_no_sql.Manager.Cluster.{prune_nodes, merge_items, handle_cluster_state, accept}
use rust_accelerator_no_sql.Common.{Me, Partitions, ClusterNode, NodeId}

-- The snapshot is of a later epoch, or of the current epoch and its known leader.
abbrev pub IsAcceptable : State → ℕ → NodeId → Type 0
IsAcceptable state epoch leader_id =
    (option_lt state.epoch (some epoch) ≡ true)
    ⊎ ((state.epoch ≡ some epoch) × (state.elected_leader_id ≡ some leader_id))

refused :
    (state : State) (epoch : ℕ) (leader_id : NodeId)
    → option_lt state.epoch (some epoch) ≡ false
    → (option_eq state.epoch (some epoch) && option_eq state.elected_leader_id (some leader_id))
      ≡ false
    → ¬ (IsAcceptable state epoch leader_id)
refused state epoch leader_id l e (inl later) = ground arith
refused state epoch leader_id l e (inr (same_epoch, same_leader)) =
    ground (arith, option_eq_refl epoch, option_eq_refl leader_id)

pub accept_cases :
    (state : State) (epoch : ℕ) (leader_id : NodeId)
    → ((accept state epoch leader_id ≡ none) × ¬ (IsAcceptable state epoch leader_id))
      ⊎ (IsAcceptable state epoch leader_id
          × ((accepted : State) × (accept state epoch leader_id ≡ some accepted)
              × (accepted.epoch ≡ some epoch)
              × (accepted.elected_leader_id ≡ some leader_id)
              × (accepted.nodes ≡ state.nodes)))
unfolding accept
accept_cases state epoch leader_id = elim (Bool-cases (option_lt state.epoch (some epoch))) [
  | inl later ↦ inr (
    inl later,
    (
      record state { epoch = some epoch; elected_leader_id = some leader_id },
      ground arith,
      refl,
      refl,
      refl,
    ),
  )
  | inr not_later ↦
      elim (Bool-cases (
        option_eq state.epoch (some epoch) && option_eq state.elected_leader_id (some leader_id))) [
          | inl same ↦ inr (
            inr (ground arith, ground arith),
            (state, ground arith, ground arith, ground arith, refl),
          )
          | inr differ ↦ inl (ground arith, refused state epoch leader_id not_later differ)
        ]
]

-- A snapshot is taken up exactly when it is of a later epoch, or of the current epoch and the known
-- leader: then the state has the snapshot's epoch, leader and partitions. Otherwise the state stays
-- as it was and nothing is sent.
pub cluster_state_cases :
    (state : State) (epoch : ℕ) (leader_id : NodeId) (items : List ClusterNode)
    (partitions : Partitions) (me : Me)
    → (¬ (IsAcceptable state epoch leader_id)
        × (handle_cluster_state state epoch leader_id items partitions me ≡ (state, [])))
      ⊎ (IsAcceptable state epoch leader_id
          × ((handle_cluster_state state epoch leader_id items partitions me).0.epoch ≡ some epoch)
          × ((handle_cluster_state state epoch leader_id items partitions me).0.elected_leader_id
              ≡ some leader_id)
          × ((handle_cluster_state state epoch leader_id items partitions me).0.partitions
              ≡ partitions)
          × ((handle_cluster_state state epoch leader_id items partitions me).0.nodes
              ≡ (merge_items (prune_nodes state.nodes items me) items).0))
unfolding handle_cluster_state
cluster_state_cases state epoch leader_id items partitions me =
    elim (accept_cases state epoch leader_id) [
      | inl (e, no_) ↦ inl (no_, rw (e, handle_cluster_state))
      | inr (ok, (accepted, e, same_epoch, same_leader, same_nodes)) ↦ inr (
        ok,
        rw (e, handle_cluster_state) same_epoch,
        rw (e, handle_cluster_state) same_leader,
        rw (e, handle_cluster_state),
        rw (e, handle_cluster_state) (rw same_nodes),
      )
    ]

acceptable_le :
    (state : State) (epoch : ℕ) (leader_id : NodeId)
    → IsAcceptable state epoch leader_id
    → OptionLe state.epoch (some epoch)
acceptable_le state epoch leader_id (inl later) = option_lt→le state.epoch (some epoch) later
acceptable_le state epoch leader_id (inr (same, known)) = rw same (omega arith)

-- No snapshot takes the epoch back.
pub cluster_state_epoch :
    (state : State) (epoch : ℕ) (leader_id : NodeId) (items : List ClusterNode)
    (partitions : Partitions) (me : Me)
    → OptionLe state.epoch (handle_cluster_state state epoch leader_id items partitions me).0.epoch
cluster_state_epoch state epoch leader_id items partitions me =
    elim (cluster_state_cases state epoch leader_id items partitions me) [
      | inl (no_, same) ↦ rw same (OptionLe-refl state.epoch)
      | inr (ok, e, rest, more, nodes) ↦ rw e (acceptable_le state epoch leader_id ok)
    ]
