-- ===== src/Manager/Election/Epochs.antt =====
-- The epoch of a manager's state under the messages of an election.
use rust_accelerator_no_sql.Map
use rust_accelerator_no_sql.Manager.{Node, NodeId, State}
use rust_accelerator_no_sql.Manager.Election.{
  ask_managers, get_manager, mine, Elections, Me, handle_vote_response, handle_leader,
}
use rust_accelerator_no_sql.Prelude.{
  Option-cases, Bool-cases, false, arith, none, ◌⊎◌, option_lt→le, [], inr, OptionLe-refl, inl,
  true, ◌≡◌, some, OptionLe, option_lt, ℕ,
}
use rust_accelerator_no_sql.Manager.Election.Candidacy.{IsCurrent}
use rust_accelerator_no_sql.Manager.Election.Votes.{vote_response_is_unanimous}
use rust_accelerator_no_sql.Map.{get-last_entry}

-- With at most one election under way, of an epoch ahead of the state's, no vote takes the epoch
-- back.
pub vote_response_epoch :
    (state : State) (id leader_id : NodeId) (ts : ℕ) (me : Me) (elections : Elections)
    → IsCurrent state elections
    → OptionLe state.epoch (handle_vote_response state id leader_id ts me elections).0.epoch
vote_response_epoch state id leader_id ts me elections c =
    elim (vote_response_is_unanimous state id leader_id ts me elections) [
      | inl same ↦ rw same (OptionLe-refl state.epoch)
      | inr (epoch, carries, is_won, cleared) ↦
          let (named, candidacy) = carries in
          let (approvers, last, all) = candidacy in
          rw is_won (
            option_lt→le state.epoch (some epoch)
              (c.ahead epoch (mine ts approvers) (get-last_entry elections last)))
    ]

-- A `Leader` message is taken up only if its epoch is later than the state's and its sender is a
-- known manager; the elections are then over. With a later epoch of an unknown sender the other
-- managers are asked for the cluster's state. Any other message changes nothing.
pub leader_cases :
    (state : State) (id : NodeId) (epoch ts : ℕ) (me : Me) (elections : Elections)
    → ((option_lt state.epoch (some epoch) ≡ true)
        × ((node : Node) × (get_manager state.nodes id ≡ some node)
            × ((handle_leader state id epoch ts me elections).0.elected_leader_id ≡ some id)
            × ((handle_leader state id epoch ts me elections).0.epoch ≡ some epoch)
            × ((handle_leader state id epoch ts me elections).1 ≡ Map.empty)
            × ((handle_leader state id epoch ts me elections).2 ≡ [])))
      ⊎ (((option_lt state.epoch (some epoch) ≡ true)
            × (get_manager state.nodes id ≡ none)
            × (handle_leader state id epoch ts me elections
                ≡ (state, Map.empty, ask_managers state.nodes me)))
          ⊎ ((option_lt state.epoch (some epoch) ≡ false)
              × (handle_leader state id epoch ts me elections ≡ (state, elections, []))))
unfolding handle_leader
leader_cases state id epoch ts me elections =
    elim (Bool-cases (option_lt state.epoch (some epoch))) [
      | inl later ↦ elim (Option-cases (get_manager state.nodes id)) [
        | inl e ↦ inr (inl (later, e, ground arith))
        | inr (node, e) ↦
            inl (later, (node, e, ground arith, ground arith, ground arith, ground arith))
      ]
      | inr earlier ↦ inr (inr (earlier, ground arith))
    ]
