-- ===== src/Manager/Election.antt =====
-- crates/no-sql-store/src/manager/service/election.rs: candidacies, votes and the leader's notice.
-- A handler returns the new state and elections and the messages that it pushes to `output`. The
-- clock's reading and the random timeout are arguments.
pub mod Votes
pub mod Candidacy
pub mod Epochs
use rust_accelerator_no_sql.Prelude.{
  ℕ, ◌+◌, Bool, true, false, Option, none, some, List, [], ◌∷◌, map, not, ◌&&◌, ◌||◌, max, ltb,
  ◌==◌, if◌then◌else◌, option_lt, add64, length, all,
}
use rust_accelerator_no_sql.Map
use rust_accelerator_no_sql.Map.{Map}
use rust_accelerator_no_sql.Map.Set.{Set, add}
use rust_accelerator_no_sql.Common.{NodeId, Node, Me, is_manager}
use rust_accelerator_no_sql.Manager.{
  ask_managers, other_nodes, get_manager, other_managers, State, ManagerProtocol, get_cluster_state,
  vote_request, vote_response, leader,
}

pub data Election : Type 0 where
  mine : (ts : ℕ) (approvers : Set) → Election
  other : (ts : ℕ) (candidate_id : NodeId) → Election

unfoldable pub election_ts : Election → ℕ
election_ts (mine ts approvers) = ts
election_ts (other ts candidate_id) = ts

abbrev pub Elections : Type 0
Elections = Map Election

abbrev pub Outcome : Type 0
Outcome = State × Elections × List ManagerProtocol

unfoldable pub is_election_due : Elections → ℕ → ℕ → Bool
unfolding Map.last_entry election_ts
is_election_due elections random curr_ts = elim (Map.last_entry elections) [
  | none ↦ true
  | some (_, election) ↦ ltb (add64 (election_ts election) random) curr_ts
]

unfoldable pub next_epoch : Elections → ℕ → ℕ
unfolding Map.last_entry
next_epoch elections epoch = elim (Map.last_entry elections) [
  | none ↦ add64 epoch 1
  | some (last_epoch, _) ↦ max (add64 last_epoch 1) (add64 epoch 1)
]

unfoldable pub start_election : State → Elections → Me → ℕ → ℕ → Outcome
unfolding next_epoch other_managers Map.empty Map.insert
start_election state elections me epoch curr_ts =
    let e = next_epoch elections epoch in
    (
      state,
      Map.insert Map.empty e (mine curr_ts Map.empty),
      map (λ id. vote_request id e curr_ts) (other_managers state.nodes me),
    )

unfoldable pub start_election_if_needed : State → Elections → Me → ℕ → ℕ → Outcome
unfolding start_election is_election_due Map.len
start_election_if_needed state elections me random curr_ts = elim state.elected_leader_id [
  | some _ ↦ (state, elections, [])
  | none ↦
      if ltb 1 (Map.len state.nodes)
      then elim state.epoch [
        | none ↦ (state, elections, [])
        | some epoch ↦
            if is_election_due elections random curr_ts
            then start_election state elections me epoch curr_ts
            else (state, elections, [])
      ]
      else (state, elections, [])
]

unfoldable pub handle_leader : State → NodeId → ℕ → ℕ → Me → Elections → Outcome
unfolding get_manager ask_managers Map.empty Map.insert
handle_leader state id epoch ts me elections =
    if option_lt state.epoch (some epoch)
    then elim (get_manager state.nodes id) [
      | some node ↦ (
        record state {
          nodes = Map.insert state.nodes id (record node { last_heartbeat = ts });
          elected_leader_id = some id;
          epoch = some epoch;
        },
        Map.empty,
        [],
      )
      | none ↦ (state, Map.empty, ask_managers state.nodes me)
    ]
    else (state, elections, [])

-- The epoch of this node's candidacy that a vote is for.
unfoldable pub approved_epoch : Elections → NodeId → ℕ → Me → Option ℕ
unfolding Map.last_entry
approved_epoch elections leader_id ts me = elim (Map.last_entry elections) [
  | none ↦ none
  | some (epoch, election) ↦ elim election [
    | mine election_ts approvers ↦
        if election_ts == ts && leader_id == me.id then some epoch else none
    | other election_ts candidate_id ↦ none
  ]
]

unfoldable pub is_unanimous : Set → Map Node → Me → Bool
unfolding other_managers Map.len Map.contains_key
is_unanimous approvers nodes me =
    Map.len approvers == length (other_managers nodes me)
    && all (Map.contains_key approvers) (other_managers nodes me)

unfoldable pub count_vote : State → Elections → ℕ → ℕ → Set → NodeId → ℕ → Me → Outcome
unfolding is_unanimous other_nodes add Map.insert Map.empty
count_vote state elections epoch election_ts approvers id ts me =
    let approvers' = add approvers id in
    if is_unanimous approvers' state.nodes me
    then (
      record state { elected_leader_id = some me.id; epoch = some epoch },
      Map.empty,
      map (λ node_id. leader node_id epoch ts) (other_nodes state.nodes me),
    )
    else (state, Map.insert elections epoch (mine election_ts approvers'), [])

unfoldable pub handle_vote_response : State → NodeId → NodeId → ℕ → Me → Elections → Outcome
unfolding approved_epoch count_vote ask_managers Map.get Map.contains_key
handle_vote_response state id leader_id ts me elections =
    elim (approved_epoch elections leader_id ts me) [
      | some epoch ↦ elim (Map.get elections epoch) [
        | none ↦ (state, elections, [])
        | some election ↦ elim election [
          | mine election_ts approvers ↦
              count_vote state elections epoch election_ts approvers id ts me
          | other election_ts candidate_id ↦ (state, elections, [])
        ]
      ]
      | none ↦
          if Map.contains_key state.nodes leader_id
          then (state, elections, [])
          else (state, elections, ask_managers state.nodes me)
    ]

-- Whether a request supersedes the election that is under way.
unfoldable pub supersedes : Elections → ℕ → ℕ → Bool
unfolding Map.last_entry election_ts
supersedes elections epoch ts = elim (Map.last_entry elections) [
  | none ↦ true
  | some (last_epoch, last_election) ↦ ltb last_epoch epoch || ltb ts (election_ts last_election)
]

unfoldable pub handle_vote_request : State → NodeId → ℕ → ℕ → Elections → Outcome
unfolding supersedes Map.get Map.insert Map.empty
handle_vote_request state id epoch ts elections =
    if option_lt state.epoch (some epoch)
    then if supersedes elections epoch ts
      then (state, Map.insert Map.empty epoch (other ts id), vote_response id id ts ∷ [])
      else elim (Map.get elections epoch) [
        | none ↦ (state, elections, [])
        | some election ↦ elim election [
          | mine election_ts approvers ↦ (state, elections, [])
          | other election_ts candidate_id ↦
              (state, elections, vote_response id candidate_id election_ts ∷ [])
        ]
      ]
    else (state, elections, [])
