-- ===== src/Manager/Election/Votes.antt =====
-- What a vote can do in an election.
use rust_accelerator_no_sql.Prelude.{
  Bool-cases, ◌⊎◌, ℕ, ◌≡◌, inl, inr, true, some, arith, contains, all-contains, Option-cases,
}
use rust_accelerator_no_sql.Map
use rust_accelerator_no_sql.Map.{Map, get-last_entry, last_entry-get, len-insert_single}
use rust_accelerator_no_sql.Map.Set.{Set, add}
use rust_accelerator_no_sql.Common.{NodeId, Node, Me}
use rust_accelerator_no_sql.Manager.Election.{
  handle_vote_response, count_vote, State, Election, mine, other, Elections, other_managers,
  is_unanimous, approved_epoch,
}

-- Every manager that this node knows has approved.
abbrev pub Unanimous : Set → Map Node → Me → Type 0
Unanimous approvers nodes me =
    (m : ℕ) → contains (other_managers nodes me) m ≡ true → Map.contains_key approvers m ≡ true

pub is_unanimous-Unanimous :
    (approvers : Set) (nodes : Map Node) (me : Me)
    → is_unanimous approvers nodes me ≡ true
    → Unanimous approvers nodes me
unfolding is_unanimous
is_unanimous-Unanimous approvers nodes me h m k =
    all-contains (Map.contains_key approvers) (other_managers nodes me) m (ground arith) k

-- The vote of `id` carries the candidacy `(epoch, ts)` of this node.
abbrev pub Carries : Elections → Map Node → NodeId → NodeId → ℕ → Me → ℕ → Type 0
Carries elections nodes id leader_id ts me epoch =
    (leader_id ≡ me.id)
    × ((approvers : Set) × (Map.last_entry elections ≡ some (epoch, mine ts approvers))
        × Unanimous (add approvers id) nodes me)

pub approved_epoch-mine :
    (elections : Elections) (leader_id : NodeId) (ts : ℕ) (me : Me) (epoch : ℕ)
    → approved_epoch elections leader_id ts me ≡ some epoch
    → (leader_id ≡ me.id)
      × ((approvers : Set) × (Map.last_entry elections ≡ some (epoch, mine ts approvers)))
unfolding approved_epoch
approved_epoch-mine elections leader_id ts me epoch h =
    elim (Option-cases (Map.last_entry elections)) [
      | inl e ↦ absurd (ground arith)
      | inr (x, e) ↦ last_cases x e
    ]
  where
    last_cases :
        (x : ℕ × Election)
        → Map.last_entry elections ≡ some x
        → (leader_id ≡ me.id)
          × ((approvers : Set) × (Map.last_entry elections ≡ some (epoch, mine ts approvers)))
    last_cases (k, mine t approvers) e = (ground arith, (approvers, ground arith))
    last_cases (k, other t c) e = absurd (ground arith)

-- The state and the elections of a node that has just won.
abbrev pub won : State → Me → ℕ → State
won state me epoch = record state { elected_leader_id = some me.id; epoch = some epoch }

count_vote_cases :
    (state : State) (elections : Elections) (epoch ts' : ℕ) (approvers : Set) (id : NodeId) (ts : ℕ)
    (me : Me)
    → ((count_vote state elections epoch ts' approvers id ts me).0 ≡ state)
      ⊎ (((count_vote state elections epoch ts' approvers id ts me).0 ≡ won state me epoch)
          × ((count_vote state elections epoch ts' approvers id ts me).1 ≡ Map.empty)
          × Unanimous (add approvers id) state.nodes me)
unfolding count_vote
count_vote_cases state elections epoch ts' approvers id ts me =
    elim (Bool-cases (is_unanimous (add approvers id) state.nodes me)) [
      | inl all ↦
          inr (
            ground arith,
            ground arith,
            is_unanimous-Unanimous (add approvers id) state.nodes me all,
          )
      | inr some_missing ↦ inl (ground arith)
    ]

-- A vote leaves the state as it was, or it makes this node the leader at the epoch of its own
-- candidacy: then the vote names this node and carries the candidacy's timestamp, and every other
-- manager that this node knows has approved, the sender included. The elections are then cleared.
pub vote_response_is_unanimous :
    (state : State) (id leader_id : NodeId) (ts : ℕ) (me : Me) (elections : Elections)
    → ((handle_vote_response state id leader_id ts me elections).0 ≡ state)
      ⊎ ((epoch : ℕ) × Carries elections state.nodes id leader_id ts me epoch
          × ((handle_vote_response state id leader_id ts me elections).0 ≡ won state me epoch)
          × ((handle_vote_response state id leader_id ts me elections).1 ≡ Map.empty))
unfolding handle_vote_response
vote_response_is_unanimous state id leader_id ts me elections =
    elim (Option-cases (approved_epoch elections leader_id ts me)) [
      | inl e ↦ inl (ground arith)
      | inr (epoch, e) ↦
          let (named, candidacy) = approved_epoch-mine elections leader_id ts me epoch e in
          let (approvers, last) = candidacy in
          let found : Map.get elections epoch ≡ some (mine ts approvers) =
            get-last_entry elections last in
          elim (count_vote_cases state elections epoch ts approvers id ts me) [
            | inl same ↦ inl (ground (arith, e, found, same))
            | inr (is_won, cleared, all) ↦ inr (
              epoch,
              (named, (approvers, last, all)),
              ground (arith, e, found),
              ground (arith, e, found),
            )
          ]
    ]
