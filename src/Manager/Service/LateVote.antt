-- ===== src/Manager/Service/LateVote.antt =====
-- A vote that a manager gets for a candidacy that is still open, after it has heard of a later epoch.
use rust_accelerator_no_sql.Map
use rust_accelerator_no_sql.Map.Entries
use rust_accelerator_no_sql.Map.Set.{Set, add, contains_key-add}
use rust_accelerator_no_sql.Manager.{
  cluster_state, vote_response, leader, State, other_managers, other_nodes,
}
use rust_accelerator_no_sql.Prelude.{
  option_lt, ◌<◌, ==_refl, map, inr, inl, arith, refl, ◌∷◌, [], some, true, ◌≡◌, ℕ,
}
use rust_accelerator_no_sql.Manager.Election.{
  next_epoch, start_election, Outcome, count_vote, approved_epoch, handle_vote_response,
  is_unanimous, mine, Elections,
}
use rust_accelerator_no_sql.Common.{Node, ClusterState, Me, NodeId}
use rust_accelerator_no_sql.Manager.Service.{dispatch}
use rust_accelerator_no_sql.Map.{get-last_entry, Map}
use rust_accelerator_no_sql.Manager.Cluster.Acceptance.{cluster_state_cases}

-- The manager of the candidacy and the three steps: the election that it starts, the cluster state that
-- it hears of, and the vote that comes late.
module _ (state : State) (elections : Elections) (me : Me) (epoch ts : ℕ) (recipient_id : NodeId)
    (heard : ClusterState) (now : ℕ) where
  abbrev pub candidate : Outcome
  candidate = start_election state elections me epoch ts

  abbrev pub informed : Outcome
  informed = dispatch candidate.0 candidate.1 me (cluster_state recipient_id heard) now

  abbrev pub elected_late : NodeId → Outcome
  elected_late id = dispatch informed.0 informed.1 me (vote_response id me.id ts) now

  candidacy_stays :
      informed.1 ≡ Map.insert Map.empty (next_epoch elections epoch) (mine ts Map.empty)
  unfolding start_election dispatch
  candidacy_stays = refl

  epoch_heard : state.epoch ≡ some epoch → epoch < heard.epoch → informed.0.epoch ≡ some heard.epoch
  unfolding start_election dispatch
  epoch_heard known later =
      elim (cluster_state_cases state heard.epoch heard.leader_id heard.nodes heard.partitions me) [
        | inl (refused, _) ↦ absurd (refused (inl (ground (arith, known, later))))
        | inr (_, same, _, _, _) ↦ same
      ]

last_of_one :
    (epoch ts : ℕ)
    → Map.last_entry (Map.insert Map.empty epoch (mine ts Map.empty))
      ≡ some (epoch, mine ts Map.empty)
unfolding Map.last_entry Map.insert Map.empty Entries.insert
last_of_one epoch ts = refl

len-add : (id : NodeId) → Map.len (add Map.empty id) ≡ 1
unfolding Map.len add Map.insert Map.empty Entries.insert
len-add id = refl

one_approves :
    (id : NodeId) (nodes : Map Node) (me : Me)
    → other_managers nodes me ≡ id ∷ []
    → is_unanimous (add Map.empty id) nodes me ≡ true
unfolding is_unanimous
one_approves id nodes me one =
    let present = contains_key-add Map.empty id id in
    rw one (ground (arith, present, ==_refl id, len-add id))

-- The vote that makes a candidacy unanimous.
unanimous_vote :
    (state : State) (id : NodeId) (ts : ℕ) (me : Me) (elections : Elections) (epoch : ℕ)
    (approvers : Set)
    → Map.last_entry elections ≡ some (epoch, mine ts approvers)
    → is_unanimous (add approvers id) state.nodes me ≡ true
    → handle_vote_response state id me.id ts me elections ≡ (
      record state { elected_leader_id = some me.id; epoch = some epoch },
      Map.empty,
      map (λ node_id. leader node_id epoch ts) (other_nodes state.nodes me),
    )
unfolding handle_vote_response approved_epoch count_vote
unanimous_vote state id ts me elections epoch approvers last all =
    let found : Map.get elections epoch ≡ some (mine ts approvers) =
      get-last_entry elections last in
    ground (arith, ==_refl ts, ==_refl me.id)

unanimous_dispatch :
    (state : State) (elections : Elections) (id : NodeId) (ts : ℕ) (me : Me) (epoch now : ℕ)
    → elections ≡ Map.insert Map.empty epoch (mine ts Map.empty)
    → is_unanimous (add Map.empty id) state.nodes me ≡ true
    → dispatch state elections me (vote_response id me.id ts) now ≡ (
      record state { elected_leader_id = some me.id; epoch = some epoch },
      Map.empty,
      map (λ node_id. leader node_id epoch ts) (other_nodes state.nodes me),
    )
unfolding dispatch
unanimous_dispatch state elections id ts me epoch now alone all =
    unanimous_vote state id ts me elections epoch Map.empty (rw alone (last_of_one epoch ts)) all

-- A manager that has started an election, takes up a cluster state of a later epoch than its own and
-- its candidacy's, and then gets the vote of the only other manager that it knows, goes back from the
-- cluster state's epoch to its candidacy's, notes itself as the leader and announces that to every
-- node.
pub late_vote_sets_epoch_back :
    (state : State) (elections : Elections) (me : Me) (epoch ts : ℕ) (recipient_id : NodeId)
    (heard : ClusterState) (now : ℕ) (id : NodeId)
    → state.epoch ≡ some epoch
    → epoch < heard.epoch
    → next_epoch elections epoch < heard.epoch
    → other_managers (informed state elections me epoch ts recipient_id heard now).0.nodes me
      ≡ id ∷ []
    → ((informed state elections me epoch ts recipient_id heard now).0.epoch ≡ some heard.epoch)
      × ((elected_late state elections me epoch ts recipient_id heard now id).0.epoch
          ≡ some (next_epoch elections epoch))
      × (option_lt
            (elected_late state elections me epoch ts recipient_id heard now id).0.epoch
            (informed state elections me epoch ts recipient_id heard now).0.epoch
          ≡ true)
      × ((elected_late state elections me epoch ts recipient_id heard now id).0.elected_leader_id
          ≡ some me.id)
      × ((elected_late state elections me epoch ts recipient_id heard now id).2
          ≡ map
              (λ node_id. leader node_id (next_epoch elections epoch) ts)
              (other_nodes
                (informed state elections me epoch ts recipient_id heard now).0.nodes
                me))
late_vote_sets_epoch_back state elections me epoch ts recipient_id heard now id known later
      overtaken one =
    let hears = informed state elections me epoch ts recipient_id heard now in
    let voted = elected_late state elections me epoch ts recipient_id heard now id in
    let set_back : voted ≡ (
      record (hears.0) {
        elected_leader_id = some me.id;
        epoch = some (next_epoch elections epoch);
      },
      Map.empty,
      map (λ node_id. leader node_id (next_epoch elections epoch) ts)
          (other_nodes hears.0.nodes me),
    ) =
      unanimous_dispatch hears.0 hears.1 id ts me (next_epoch elections epoch) now
        (candidacy_stays state elections me epoch ts recipient_id heard now)
        (one_approves id hears.0.nodes me one) in
    let is_heard = epoch_heard state elections me epoch ts recipient_id heard now known later in
    (
      is_heard,
      rw set_back refl,
      rw set_back (rw is_heard (ground (arith, overtaken))),
      rw set_back refl,
      rw set_back refl,
    )
