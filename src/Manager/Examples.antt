-- ===== src/Manager/Examples.antt =====
-- Runs of the manager's theorems on a small cluster.
use rust_accelerator_no_sql.Map
use rust_accelerator_no_sql.Map.Entries
use rust_accelerator_no_sql.Map.{Map}
use rust_accelerator_no_sql.Manager.{other_nodes, leader, other_managers, State, new_connection}
use rust_accelerator_no_sql.Prelude.{
  map, option_lt, contains, inl, ◌≢◌, u64_mod, ◌<◌, ◌+◌, ◌⊎◌, arith, refl, ◌∷◌, [], List, some,
  none, false, true, ◌≡◌, ℕ,
}
use rust_accelerator_no_sql.Common.{
  ClusterState, NodeId, ClusterNode, manager_config, default_partitions, worker, manager, Config,
  Node, Me,
}
use rust_accelerator_no_sql.Manager.Election.{
  start_election, next_epoch, election_ts, supersedes, mine, handle_vote_request,
  handle_vote_response, Elections,
}
use rust_accelerator_no_sql.Manager.Election.Candidacy.{answered_request_concedes, IsCurrent}
use rust_accelerator_no_sql.Manager.Service.{
  dispatch, replication_factor_set, start, get_init_messages, ticked, run, message, ManagerService,
  Event, TickInput,
}
use rust_accelerator_no_sql.Manager.Cluster.Acceptance.{IsAcceptable}
use rust_accelerator_no_sql.Manager.Election.Votes.{vote_response_is_unanimous, won, Carries}
use rust_accelerator_no_sql.Manager.Service.LateVote.{
  late_vote_sets_epoch_back, informed, elected_late,
}
use rust_accelerator_no_sql.Manager.Cluster.{
  item_ids, add_node, merge_item, accept, prune_nodes, merge_items, handle_cluster_state,
}
use rust_accelerator_no_sql.Manager.Service.Panics.{manager_never_panics, IsSafe}
use rust_accelerator_no_sql.Manager.Cluster.Membership.{full_snapshot_members}

abbrev me : Me
me = record { id = 1; host = ""; port = 9000 }

abbrev manager_node : Node
manager_node = record { host = ""; port = 9000; last_heartbeat = 5; node_type = manager }

abbrev worker_node : Node
worker_node = record { host = ""; port = 9001; last_heartbeat = 5; node_type = worker }

-- Two managers, 1 and 2, and two workers, 3 and 4.
abbrev nodes : Map Node
nodes =
    Map.insert
      (Map.insert (Map.insert (Map.insert Map.empty 1 manager_node) 2 manager_node) 3 worker_node) 4
      worker_node

abbrev leaderless : State
leaderless = record {
  epoch = some 7;
  elected_leader_id = none;
  nodes = nodes;
  partitions = default_partitions;
  workers_with_calculated_partitions = Map.empty;
}

-- The candidacy of manager 1 for epoch 8, of time 100.
abbrev candidacy : Elections
candidacy = Map.insert Map.empty 8 (mine 100 Map.empty)

candidacy-IsCurrent : IsCurrent leaderless candidacy
unfolding Map.len Map.insert Map.empty Map.get Entries.insert Entries.lookup
candidacy-IsCurrent = record { single = omega arith; ahead = λ epoch election h. ground (arith, h) }

abbrev three_replicas : Config
three_replicas = manager_config 9000 ("", 9000) none 3

abbrev quiet : TickInput
quiet = record {
  heartbeat_now = 10;
  leader_timeout = 1000;
  election_now = 10;
  election_timeout = 100;
}

abbrev events : List Event
events =
    message (new_connection (some 3) "" 9001 false) 6 quiet
    ∷ replication_factor_set 0
    ∷ ticked quiet
    ∷ []

manager_never_panics_example :
    (service' : ManagerService) × (run (get_init_messages (start me three_replicas) 5).0 events
      ≡ some service')
    × IsSafe service'
manager_never_panics_example = manager_never_panics me three_replicas 5 events tt

vote_response_is_unanimous_example :
    ((handle_vote_response leaderless 2 1 100 me candidacy).0 ≡ leaderless)
    ⊎ ((epoch : ℕ) × Carries candidacy leaderless.nodes 2 1 100 me epoch
        × ((handle_vote_response leaderless 2 1 100 me candidacy).0 ≡ won leaderless me epoch)
        × ((handle_vote_response leaderless 2 1 100 me candidacy).1 ≡ Map.empty))
vote_response_is_unanimous_example = vote_response_is_unanimous leaderless 2 1 100 me candidacy

candidacy_conceded : (handle_vote_request leaderless 2 9 50 candidacy).2 ≢ []
unfolding handle_vote_request supersedes Map.last_entry Map.insert Map.empty Entries.insert
    election_ts
candidacy_conceded h = ground arith

answered_request_concedes_example :
    (handle_vote_response
      (handle_vote_request leaderless 2 9 50 candidacy).0
      2
      1
      100
      me
      (handle_vote_request leaderless 2 9 50 candidacy).1).0
    ≡ leaderless
answered_request_concedes_example =
    answered_request_concedes leaderless 2 9 50 candidacy candidacy-IsCurrent candidacy_conceded 2 1
      100 me

epoch_bounded : (epoch : ℕ) → leaderless.epoch ≡ some epoch → epoch + 1 < u64_mod
epoch_bounded epoch e = ground (arith, e)

-- A cluster state of epoch 20, without a list of nodes.
abbrev epoch_twenty : ClusterState
epoch_twenty = record { epoch = 20; leader_id = 2; nodes = []; partitions = default_partitions }

two_is_other :
    other_managers (informed leaderless Map.empty me 7 100 1 epoch_twenty 9).0.nodes me ≡ 2 ∷ []
unfolding dispatch start_election handle_cluster_state accept prune_nodes merge_items other_managers
    Map.keys Map.retain Map.insert Map.empty Entries.insert Entries.retain
two_is_other = refl

early_epoch : next_epoch Map.empty 7 < 20
unfolding next_epoch Map.last_entry Map.empty
early_epoch = omega arith

late_vote_sets_epoch_back_example :
    ((informed leaderless Map.empty me 7 100 1 epoch_twenty 9).0.epoch ≡ some 20)
    × ((elected_late leaderless Map.empty me 7 100 1 epoch_twenty 9 2).0.epoch
        ≡ some (next_epoch Map.empty 7))
    × (option_lt
          (elected_late leaderless Map.empty me 7 100 1 epoch_twenty 9 2).0.epoch
          (informed leaderless Map.empty me 7 100 1 epoch_twenty 9).0.epoch
        ≡ true)
    × ((elected_late leaderless Map.empty me 7 100 1 epoch_twenty 9 2).0.elected_leader_id ≡ some 1)
    × ((elected_late leaderless Map.empty me 7 100 1 epoch_twenty 9 2).2
        ≡ map
            (λ node_id. leader node_id (next_epoch Map.empty 7) 100)
            (other_nodes (informed leaderless Map.empty me 7 100 1 epoch_twenty 9).0.nodes me))
late_vote_sets_epoch_back_example =
    late_vote_sets_epoch_back leaderless Map.empty me 7 100 1 epoch_twenty 9 2 refl (omega arith)
      early_epoch two_is_other

-- A snapshot that names the managers 1 and 2 and the worker 3.
abbrev second : ClusterNode
second = record { id = 2; host = ""; port = 9000; last_heartbeat = 9; node_type = manager }

abbrev third : ClusterNode
third = record { id = 3; host = ""; port = 9001; last_heartbeat = 9; node_type = worker }

third_known :
    Map.contains_key
      (handle_cluster_state leaderless 9 2 (second ∷ third ∷ []) default_partitions me).0.nodes
      3
    ≡ true
unfolding handle_cluster_state accept prune_nodes merge_items merge_item add_node Map.get Map.retain
    Map.insert Map.empty Map.contains_key Entries.insert Entries.lookup Entries.retain
third_known = refl

later_epoch : IsAcceptable leaderless 9 2
later_epoch = inl refl

full_snapshot_members_example :
    (◌≡◌ {A = NodeId} 3 me.id) ⊎ (contains (item_ids (second ∷ third ∷ [])) 3 ≡ true)
full_snapshot_members_example =
    full_snapshot_members leaderless 9 2 second (third ∷ []) default_partitions me 3 later_epoch
      third_known
