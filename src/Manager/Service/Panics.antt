-- ===== src/Manager/Service/Panics.antt =====
-- The panics of a manager's event loop, and the invariant of its state that excludes them.
use rust_accelerator_no_sql.Prelude.{
  String, Option-cases, ◌++◌, inr, inl, arith, refl, ◌∷◌, [], List, some, none, Option, ◌≡◌, ℕ,
}
use rust_accelerator_no_sql.Manager.Heartbeats.{
  handle_heartbeat, expire_leader, own_heartbeat, heartbeats,
}
use rust_accelerator_no_sql.Manager.{
  new, node_disconnected, leader, vote_response, vote_request, cluster_state, get_cluster_state,
  heartbeat, new_connection, remove_partition_from_replica, ManagerProtocol, State,
}
use rust_accelerator_no_sql.Common.{
  set_replication_factor, manager_host_port, manager, Node, worker_config, manager_config,
  replication_factor, Config, Partitions, ClusterNode, NodeId, Me,
}
use rust_accelerator_no_sql.Manager.Assignment.Stability.{worker_partitions_settles, HasEpoch}
use rust_accelerator_no_sql.Manager.Election.{
  Outcome, handle_leader, handle_vote_request, handle_vote_response, Elections, start_election,
  start_election_if_needed,
}
use rust_accelerator_no_sql.Manager.Cluster.{handle_remove_old_partition, handle_cluster_state}
use rust_accelerator_no_sql.Manager.Service.{
  replication_factor_set, with_replication_factor, own_node, init_state, ticked, message, start,
  Event, get_init_messages, run, step, process, tick, ManagerService, TickInput, tick_state,
  dispatch,
}
use rust_accelerator_no_sql.Manager.Election.Votes.{vote_response_is_unanimous}
use rust_accelerator_no_sql.Manager.Connection.{
  without_node, handle_node_disconnected, handle_new_connection,
}
use rust_accelerator_no_sql.Manager.Cluster.Acceptance.{cluster_state_cases}
use rust_accelerator_no_sql.Map.{Map}

heartbeats-HasEpoch :
    (state : State) (me : Me) (now random : ℕ)
    → HasEpoch state
    → HasEpoch (heartbeats state me now random).0
unfolding heartbeats own_heartbeat expire_leader
heartbeats-HasEpoch state me now random h = ground (arith, h)

start_election-HasEpoch :
    (state : State) (elections : Elections) (me : Me) (random now : ℕ)
    → HasEpoch state
    → HasEpoch (start_election_if_needed state elections me random now).0
unfolding start_election_if_needed start_election
start_election-HasEpoch state elections me random now h = ground (arith, h)

cluster_state-HasEpoch :
    (state : State) (epoch : ℕ) (leader_id : NodeId) (items : List ClusterNode)
    (partitions : Partitions) (me : Me)
    → HasEpoch state
    → HasEpoch (handle_cluster_state state epoch leader_id items partitions me).0
cluster_state-HasEpoch state epoch leader_id items partitions me h =
    elim (cluster_state_cases state epoch leader_id items partitions me) [
      | inl (ignored, same) ↦ rw same h
      | inr (ok, e, l, p, n) ↦ rw e (λ _. refl)
    ]

vote_response-HasEpoch :
    (state : State) (id leader_id : NodeId) (ts : ℕ) (me : Me) (elections : Elections)
    → HasEpoch state
    → HasEpoch (handle_vote_response state id leader_id ts me elections).0
vote_response-HasEpoch state id leader_id ts me elections h =
    elim (vote_response_is_unanimous state id leader_id ts me elections) [
      | inl same ↦ rw same h
      | inr (epoch, carries, is_won, cleared) ↦ rw is_won (λ _. refl)
    ]

dispatch-HasEpoch :
    (state : State) (elections : Elections) (me : Me) (msg : ManagerProtocol) (now : ℕ)
    → HasEpoch state
    → HasEpoch (dispatch state elections me msg now).0
unfolding dispatch
dispatch-HasEpoch state elections me (remove_partition_from_replica id replica_id partition_id) now
      h =
    unfold handle_remove_old_partition in h
dispatch-HasEpoch state elections me (new_connection none host port is_manager) now h =
    unfold handle_new_connection in h
dispatch-HasEpoch state elections me (new_connection (some id) host port is_manager) now h =
    unfold handle_new_connection in h
dispatch-HasEpoch state elections me (heartbeat id beat) now h =
    unfold handle_heartbeat in ground (arith, h)
dispatch-HasEpoch state elections me (get_cluster_state id) now h = h
dispatch-HasEpoch state elections me (cluster_state recipient_id s) now h =
    cluster_state-HasEpoch state s.epoch s.leader_id s.nodes s.partitions me h
dispatch-HasEpoch state elections me (vote_request id epoch ts) now h =
    unfold handle_vote_request in ground (arith, h)
dispatch-HasEpoch state elections me (vote_response id leader_id ts) now h =
    vote_response-HasEpoch state id leader_id ts me elections h
dispatch-HasEpoch state elections me (leader id epoch ts) now h =
    unfold handle_leader in ground (arith, h)
dispatch-HasEpoch state elections me (node_disconnected id) now h =
    unfold handle_node_disconnected without_node in ground (arith, h)

-- With a manager's configuration a tick does not panic, and keeps the invariant.
tick_state-HasEpoch :
    (state : State) (elections : Elections) (me : Me) (factor : ℕ) (t : TickInput)
    → HasEpoch state
    → (r : Outcome) × (tick_state state elections me factor t ≡ some r) × HasEpoch r.0
unfolding tick_state
tick_state-HasEpoch state elections me factor t h =
    let beating = (heartbeats state me t.heartbeat_now t.leader_timeout).0 in
    let electing =
      (start_election_if_needed beating elections me t.election_timeout t.election_now).0 in
    let he : HasEpoch electing =
      start_election-HasEpoch beating elections me t.election_timeout t.election_now
        (heartbeats-HasEpoch state me t.heartbeat_now t.leader_timeout h) in
    let (r, done, nodes, epoch, leads, again) = worker_partitions_settles electing me factor he in
    (
      (
        r.0,
        (start_election_if_needed beating elections me t.election_timeout t.election_now).1,
        (heartbeats state me t.heartbeat_now t.leader_timeout).1
            ++ ((start_election_if_needed beating elections me t.election_timeout t.election_now).2
                ++ r.1),
      ),
      rw (done, tick_state),
      λ some_leader. rw epoch (he (rw (← leads) some_leader)),
    )

-- The configuration of a manager.
abbrev pub IsManagerConfig : Config → Type 0
IsManagerConfig (manager_config port self m factor) = Unit
IsManagerConfig (worker_config port self m interval) = ⊥

abbrev StateHasEpoch : Option State → Type 0
StateHasEpoch none = Unit
StateHasEpoch (some state) = HasEpoch state

-- What keeps a manager from panicking.
pub record IsSafe (service : ManagerService) : Type 0 where
  pub configured : IsManagerConfig service.config
  pub has_epoch : StateHasEpoch service.state

factor_of :
    (config : Config)
    → IsManagerConfig config
    → (factor : ℕ) × (replication_factor config ≡ some factor)
unfolding replication_factor
factor_of (manager_config port self m factor) h = (factor, refl)
factor_of (worker_config port self m interval) h = absurd h

tick-some :
    (service : ManagerService) (state : State) (t : TickInput)
    → service.state ≡ some state
    → IsManagerConfig service.config
    → HasEpoch state
    → (r : ManagerService × List ManagerProtocol) × (tick service t ≡ some r) × IsSafe r.0
unfolding tick
tick-some service state t e c h =
    let (factor, f) = factor_of service.config c in
    let (r, done, he) = tick_state-HasEpoch state service.elections service.me factor t h in
    (
      (record service { state = some r.0; elections = r.1 }, r.2),
      ground (arith, e, f, done),
      record { configured = c; has_epoch = he },
    )

known_state : (o : Option State) (state : State) → o ≡ some state → StateHasEpoch o → HasEpoch state
known_state o state e h = rw e at h

tick-IsSafe :
    (service : ManagerService) (t : TickInput)
    → IsSafe service
    → (r : ManagerService × List ManagerProtocol) × (tick service t ≡ some r) × IsSafe r.0
unfolding tick
tick-IsSafe service t s = elim (Option-cases service.state) [
  | inl e ↦ ((service, []), ground (arith, e), s)
  | inr (state, e) ↦
      tick-some service state t e s.configured (known_state service.state state e s.has_epoch)
]

process-IsSafe :
    (service : ManagerService) (msg : ManagerProtocol) (now : ℕ) (t : TickInput)
    → IsSafe service
    → (r : ManagerService × List ManagerProtocol) × (process service msg now t ≡ some r)
      × IsSafe r.0
unfolding process tick
process-IsSafe service msg now t s = elim (Option-cases service.state) [
  | inl e ↦ let (r, done, safe) = tick-IsSafe service t s in (r, ground (arith, e, done), safe)
  | inr (state, e) ↦
      let outcome = dispatch state service.elections service.me msg now in
      let (r, done, safe) =
        tick-some (record service { state = some outcome.0; elections = outcome.1 }) outcome.0 t
          refl s.configured
          (dispatch-HasEpoch state service.elections service.me msg now
            (known_state service.state state e s.has_epoch)) in
      ((r.0, outcome.2 ++ r.1), ground (arith, e, done), safe)
]

set_replication_factor-some :
    (config : Config) (factor : ℕ)
    → IsManagerConfig config
    → (config' : Config) × (set_replication_factor config factor ≡ some config')
      × IsManagerConfig config'
unfolding set_replication_factor
set_replication_factor-some (manager_config port self m old) factor h =
    (manager_config port self m factor, refl, tt)
set_replication_factor-some (worker_config port self m interval) factor h = absurd h

-- No event makes the manager panic, and the invariant is kept.
pub step-IsSafe :
    (service : ManagerService) (event : Event)
    → IsSafe service
    → (r : ManagerService × List ManagerProtocol) × (step service event ≡ some r) × IsSafe r.0
unfolding step with_replication_factor
step-IsSafe service (message msg now t) s = process-IsSafe service msg now t s
step-IsSafe service (ticked t) s = tick-IsSafe service t s
step-IsSafe service (replication_factor_set factor) s =
    let (config, done, c) = set_replication_factor-some service.config factor s.configured in
    (
      (record service { config = config }, []),
      ground (arith, done),
      record { configured = c; has_epoch = s.has_epoch },
    )

run-IsSafe :
    (service : ManagerService) (events : List Event)
    → IsSafe service
    → (service' : ManagerService) × (run service events ≡ some service') × IsSafe service'
unfolding run
run-IsSafe service [] s = (service, refl, s)
run-IsSafe service (event ∷ events) s =
    let (r, done, s') = step-IsSafe service event s in
    let (service', done', s'') = run-IsSafe r.0 events s' in
    (service', ground (arith, done, done'), s'')

fresh : (nodes : Map Node) (address : Option (String × ℕ)) → HasEpoch (init_state nodes address).0
unfolding init_state new
fresh nodes none = λ h. refl
fresh nodes (some (host, port)) = λ h. ground arith

-- A manager started with a manager's configuration, of any replication factor, handles every sequence
-- of messages, ticks and changes of the replication factor, to any number, to its end without a panic,
-- and then still knows a leader only together with its epoch.
pub manager_never_panics :
    (me : Me) (config : Config) (now : ℕ) (events : List Event)
    → IsManagerConfig config
    → (service' : ManagerService) × (run (get_init_messages (start me config) now).0 events
        ≡ some service')
      × IsSafe service'
unfolding get_init_messages start new init_state
manager_never_panics me config now events c =
    run-IsSafe (get_init_messages (start me config) now).0 events (record {
      configured = c;
      has_epoch = fresh (own_node me manager now) (manager_host_port config);
    })
