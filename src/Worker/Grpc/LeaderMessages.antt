-- ===== src/Worker/Grpc/LeaderMessages.antt =====
-- What the announcements of a worker's gRPC layer make of the messages of a leader.
use rust_accelerator_no_sql.Map
use rust_accelerator_no_sql.Worker.Grpc.Announcements.{
  announces_manager, IsReceived, IsReceived-NoAnnouncement,
}
use rust_accelerator_no_sql.Map.Entries
use rust_accelerator_no_sql.Prelude.{
  true, map, arith, ◌&&◌, ◌==◌, not, All, none, ◌∙◌, option_lt, sym, ap, Bool-cases, subst, Option,
  inr, false, inl, some, Option-cases, ◌≡◌, Bool, refl, ℕ, List, [], ◌∷◌,
}
use rust_accelerator_no_sql.Common.{
  manager_host_port, is_manager, partitions_amount, Node, NodeId, Me,
}
use rust_accelerator_no_sql.Worker.{
  new, ask_managers, sync_batch_response, sync_batch, remove_partition_from_replica, leader,
  node_disconnected, cluster_state, get_cluster_state, heartbeat, new_connection, State,
  WorkerProtocol,
}
use rust_accelerator_no_sql.Worker.Service.{
  Event, message, ticked, step, run, own_node, get_init_messages, process, TickInput, tick,
  WorkerService, dispatch,
}
use rust_accelerator_no_sql.Worker.Membership.{heartbeats, handle_leader, handle_new_connection}
use rust_accelerator_no_sql.Worker.Sync.{handle_sync_batch_response}
use rust_accelerator_no_sql.Store.{RuntimeStore}
use rust_accelerator_no_sql.Worker.Grpc.KnownManagers.{
  heartbeats-NoManagers, get_manager-none, handle_node_disconnected-NoManagers,
  handle_cluster_state-NoManagers, handle_heartbeat-NoManagers, NoManagers-insert, NoManagers,
}
use rust_accelerator_no_sql.Conversions.{Uuid}
use rust_accelerator_no_sql.Map.{Map}
use rust_accelerator_no_sql.Worker.Pass.{sync_partitions}
use rust_accelerator_no_sql.Worker.Pass.Nodes.{sync_partitions-nodes}

dispatch-NoManagers :
    (state : State) (store : RuntimeStore) (me : Me) (msg : WorkerProtocol) (now : ℕ)
    → announces_manager msg ≡ false
    → NoManagers state.nodes
    → NoManagers (dispatch state store me msg now).0.nodes
unfolding dispatch handle_new_connection handle_leader handle_sync_batch_response
dispatch-NoManagers state store me (new_connection none host port m) now w h = h
dispatch-NoManagers state store me (new_connection (some id) host port m) now w h =
    NoManagers-insert state.nodes id _ (rw w refl) h
dispatch-NoManagers state store me (heartbeat id beat) now w h =
    handle_heartbeat-NoManagers state beat.id beat.ts me h
dispatch-NoManagers state store me (get_cluster_state id) now w h = h
dispatch-NoManagers state store me (cluster_state s) now w h =
    handle_cluster_state-NoManagers state s.epoch s.leader_id s.nodes s.partitions me now h
dispatch-NoManagers state store me (node_disconnected id) now w h =
    handle_node_disconnected-NoManagers state id h
dispatch-NoManagers state store me (leader id epoch ts) now w h =
    elim (Bool-cases (option_lt state.epoch (some epoch))) [
      | inl later ↦
          rw (later, handle_leader) (rw (get_manager-none state.nodes id h, handle_leader) h)
      | inr same ↦ rw (same, handle_leader) h
    ]
dispatch-NoManagers state store me (remove_partition_from_replica id replica_id partition_id) now w
      h =
    h
dispatch-NoManagers state store me (sync_batch recipient_id request) now w h = h
dispatch-NoManagers state store me (sync_batch_response recipient_id max_applied) now w h = h

-- A worker that knows no manager, or has not started.
abbrev pub IsUnled : WorkerService → Type 0
IsUnled service = (state : State) → service.state ≡ some state → NoManagers state.nodes

IsUnled-intro :
    (service : WorkerService) (s : State)
    → service.state ≡ some s
    → NoManagers s.nodes
    → IsUnled service
IsUnled-intro service s e h state e' = subst NoManagers (ap nodes_of (sym e ∙ e')) h
  where
    nodes_of : Option State → Map Node
    nodes_of none = s.nodes
    nodes_of (some state) = state.nodes

tick-IsUnled :
    (service : WorkerService) (t : TickInput) → IsUnled service → IsUnled (tick service t).0
unfolding tick
tick-IsUnled service t h = elim (Option-cases service.state) [
  | inl e ↦ rw (e, tick) h
  | inr (state, e) ↦
      let beating = (heartbeats state service.me t.heartbeat_now).0 in
      let passed =
        sync_partitions partitions_amount beating service.runtime_store service.me t.sync_clock in
      IsUnled-intro (tick service t).0 passed.0 (rw (e, tick) refl) (
        subst NoManagers
          (sym (
            sync_partitions-nodes partitions_amount beating service.runtime_store service.me
              t.sync_clock))
          (heartbeats-NoManagers state service.me t.heartbeat_now (h state e)))
]

process-IsUnled :
    (service : WorkerService) (msg : WorkerProtocol) (now : ℕ) (t : TickInput)
    → announces_manager msg ≡ false
    → IsUnled service
    → IsUnled (process service msg now t).0
unfolding process
process-IsUnled service msg now t w h = elim (Option-cases service.state) [
  | inl e ↦ rw (e, process) (tick-IsUnled service t h)
  | inr (state, e) ↦
      let done = dispatch state service.runtime_store service.me msg now in
      rw (e, process)
        (tick-IsUnled (record service { state = some done.0; runtime_store = done.1 }) t
          (IsUnled-intro (record service { state = some done.0; runtime_store = done.1 }) done.0
            refl
            (dispatch-NoManagers state service.runtime_store service.me msg now w (h state e))))
]

retain_nothing :
    (f : ℕ → Node → Bool) (es : List (ℕ × Node))
    → All (λ e. f e.0 e.1 ≡ false) es
    → Entries.retain f es ≡ []
unfolding Entries.retain
retain_nothing f [] a = refl
retain_nothing f (e ∷ es) a = rw (a.0, retain_nothing f es a.1) refl

ask_managers-none : (nodes : Map Node) (me : Me) → NoManagers nodes → ask_managers nodes me ≡ []
unfolding ask_managers Map.keys Map.retain
ask_managers-none nodes me h =
    ap (λ es. map get_cluster_state (map (λ e. e.0) es))
      (retain_nothing _ nodes.entries (each nodes.entries (Map.get_entries nodes)))
  where
    each :
        (es : List (ℕ × Node))
        → All (λ e. Map.get nodes e.0 ≡ some e.1) es
        → All (λ e. (not (e.0 == me.id) && is_manager e.1) ≡ false) es
    each [] a = tt
    each (e ∷ es) a = let no_manager = h e.0 e.1 a.0 in (ground (arith, no_manager), each es a.1)

leader-ignored :
    (state : State) (id : NodeId) (epoch ts : ℕ) (me : Me)
    → NoManagers state.nodes
    → handle_leader state id epoch ts me ≡ (state, [])
unfolding handle_leader
leader-ignored state id epoch ts me h = elim (Bool-cases (option_lt state.epoch (some epoch))) [
  | inl later ↦
      rw (later, handle_leader)
        (rw (get_manager-none state.nodes id h, handle_leader)
          (ap (λ o. (state, o)) (ask_managers-none state.nodes me h)))
  | inr same ↦ rw (same, handle_leader) refl
]

-- A tick, or a message that one of the connections gives.
unfoldable pub IsOwnEvent : Uuid → Me → Event → Type 0
IsOwnEvent uuid me (message msg now t) = IsReceived uuid me msg
IsOwnEvent uuid me (ticked t) = Unit

step-IsUnled :
    (uuid : Uuid) (me : Me) (event : Event) (service : WorkerService)
    → IsOwnEvent uuid me event
    → IsUnled service
    → IsUnled (step service event).0
unfolding step IsOwnEvent
step-IsUnled uuid me (message msg now t) service a h =
    process-IsUnled service msg now t (IsReceived-NoAnnouncement uuid me msg a) h
step-IsUnled uuid me (ticked t) service a h = tick-IsUnled service t h

run-IsUnled :
    (uuid : Uuid) (me : Me) (events : List Event) (service : WorkerService)
    → All (IsOwnEvent uuid me) events
    → IsUnled service
    → IsUnled (run service events)
unfolding run
run-IsUnled uuid me [] service a h = h
run-IsUnled uuid me (event ∷ events) service a h =
    run-IsUnled uuid me events (step service event).0 a.1 (step-IsUnled uuid me event service a.0 h)

started-IsUnled :
    (service started : WorkerService) (boot : ℕ) (output : List WorkerProtocol)
    → service.state ≡ none
    → get_init_messages service boot ≡ some (started, output)
    → IsUnled started
unfolding get_init_messages own_node new
started-IsUnled service started boot output fresh e =
    elim (Option-cases (manager_host_port service.config)) [
      | inl alone ↦
          let panicked : get_init_messages service boot ≡ none =
            rw (fresh, get_init_messages) (rw (alone, get_init_messages) refl) in
          IsUnled-intro started (new (own_node service.me boot))
            (ap started_state (sym e ∙ panicked)) own
      | inr (address, known) ↦
          let first = new_connection none address.0 address.1 true ∷ [] in
          let begun : get_init_messages service boot
              ≡ some (record service { state = some (new (own_node service.me boot)) }, first) =
            rw (fresh, get_init_messages) (rw (known, get_init_messages) refl) in
          IsUnled-intro started (new (own_node service.me boot)) (ap started_state (sym e ∙ begun))
            own
    ]
  where
    started_state : Option (WorkerService × List WorkerProtocol) → Option State
    started_state none = some (new (own_node service.me boot))
    started_state (some r) = r.0.state

    own : NoManagers (new (own_node service.me boot)).nodes
    own =
        NoManagers-insert Map.empty service.me.id _ refl
          (λ id node found. absurd (ground (arith, found, Map.get-empty {V = Node} id)))

-- A worker that has started ignores every message of a leader, whatever its connections have given
-- it and however often it has ticked: what it does is a tick, the message changes nothing and asks
-- no manager for the state.
pub leader_messages_ignored :
    (uuid : Uuid) (service started : WorkerService) (boot : ℕ) (output : List WorkerProtocol)
    (events : List Event) (id : NodeId) (epoch ts now : ℕ) (t : TickInput)
    → service.state ≡ none
    → get_init_messages service boot ≡ some (started, output)
    → All (IsOwnEvent uuid service.me) events
    → process (run started events) (leader id epoch ts) now t ≡ tick (run started events) t
unfolding process dispatch run
leader_messages_ignored uuid service started boot output events id epoch ts now t fresh e a =
    let unled =
      run-IsUnled uuid service.me events started a
        (started-IsUnled service started boot output fresh e) in
    let reached = run started events in
    elim (Option-cases reached.state) [
      | inl f ↦ rw (f, process) refl
      | inr (state, f) ↦
          rw (f, process, leader-ignored state id epoch ts reached.me (unled state f))
            (ap (λ s. tick s t) (λ i. record reached { state = sym f i }))
    ]
