-- ===== src/Worker/Epochs.antt =====
-- The epoch and the leader that a worker follows, over a run of its event loop.
use rust_accelerator_no_sql.Map
use rust_accelerator_no_sql.Prelude.{
  ◌&&◌, option_eq, subst, ◌||◌, add64, is_some, ap, leb, not, ◌∙◌, sym, arith, ◌⊎◌, inl, true,
  Option-cases, List, ◌≡◌, Bool-cases, inr, Option, option_lt, ℕ, refl, ◌∷◌, [], some, none,
}
use rust_accelerator_no_sql.Common.{
  PartitionId, NodeId, ClusterNode, Partitions, Me, partitions_amount,
}
use rust_accelerator_no_sql.Worker.{
  State, WorkerProtocol, new_connection, heartbeat, get_cluster_state, cluster_state,
  node_disconnected, leader, remove_partition_from_replica, sync_batch, sync_batch_response,
  get_manager, get_worker,
}
use rust_accelerator_no_sql.Store.{RuntimeStore}
use rust_accelerator_no_sql.Worker.Membership.{
  handle_leader, accept, handle_cluster_state, handle_node_disconnected, handle_new_connection,
  heartbeats, handle_heartbeat, heartbeat_interval_ms,
}
use rust_accelerator_no_sql.Worker.Sync.{Readings, handle_sync_batch_response}
use rust_accelerator_no_sql.Worker.Pass.{sync_partitions}
use rust_accelerator_no_sql.Worker.Pass.Nodes.{sync_partitions-membership}
use rust_accelerator_no_sql.Worker.Service.{
  WorkerService, TickInput, tick, dispatch, process, Event, message, ticked, step, run,
}

-- A worker that follows a later epoch, or the same one with the same leader.
abbrev pub IsLater : State → State → Type 0
IsLater s s' =
    (option_lt s.epoch s'.epoch ≡ true)
    ⊎ ((s'.epoch ≡ s.epoch) × (s'.elected_leader_id ≡ s.elected_leader_id))

option_lt_trans :
    (a b c : Option ℕ) → option_lt a b ≡ true → option_lt b c ≡ true → option_lt a c ≡ true
option_lt_trans none none c h k = absurd (ground arith)
option_lt_trans none (some b) none h k = k
option_lt_trans none (some b) (some c) h k = refl
option_lt_trans (some a) none c h k = absurd (ground arith)
option_lt_trans (some a) (some b) none h k = k
option_lt_trans (some a) (some b) (some c) h k = ground arith

IsLater-refl : (s : State) → IsLater s s
IsLater-refl s = inr (refl, refl)

IsLater-trans : (s s' s'' : State) → IsLater s s' → IsLater s' s'' → IsLater s s''
IsLater-trans s s' s'' (inl a) (inl b) = inl (option_lt_trans s.epoch s'.epoch s''.epoch a b)
IsLater-trans s s' s'' (inl a) (inr b) = inl (rw (b.0) a)
IsLater-trans s s' s'' (inr a) (inl b) = inl (rw (sym a.0) b)
IsLater-trans s s' s'' (inr a) (inr b) = inr (b.0 ∙ a.0, b.1 ∙ a.1)

handle_leader-IsLater :
    (state : State) (id : NodeId) (epoch ts : ℕ) (me : Me)
    → IsLater state (handle_leader state id epoch ts me).0
unfolding handle_leader
handle_leader-IsLater state id epoch ts me =
    elim (Bool-cases (option_lt state.epoch (some epoch))) [
      | inl later ↦ elim (Option-cases (get_manager state.nodes id)) [
        | inl e ↦ rw (later, e, handle_leader) (IsLater-refl state)
        | inr (node, e) ↦ rw (later, e, handle_leader) (inl later)
      ]
      | inr same ↦ rw (same, handle_leader) (IsLater-refl state)
    ]

later_epoch :
    (o : Option ℕ) (epoch : ℕ)
    → (not (is_some o) || option_lt o (some epoch)) ≡ true
    → option_lt o (some epoch) ≡ true
later_epoch none epoch h = refl
later_epoch (some e) epoch h = h

accept-IsLater :
    (state accepted : State) (epoch : ℕ) (leader_id : NodeId)
    → accept state epoch leader_id ≡ some accepted
    → IsLater state accepted
unfolding accept
accept-IsLater state accepted epoch leader_id e =
    elim (Bool-cases (not (is_some state.epoch) || option_lt state.epoch (some epoch))) [
      | inl c ↦
          let taken : State = record state {
            epoch = some epoch;
            elected_leader_id = some leader_id;
          } in
          let made : accept state epoch leader_id ≡ some taken = rw (accept, c) refl in
          subst (IsLater state) (ap or_state (sym made ∙ e)) (inl (later_epoch state.epoch epoch c))
      | inr c ↦
          elim (Bool-cases (
            option_eq state.epoch (some epoch)
            && option_eq state.elected_leader_id (some leader_id))) [
              | inl d ↦
                  let made : accept state epoch leader_id ≡ some state =
                    rw (accept, c) (rw d refl) in
                  subst (IsLater state) (ap or_state (sym made ∙ e)) (IsLater-refl state)
              | inr d ↦
                  let made : accept state epoch leader_id ≡ none = rw (accept, c) (rw d refl) in
                  absurd (refused (sym made ∙ e))
            ]
    ]
  where
    or_state : Option State → State
    or_state none = state
    or_state (some s) = s

    refused : none ≡ some accepted → ⊥
    refused h = ground arith

handle_cluster_state-IsLater :
    (state : State) (epoch : ℕ) (leader_id : NodeId) (items : List ClusterNode)
    (partitions : Partitions) (me : Me) (now : ℕ)
    → IsLater state (handle_cluster_state state epoch leader_id items partitions me now).0
unfolding handle_cluster_state
handle_cluster_state-IsLater state epoch leader_id items partitions me now =
    elim (Option-cases (accept state epoch leader_id)) [
      | inl e ↦ rw (e, handle_cluster_state) (IsLater-refl state)
      | inr (accepted, e) ↦
          rw (e, handle_cluster_state) (accept-IsLater state accepted epoch leader_id e)
    ]

heartbeats-IsLater : (state : State) (me : Me) (now : ℕ) → IsLater state (heartbeats state me now).0
unfolding heartbeats
heartbeats-IsLater state me now = elim (Option-cases (get_worker state.nodes me.id)) [
  | inl e ↦ rw (e, heartbeats) (IsLater-refl state)
  | inr (node, e) ↦ elim (Bool-cases (leb (add64 node.last_heartbeat heartbeat_interval_ms) now)) [
    | inl due ↦ rw (e, heartbeats) (rw due (IsLater-refl state))
    | inr early ↦ rw (e, heartbeats) (rw early (IsLater-refl state))
  ]
]

handle_heartbeat-IsLater :
    (state : State) (id : NodeId) (ts : ℕ) (me : Me)
    → IsLater state (handle_heartbeat state id ts me).0
unfolding handle_heartbeat
handle_heartbeat-IsLater state id ts me = elim (Option-cases (Map.get state.nodes id)) [
  | inl e ↦ rw (e, handle_heartbeat) (IsLater-refl state)
  | inr (node, e) ↦ rw (e, handle_heartbeat) (IsLater-refl state)
]

handle_node_disconnected-IsLater :
    (state : State) (id : NodeId) → IsLater state (handle_node_disconnected state id)
unfolding handle_node_disconnected
handle_node_disconnected-IsLater state id = elim (Bool-cases (Map.contains_key state.nodes id)) [
  | inl e ↦ rw (e, handle_node_disconnected) (IsLater-refl state)
  | inr e ↦ rw (e, handle_node_disconnected) (IsLater-refl state)
]

dispatch-IsLater :
    (state : State) (store : RuntimeStore) (me : Me) (msg : WorkerProtocol) (now : ℕ)
    → IsLater state (dispatch state store me msg now).0
unfolding dispatch handle_new_connection handle_sync_batch_response
dispatch-IsLater state store me (new_connection none host port m) now = IsLater-refl state
dispatch-IsLater state store me (new_connection (some id) host port m) now = IsLater-refl state
dispatch-IsLater state store me (heartbeat id beat) now =
    handle_heartbeat-IsLater state beat.id beat.ts me
dispatch-IsLater state store me (get_cluster_state id) now = IsLater-refl state
dispatch-IsLater state store me (cluster_state s) now =
    handle_cluster_state-IsLater state s.epoch s.leader_id s.nodes s.partitions me now
dispatch-IsLater state store me (node_disconnected id) now =
    handle_node_disconnected-IsLater state id
dispatch-IsLater state store me (leader id epoch ts) now =
    handle_leader-IsLater state id epoch ts me
dispatch-IsLater state store me (remove_partition_from_replica id replica_id partition_id) now =
    IsLater-refl state
dispatch-IsLater state store me (sync_batch recipient_id request) now = IsLater-refl state
dispatch-IsLater state store me (sync_batch_response recipient_id max_applied) now =
    IsLater-refl state

-- A worker that has started, and follows at least what it followed in `s`.
pub record IsAfter (s : State) (service : WorkerService) : Type 0 where
  pub current : State
  pub started : service.state ≡ some current
  pub later : IsLater s current

sync_partitions-IsLater :
    (s state : State) (store : RuntimeStore) (me : Me) (clock : PartitionId → NodeId → Readings)
    → IsLater s state
    → IsLater s (sync_partitions partitions_amount state store me clock).0
sync_partitions-IsLater s state store me clock h =
    let same = sync_partitions-membership partitions_amount state store me clock in
    IsLater-trans s state (sync_partitions partitions_amount state store me clock).0 h
      (inr (ap (λ m. m.1) same, ap (λ m. m.2) same))

tick-IsAfter :
    (s : State) (service : WorkerService) (t : TickInput)
    → IsAfter s service
    → IsAfter s (tick service t).0
unfolding tick
tick-IsAfter s service t h =
    let beating = (heartbeats h.current service.me t.heartbeat_now).0 in
    record {
      current =
          (sync_partitions partitions_amount beating service.runtime_store service.me
            t.sync_clock).0;
      started = rw (h.started, tick) refl;
      later = sync_partitions-IsLater s beating service.runtime_store service.me t.sync_clock (
          IsLater-trans s h.current beating h.later
            (heartbeats-IsLater h.current service.me t.heartbeat_now));
    }

process-IsAfter :
    (s : State) (service : WorkerService) (msg : WorkerProtocol) (now : ℕ) (t : TickInput)
    → IsAfter s service
    → IsAfter s (process service msg now t).0
unfolding process
process-IsAfter s service msg now t h =
    let done = dispatch h.current service.runtime_store service.me msg now in
    let handled : WorkerService = record service { state = some done.0; runtime_store = done.1 } in
    rw (h.started, process)
      (tick-IsAfter s handled t (record {
        current = done.0;
        started = refl;
        later =
            IsLater-trans s h.current done.0 h.later
              (dispatch-IsLater h.current service.runtime_store service.me msg now);
      }))

step-IsAfter :
    (s : State) (service : WorkerService) (event : Event)
    → IsAfter s service
    → IsAfter s (step service event).0
unfolding step
step-IsAfter s service (message msg now t) h = process-IsAfter s service msg now t h
step-IsAfter s service (ticked t) h = tick-IsAfter s service t h

events-IsAfter :
    (s : State) (service : WorkerService) (events : List Event)
    → IsAfter s service
    → IsAfter s (run service events)
unfolding run
events-IsAfter s service [] h = h
events-IsAfter s service (event ∷ events) h =
    events-IsAfter s (step service event).0 events (step-IsAfter s service event h)

-- Whatever messages reach a worker that has started, in any order with its ticks, it goes on
-- running: its epoch never goes back, and within an epoch it never follows another leader.
pub run-IsAfter :
    (service : WorkerService) (s : State) (events : List Event)
    → service.state ≡ some s
    → IsAfter s (run service events)
run-IsAfter service s events e =
    events-IsAfter s service events (record { current = s; started = e; later = IsLater-refl s })
