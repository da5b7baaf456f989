-- ===== src/Worker/Grpc/Announcements.antt =====
-- What the connections of a worker announce: the messages that its service gets.
use rust_accelerator_no_sql.Prelude.{
  map_option, All, ◌⊎◌, none, ◌∙◌, sym, ap, subst, String, Option, inr, false, inl, some,
  Option-cases, ◌≡◌, Bool, refl, ℕ, List, [], ◌∷◌,
}
use rust_accelerator_no_sql.Common.{is_manager, NodeId, Me}
use rust_accelerator_no_sql.Worker.{
  sync_batch_response, sync_batch, remove_partition_from_replica, leader, node_disconnected,
  cluster_state, get_cluster_state, heartbeat, new_connection, WorkerProtocol,
}
use rust_accelerator_no_sql.Conversions.{cluster_state_to_domain, Uuid}
use rust_accelerator_no_sql.Channels.{
  panics, Received-cases, or_panic, stop, message, Received, receive_all,
}
use rust_accelerator_no_sql.Wire.{SyncEvent, WorkerEvent}
use rust_accelerator_no_sql.Worker.Grpc.{
  input_from_worker, receive_from_worker, receive_from_manager, input_from_manager,
}

-- The message says that a manager has connected.
abbrev pub announces_manager : WorkerProtocol → Bool
announces_manager (new_connection id host port is_manager) = is_manager
announces_manager (heartbeat id beat) = false
announces_manager (get_cluster_state id) = false
announces_manager (cluster_state s) = false
announces_manager (node_disconnected id) = false
announces_manager (leader id epoch ts) = false
announces_manager (remove_partition_from_replica id replica_id partition_id) = false
announces_manager (sync_batch recipient_id request) = false
announces_manager (sync_batch_response recipient_id max_applied) = false

abbrev pub IsMember : WorkerProtocol → List WorkerProtocol → Type 0
IsMember x [] = ⊥
IsMember x (y ∷ ys) = (x ≡ y) ⊎ IsMember x ys

-- The messages that a worker's service gets: those of its connections, and the news that a session
-- has ended.
pub data IsReceived (uuid : Uuid) (me : Me) : WorkerProtocol → Type 0 where
  from_manager :
      (id : NodeId) (host : String) (port : ℕ) (events : List WorkerEvent) (msg : WorkerProtocol)
      → IsMember msg (input_from_manager uuid id host port events).0
      → IsReceived uuid me msg
  from_worker :
      (id : NodeId) (host : String) (port : ℕ) (events : List SyncEvent) (msg : WorkerProtocol)
      → IsMember msg (input_from_worker me id host port events).0
      → IsReceived uuid me msg
  session_ended : (id : NodeId) → IsReceived uuid me (node_disconnected id)

receive_all-All {ℓ} :
    {E : Type ℓ} (P : WorkerProtocol → Type 0) (receive : E → Received WorkerProtocol)
    (events : List E)
    → ((event : E) (msg : WorkerProtocol) → receive event ≡ message msg → P msg)
    → All P (receive_all receive events).0
unfolding receive_all
receive_all-All P receive [] one = tt
receive_all-All P receive (event ∷ events) one = elim (Received-cases (receive event)) [
  | inl (msg, e) ↦ rw (e, receive_all) (one event msg e, receive_all-All P receive events one)
  | inr (inl e) ↦ rw (e, receive_all) tt
  | inr (inr e) ↦ rw (e, receive_all) tt
]

All-IsMember :
    (P : WorkerProtocol → Type 0) (xs : List WorkerProtocol) (x : WorkerProtocol)
    → All P xs
    → IsMember x xs
    → P x
All-IsMember P [] x a m = absurd m
All-IsMember P (y ∷ ys) x a (inl e) = subst P (sym e) a.0
All-IsMember P (y ∷ ys) x a (inr m) = All-IsMember P ys x a.1 m

-- No message of a connection announces a manager.
abbrev pub NoAnnouncement : WorkerProtocol → Type 0
NoAnnouncement msg = announces_manager msg ≡ false

abbrev announced : Received WorkerProtocol → Bool
announced (message msg) = announces_manager msg
announced stop = false
announced panics = false

or_panic-announced :
    {A : Type 0} (f : A → WorkerProtocol) (o : Option A)
    → ((a : A) → announces_manager (f a) ≡ false)
    → announced (or_panic (map_option f o)) ≡ false
unfolding or_panic
or_panic-announced f none h = refl
or_panic-announced f (some a) h = h a

receive_from_manager-announced :
    (uuid : Uuid) (id : NodeId) (event : WorkerEvent)
    → announced (receive_from_manager uuid id event) ≡ false
unfolding receive_from_manager
receive_from_manager-announced uuid id
      (WorkerEvent.remove_partition_from_replica replica partition_id) =
    or_panic-announced _ (uuid.parse_str replica) (λ a. refl)
receive_from_manager-announced uuid id (WorkerEvent.heartbeat node ts) =
    or_panic-announced _ (uuid.parse_str node) (λ a. refl)
receive_from_manager-announced uuid id WorkerEvent.get_cluster_state = refl
receive_from_manager-announced uuid id (WorkerEvent.cluster_state state) =
    elim (Option-cases state.partitions) [
      | inl e ↦ rw (e, receive_from_manager) refl
      | inr (partitions, e) ↦
          rw (e, receive_from_manager)
            (or_panic-announced cluster_state (cluster_state_to_domain uuid state partitions)
              (λ a. refl))
    ]
receive_from_manager-announced uuid id (WorkerEvent.manager_leader leader_text epoch ts) =
    or_panic-announced _ (uuid.parse_str leader_text) (λ a. refl)
receive_from_manager-announced uuid id (WorkerEvent.connect request_id addr factor) = refl
receive_from_manager-announced uuid id (WorkerEvent.connect_response response_id) = refl

receive_from_worker-announced :
    (me : Me) (id : NodeId) (event : SyncEvent)
    → announced (receive_from_worker me id event) ≡ false
unfolding receive_from_worker
receive_from_worker-announced me id (SyncEvent.sync_batch_request records) = refl
receive_from_worker-announced me id (SyncEvent.sync_batch_response max_applied) = refl
receive_from_worker-announced me id (SyncEvent.connect request_id addr) = refl
receive_from_worker-announced me id (SyncEvent.connect_response response_id) = refl

pub IsReceived-NoAnnouncement :
    (uuid : Uuid) (me : Me) (msg : WorkerProtocol) → IsReceived uuid me msg → NoAnnouncement msg
unfolding input_from_manager input_from_worker
IsReceived-NoAnnouncement uuid me _ (from_manager id host port events msg m) =
    All-IsMember NoAnnouncement (input_from_manager uuid id host port events).0 msg
      (
        refl,
        receive_all-All NoAnnouncement (receive_from_manager uuid id) events
            (λ event msg e. sym (ap announced e) ∙ receive_from_manager-announced uuid id event),
      )
      m
IsReceived-NoAnnouncement uuid me _ (from_worker id host port events msg m) =
    All-IsMember NoAnnouncement (input_from_worker me id host port events).0 msg
      (
        refl,
        receive_all-All NoAnnouncement (receive_from_worker me id) events
            (λ event msg e. sym (ap announced e) ∙ receive_from_worker-announced me id event),
      )
      m
IsReceived-NoAnnouncement uuid me _ (session_ended id) = refl
