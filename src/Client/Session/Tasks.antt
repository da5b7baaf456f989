-- ===== src/Client/Session/Tasks.antt =====
-- The tasks by which a client subscribes at managers, and the connections that it has when they have
-- run.
use rust_accelerator_no_sql.Map
use rust_accelerator_no_sql.Prelude.{
  ap, ◌+◌, ◌==◌, Bool-cases, ◌||◌, ◌∙◌, inr, if◌then◌else◌, ◌&&◌, arith, inl, ℕ, List, true, ◌⊎◌,
  false, ◌≡◌, Bool, ◌∷◌, [], refl,
}
use rust_accelerator_no_sql.Client.Session.{
  ensure_connections, forget_manager, manager_tasks, Inner, Network, manager_task, Subscription,
  not_subscribed, initial_state_timeout, stream_failed, stream_closed, first_event,
}
use rust_accelerator_no_sql.Wire.{Text}
use rust_accelerator_no_sql.Client.Session.Links.{
  first_of, ensure_connections-spawned, one_if, any_manager_at, dialled, opened,
}

-- Whether a subscription gives a stream.
unfoldable pub subscribes : Subscription → Bool
subscribes not_subscribed = false
subscribes initial_state_timeout = true
subscribes stream_failed = true
subscribes stream_closed = true
subscribes (first_event state) = true

Subscription-cases : (s : Subscription) → (s ≡ not_subscribed) ⊎ (subscribes s ≡ true)
unfolding subscribes
Subscription-cases not_subscribed = inl refl
Subscription-cases initial_state_timeout = inr refl
Subscription-cases stream_failed = inr refl
Subscription-cases stream_closed = inr refl
Subscription-cases (first_event state) = inr refl

manager_task-subscribed :
    (subscribe : Text → Subscription) (inner : Inner) (endpoint : Text) (s : Subscription)
    → subscribe endpoint ≡ s
    → subscribes s ≡ true
    → manager_task subscribe inner endpoint ≡ (inner, endpoint ∷ [])
unfolding manager_task subscribes
manager_task-subscribed subscribe inner endpoint not_subscribed e h = absurd (ground arith)
manager_task-subscribed subscribe inner endpoint initial_state_timeout e h =
    rw (e, manager_task) refl
manager_task-subscribed subscribe inner endpoint stream_failed e h = rw (e, manager_task) refl
manager_task-subscribed subscribe inner endpoint stream_closed e h = rw (e, manager_task) refl
manager_task-subscribed subscribe inner endpoint (first_event state) e h = rw (e, manager_task) refl

manager_task-cases :
    (subscribe : Text → Subscription) (inner : Inner) (endpoint : Text)
    → ((subscribes (subscribe endpoint) ≡ false)
        × (manager_task subscribe inner endpoint ≡ (forget_manager inner endpoint, [])))
      ⊎ ((subscribes (subscribe endpoint) ≡ true)
          × (manager_task subscribe inner endpoint ≡ (inner, endpoint ∷ [])))
unfolding manager_task subscribes
manager_task-cases subscribe inner endpoint = elim (Subscription-cases (subscribe endpoint)) [
  | inl e ↦ inl (rw (e, subscribes) refl, rw (e, manager_task) refl)
  | inr e ↦ inr (e, manager_task-subscribed subscribe inner endpoint (subscribe endpoint) refl e)
]

module _ (subscribe : Text → Subscription) where
  tasks-nodes :
      (inner : Inner) (tasks : List Text)
      → ((manager_tasks subscribe inner tasks).0.state ≡ inner.state)
        × ((manager_tasks subscribe inner tasks).0.workers ≡ inner.workers)
  unfolding manager_tasks forget_manager
  tasks-nodes inner [] = (refl, refl)
  tasks-nodes inner (endpoint ∷ rest) =
      let (state_kept, workers_kept) = tasks-nodes (manager_task subscribe inner endpoint).0 rest in
      elim (manager_task-cases subscribe inner endpoint) [
        | inl (_, e) ↦ (state_kept ∙ rw e refl, workers_kept ∙ rw e refl)
        | inr (_, e) ↦ (state_kept ∙ rw e refl, workers_kept ∙ rw e refl)
      ]

  tasks-contains_key :
      (inner : Inner) (tasks : List Text) (t : Text)
      → Map.contains_key (manager_tasks subscribe inner tasks).0.managers t
        ≡ (Map.contains_key inner.managers t && (subscribes (subscribe t) || opened t tasks == 0))
  unfolding manager_tasks forget_manager opened
  tasks-contains_key inner [] t = ground arith
  tasks-contains_key inner (endpoint ∷ rest) t =
      let later = tasks-contains_key (manager_task subscribe inner endpoint).0 rest t in
      elim (Bool-cases (endpoint == t)) [
        | inl same ↦
            let named : endpoint ≡ t = ground arith in
            elim (manager_task-cases subscribe inner endpoint) [
              | inl (fails, e) ↦
                  let fails_at : subscribes (subscribe t) ≡ false = rw named at fails in
                  let gone = Map.contains_key-remove inner.managers endpoint t in
                  ground (arith, later, e, gone, fails_at)
              | inr (works, e) ↦
                  let works_at : subscribes (subscribe t) ≡ true = rw named at works in
                  ground (arith, later, e, works_at)
            ]
        | inr differ ↦ elim (manager_task-cases subscribe inner endpoint) [
          | inl (fails, e) ↦
              let other = Map.contains_key-remove inner.managers endpoint t in
              ground (arith, later, e, other)
          | inr (works, e) ↦ ground (arith, later, e)
        ]
      ]

  tasks-opened :
      (inner : Inner) (tasks : List Text) (t : Text)
      → opened t (manager_tasks subscribe inner tasks).1
        ≡ (if subscribes (subscribe t) then opened t tasks else 0)
  unfolding manager_tasks opened
  tasks-opened inner [] t = ground arith
  tasks-opened inner (endpoint ∷ rest) t =
      let later = tasks-opened (manager_task subscribe inner endpoint).0 rest t in
      elim (Bool-cases (endpoint == t)) [
        | inl same ↦
            let named : endpoint ≡ t = ground arith in
            elim (manager_task-cases subscribe inner endpoint) [
              | inl (fails, e) ↦
                  let fails_at : subscribes (subscribe t) ≡ false = rw named at fails in
                  ground (arith, later, e, fails_at)
              | inr (works, e) ↦
                  let works_at : subscribes (subscribe t) ≡ true = rw named at works in
                  ground (arith, later, e, works_at)
            ]
        | inr differ ↦ elim (manager_task-cases subscribe inner endpoint) [
          | inl (fails, e) ↦ ground (arith, later, e)
          | inr (works, e) ↦ ground (arith, later, e)
        ]
      ]

-- The client after `ensure_connections` and the tasks that it has spawned, and the streams that these
-- have opened.
abbrev pub settled : Network → Inner → Inner × List Text
settled net inner =
    manager_tasks net.subscribe (ensure_connections net inner).0 (ensure_connections net inner).1

-- What the connections are after a topology has been taken up and the tasks for its managers have run,
-- whatever the network does: a worker keeps the connection that it has, or else has the one that
-- dialling it gives, if it gives one; no other worker has one. The endpoints that are noted are those
-- that were noted before and those of the managers where a subscription succeeds; one where it fails
-- is given up. A stream is opened at an endpoint exactly if it was not noted before and is now, and
-- then once. The topology stays.
pub ensure_connections_lem :
    (net : Network) (inner : Inner) (node_id : ℕ) (endpoint : Text)
    → ((settled net inner).0.state ≡ inner.state)
      × (Map.get (settled net inner).0.workers node_id
          ≡ first_of
              (Map.get inner.workers node_id)
              (dialled net (Map.get inner.state.nodes node_id)))
      × (Map.contains_key (settled net inner).0.managers endpoint ≡ (
          Map.contains_key inner.managers endpoint
          || (any_manager_at net endpoint inner.state.nodes.entries
              && subscribes (net.subscribe endpoint))))
      × (opened endpoint (settled net inner).1 + one_if (Map.contains_key inner.managers endpoint)
          ≡ one_if (Map.contains_key (settled net inner).0.managers endpoint))
ensure_connections_lem net inner node_id endpoint =
    let (state, workers, noted, once) = ensure_connections-spawned net inner node_id endpoint in
    let spawned = ensure_connections net inner in
    let (state_kept, workers_kept) = tasks-nodes net.subscribe spawned.0 spawned.1 in
    let left = tasks-contains_key net.subscribe spawned.0 spawned.1 endpoint in
    let streams = tasks-opened net.subscribe spawned.0 spawned.1 endpoint in
    (
      state_kept ∙ state,
      ap (λ m. Map.get m node_id) workers_kept ∙ workers,
      ground (arith, left, noted, once),
      ground (arith, left, streams, noted, once),
    )
