-- ===== src/Worker/Grpc/KnownManagers.antt =====
-- Which nodes a worker knows as managers, from the connections that its gRPC layer announces.
use rust_accelerator_no_sql.Map
use rust_accelerator_no_sql.Map.Entries
use rust_accelerator_no_sql.Prelude.{
  ◌&&◌, option_eq, option_lt, add64, ◌||◌, leb, max, is_some, not, subst, ltb, arith, ap, Option,
  ◌∙◌, inr, sym, inl, ◌==◌, Option-cases, Bool-cases, none, false, some, ◌≡◌, Bool, refl, ℕ, List,
  [], ◌∷◌,
}
use rust_accelerator_no_sql.Common.{
  Partitions, Me, is_worker, ClusterNode, is_manager, NodeId, Node,
}
use rust_accelerator_no_sql.Map.{Map}
use rust_accelerator_no_sql.Worker.{State, get_worker, get_manager}
use rust_accelerator_no_sql.Worker.Membership.{
  heartbeat_interval_ms, handle_node_disconnected, heartbeats, handle_heartbeat,
  handle_cluster_state, merge_item, accept, prune_nodes, merge_items,
}

-- No node is known as a manager.
abbrev pub NoManagers : Map Node → Type 0
NoManagers nodes =
    (id : NodeId) (node : Node) → Map.get nodes id ≡ some node → is_manager node ≡ false

pub NoManagers-insert :
    (nodes : Map Node) (k : NodeId) (node : Node)
    → is_manager node ≡ false
    → NoManagers nodes
    → NoManagers (Map.insert nodes k node)
NoManagers-insert nodes k node w h id found e = elim (Bool-cases (k == id)) [
  | inl same ↦
      let here : Map.get (Map.insert nodes k node) id ≡ some node =
        Map.get-insert nodes k id node ∙ rw same refl in
      ap kind (sym e ∙ here) ∙ w
  | inr other ↦
      let there : Map.get (Map.insert nodes k node) id ≡ Map.get nodes id =
        Map.get-insert nodes k id node ∙ rw other refl in
      h id found (sym there ∙ e)
]
  where
    kind : Option Node → Bool
    kind none = false
    kind (some n) = is_manager n

keep-some :
    (f : ℕ → Node → Bool) (k : ℕ) (o : Option Node) (node : Node)
    → Entries.keep f k o ≡ some node
    → o ≡ some node
keep-some f k none node e = e
keep-some f k (some n) node e = elim (Bool-cases (f k n)) [
  | inl kept ↦ sym (rw kept refl) ∙ e
  | inr gone ↦ absurd (ground (arith, e, gone))
]

NoManagers-retain :
    (f : ℕ → Node → Bool) (nodes : Map Node) → NoManagers nodes → NoManagers (Map.retain f nodes)
NoManagers-retain f nodes h id found e =
    h id found (keep-some f id (Map.get nodes id) found (sym (Map.get-retain f nodes id) ∙ e))

-- A known node that is beaten for stays the kind of node that it is.
NoManagers-touch :
    (nodes : Map Node) (k : NodeId) (node : Node) (ts : ℕ)
    → Map.get nodes k ≡ some node
    → NoManagers nodes
    → NoManagers (Map.insert nodes k (record node { last_heartbeat = ts }))
NoManagers-touch nodes k node ts e h =
    NoManagers-insert nodes k (record node { last_heartbeat = ts }) (h k node e) h

pub get_manager-none :
    (nodes : Map Node) (id : NodeId) → NoManagers nodes → get_manager nodes id ≡ none
unfolding get_manager
get_manager-none nodes id h = elim (Option-cases (Map.get nodes id)) [
  | inl e ↦ rw (e, get_manager) refl
  | inr (node, e) ↦ rw (e, get_manager) (rw (h id node e) refl)
]

get_worker-some :
    (nodes : Map Node) (id : NodeId) (node : Node)
    → get_worker nodes id ≡ some node
    → Map.get nodes id ≡ some node
unfolding get_worker
get_worker-some nodes id node e = elim (Option-cases (Map.get nodes id)) [
  | inl none_there ↦ absurd (ground (arith, e, none_there))
  | inr (found, there) ↦ elim (Bool-cases (is_worker found)) [
    | inl w ↦ there ∙ (sym (rw (there, get_worker) (rw w refl)) ∙ e)
    | inr w ↦ absurd (ground (arith, e, there, w))
  ]
]

merge_items-NoManagers :
    (items : List ClusterNode) (nodes : Map Node)
    → NoManagers nodes
    → NoManagers (merge_items nodes items).0
unfolding merge_items merge_item
merge_items-NoManagers [] nodes h = h
merge_items-NoManagers (item ∷ items) nodes h =
    merge_items-NoManagers items (merge_item nodes item).0
      (elim (Option-cases (Map.get nodes item.id)) [
        | inl e ↦ rw (e, merge_item) h
        | inr (node, e) ↦ elim (Bool-cases (ltb node.last_heartbeat item.last_heartbeat)) [
          | inl later ↦
              rw (e, merge_item)
                (rw later (NoManagers-touch nodes item.id node item.last_heartbeat e h))
          | inr same ↦ rw (e, merge_item) (rw same h)
        ]
      ])

prune_nodes-NoManagers :
    (nodes : Map Node) (items : List ClusterNode) (me : Me)
    → NoManagers nodes
    → NoManagers (prune_nodes nodes items me)
unfolding prune_nodes
prune_nodes-NoManagers nodes [] me h = h
prune_nodes-NoManagers nodes (item ∷ items) me h = NoManagers-retain _ nodes h

accept-nodes :
    (state state' : State) (epoch : ℕ) (leader_id : NodeId)
    → accept state epoch leader_id ≡ some state'
    → state'.nodes ≡ state.nodes
unfolding accept
accept-nodes state state' epoch leader_id e =
    elim (Bool-cases (not (is_some state.epoch) || option_lt state.epoch (some epoch))) [
      | inl c ↦
          let step : accept state epoch leader_id
              ≡ some (record state { epoch = some epoch; elected_leader_id = some leader_id }) =
            rw c refl in
          ap nodes_of (sym e ∙ step)
      | inr c ↦
          elim (Bool-cases (
            option_eq state.epoch (some epoch)
            && option_eq state.elected_leader_id (some leader_id))) [
              | inl d ↦
                  let step : accept state epoch leader_id ≡ some state = rw c (rw d refl) in
                  ap nodes_of (sym e ∙ step)
              | inr d ↦
                  let step : accept state epoch leader_id ≡ none = rw c (rw d refl) in
                  ap nodes_of (sym e ∙ step)
            ]
    ]
  where
    nodes_of : Option State → Map Node
    nodes_of none = state.nodes
    nodes_of (some s) = s.nodes

pub handle_cluster_state-NoManagers :
    (state : State) (epoch : ℕ) (leader_id : NodeId) (items : List ClusterNode)
    (partitions : Partitions) (me : Me) (now : ℕ)
    → NoManagers state.nodes
    → NoManagers (handle_cluster_state state epoch leader_id items partitions me now).0.nodes
unfolding handle_cluster_state
handle_cluster_state-NoManagers state epoch leader_id items partitions me now h =
    elim (Option-cases (accept state epoch leader_id)) [
      | inl e ↦ rw (e, handle_cluster_state) h
      | inr (accepted, e) ↦
          rw (e, handle_cluster_state)
            (merge_items-NoManagers items (prune_nodes accepted.nodes items me) (
              prune_nodes-NoManagers accepted.nodes items me
                (subst NoManagers (sym (accept-nodes state accepted epoch leader_id e)) h)))
    ]

pub handle_heartbeat-NoManagers :
    (state : State) (id : NodeId) (ts : ℕ) (me : Me)
    → NoManagers state.nodes
    → NoManagers (handle_heartbeat state id ts me).0.nodes
unfolding handle_heartbeat
handle_heartbeat-NoManagers state id ts me h = elim (Option-cases (Map.get state.nodes id)) [
  | inl e ↦ rw (e, handle_heartbeat) h
  | inr (node, e) ↦
      rw (e, handle_heartbeat)
        (NoManagers-touch state.nodes id node (max node.last_heartbeat ts) e h)
]

pub heartbeats-NoManagers :
    (state : State) (me : Me) (now : ℕ)
    → NoManagers state.nodes
    → NoManagers (heartbeats state me now).0.nodes
unfolding heartbeats
heartbeats-NoManagers state me now h = elim (Option-cases (get_worker state.nodes me.id)) [
  | inl e ↦ rw (e, heartbeats) h
  | inr (node, e) ↦ elim (Bool-cases (leb (add64 node.last_heartbeat heartbeat_interval_ms) now)) [
    | inl due ↦
        rw (e, heartbeats)
          (rw due (
            NoManagers-touch state.nodes me.id node now (get_worker-some state.nodes me.id node e)
              h))
    | inr early ↦ rw (e, heartbeats) (rw early h)
  ]
]

pub handle_node_disconnected-NoManagers :
    (state : State) (id : NodeId)
    → NoManagers state.nodes
    → NoManagers (handle_node_disconnected state id).nodes
unfolding handle_node_disconnected Map.remove
handle_node_disconnected-NoManagers state id h =
    elim (Bool-cases (Map.contains_key state.nodes id)) [
      | inl known ↦ rw (known, handle_node_disconnected) (NoManagers-retain _ state.nodes h)
      | inr unknown ↦ rw (unknown, handle_node_disconnected) h
    ]
