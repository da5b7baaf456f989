-- ===== src/Manager/Cluster/Membership.antt =====
-- Which nodes a manager knows after a snapshot of the cluster.
use rust_accelerator_no_sql.Map
use rust_accelerator_no_sql.Map.{Map}
use rust_accelerator_no_sql.Prelude.{
  ℕ, ◌≡◌, ◌==◌, ◌||◌, ltb, refl, sym, ap, ◌∙◌, arith, List, [], ◌∷◌, none, some, true, false, Bool,
  if◌then◌else◌, inl, inr, ◌⊎◌, Bool-cases, Option-cases, contains,
}
use rust_accelerator_no_sql.Manager.{State, ManagerProtocol}
use rust_accelerator_no_sql.Manager.Cluster.{
  add_node, merge_item, merge_items, prune_nodes, item_ids, handle_cluster_state,
}
use rust_accelerator_no_sql.Manager.Cluster.Acceptance.{IsAcceptable, cluster_state_cases}
use rust_accelerator_no_sql.Common.{
  Node, NodeId, NodeType, manager, worker, ClusterNode, Me, Partitions,
}

contains_key-add_node :
    (nodes : Map Node) (item : ClusterNode) (node_type : NodeType) (id : NodeId)
    → Map.contains_key (add_node nodes item node_type).0 id ≡ true
    → (Map.contains_key nodes id ≡ true) ⊎ ((item.id == id) ≡ true)
unfolding add_node
contains_key-add_node nodes item manager id h = inl h
contains_key-add_node nodes item worker id h = elim (Bool-cases (item.id == id)) [
  | inl same ↦ inr same
  | inr differ ↦ inl (
      ground (
        arith,
        differ,
        h,
        Map.contains_key-insert nodes item.id id (record {
          host = item.host;
          port = item.port;
          last_heartbeat = item.last_heartbeat;
          node_type = worker;
        }),
      ))
]

merge_item-new :
    (nodes : Map Node) (item : ClusterNode)
    → Map.get nodes item.id ≡ none
    → merge_item nodes item ≡ add_node nodes item item.node_type
unfolding merge_item
merge_item-new nodes item e = rw (e, merge_item) refl

merge_item-known :
    (nodes : Map Node) (item : ClusterNode) {node : Node}
    → Map.get nodes item.id ≡ some node
    → (merge_item nodes item).0 ≡ (
        if ltb node.last_heartbeat item.last_heartbeat
        then Map.insert nodes item.id (record node { last_heartbeat = item.last_heartbeat })
        else nodes)
unfolding merge_item
merge_item-known nodes item e = rw (e, merge_item) refl

contains_key-updated :
    (nodes : Map Node) (i id : NodeId) (node : Node) (b : Bool)
    → Map.contains_key (if b then Map.insert nodes i node else nodes) id ≡ true
    → (Map.contains_key nodes id ≡ true) ⊎ ((i == id) ≡ true)
contains_key-updated nodes i id node false h = inl h
contains_key-updated nodes i id node true h = elim (Bool-cases (i == id)) [
  | inl same ↦ inr same
  | inr differ ↦ inl (ground (arith, differ, h, Map.contains_key-insert nodes i id node))
]

contains_key-merge_item :
    (nodes : Map Node) (item : ClusterNode) (id : NodeId)
    → Map.contains_key (merge_item nodes item).0 id ≡ true
    → (Map.contains_key nodes id ≡ true) ⊎ ((item.id == id) ≡ true)
contains_key-merge_item nodes item id h = elim (Option-cases (Map.get nodes item.id)) [
  | inl e ↦ contains_key-add_node nodes item item.node_type id (
      sym (
        ap (λ (r : Map Node × List ManagerProtocol). Map.contains_key r.0 id)
          (merge_item-new nodes item e))
      ∙ h)
  | inr (node, e) ↦
      contains_key-updated nodes item.id id (record node { last_heartbeat = item.last_heartbeat })
        (ltb node.last_heartbeat item.last_heartbeat)
        (sym (ap (λ ns. Map.contains_key ns id) (merge_item-known nodes item {node = node} e)) ∙ h)
]

contains_key-merge_items :
    (items : List ClusterNode) (nodes : Map Node) (id : NodeId)
    → Map.contains_key (merge_items nodes items).0 id ≡ true
    → (Map.contains_key nodes id ≡ true) ⊎ (contains (item_ids items) id ≡ true)
unfolding merge_items
contains_key-merge_items [] nodes id h = inl h
contains_key-merge_items (item ∷ items) nodes id h =
    elim (contains_key-merge_items items (merge_item nodes item).0 id h) [
      | inr named ↦ inr (ground (arith, named))
      | inl known ↦ elim (contains_key-merge_item nodes item id known) [
        | inl before ↦ inl before
        | inr same ↦ inr (ground (arith, same))
      ]
    ]

contains_key-prune_nodes :
    (nodes : Map Node) (item : ClusterNode) (items : List ClusterNode) (me : Me) (id : NodeId)
    → Map.contains_key (prune_nodes nodes (item ∷ items) me) id ≡ true
    → (id == me.id || contains (item_ids (item ∷ items)) id) ≡ true
unfolding prune_nodes Map.contains_key
contains_key-prune_nodes nodes item items me id h =
    ground (
      arith,
      h,
      Map.get-retain (λ i _. i == me.id || contains (item_ids (item ∷ items)) i) nodes id,
    )

-- After a snapshot with a list of nodes is taken up, a manager knows no node but itself and those
-- that the snapshot names.
pub full_snapshot_members :
    (state : State) (epoch : ℕ) (leader_id : NodeId) (item : ClusterNode) (items : List ClusterNode)
    (partitions : Partitions) (me : Me) (id : NodeId)
    → IsAcceptable state epoch leader_id
    → Map.contains_key
        (handle_cluster_state state epoch leader_id (item ∷ items) partitions me).0.nodes
        id
      ≡ true
    → (id ≡ me.id) ⊎ (contains (item_ids (item ∷ items)) id ≡ true)
full_snapshot_members state epoch leader_id item items partitions me id ok h =
    elim (cluster_state_cases state epoch leader_id (item ∷ items) partitions me) [
      | inl (refused, same) ↦ absurd (refused ok)
      | inr (ok', e, l, p, nodes) ↦
          elim (contains_key-merge_items (item ∷ items) (prune_nodes state.nodes (item ∷ items) me)
            id (sym (ap (λ ns. Map.contains_key ns id) nodes) ∙ h)) [
              | inr named ↦ inr named
              | inl kept ↦
                  let either = contains_key-prune_nodes state.nodes item items me id kept in
                  elim (Bool-cases (id == me.id)) [
                    | inl mine ↦ inl (ground (arith, mine))
                    | inr other ↦ inr (ground (arith, other, either))
                  ]
            ]
    ]
