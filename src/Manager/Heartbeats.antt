-- ===== src/Manager/Heartbeats.antt =====
-- crates/no-sql-store/src/manager/service/heartbeat.rs.
use rust_accelerator_no_sql.Map
use rust_accelerator_no_sql.Prelude.{
  option_eq, ltb, max, ◌==◌, some, none, if◌then◌else◌, [], map, add64, leb, List, ℕ,
}
use rust_accelerator_no_sql.Manager.{
  heartbeat, ManagerProtocol, NodeId, Me, Node, State, ask_managers, get_manager, other_nodes,
}

abbrev pub heartbeat_interval_ms : ℕ
heartbeat_interval_ms = 200

-- This node's own heartbeat, sent to every other node when the interval is over.
unfoldable pub own_heartbeat : State → Node → Me → ℕ → State × List ManagerProtocol
unfolding other_nodes Map.insert
own_heartbeat state node me now =
    if leb (add64 node.last_heartbeat heartbeat_interval_ms) now
    then (
      record state { nodes = Map.insert state.nodes me.id (record node { last_heartbeat = now }) },
      map (λ id. heartbeat id (record { id = me.id; ts = now })) (other_nodes state.nodes me),
    )
    else (state, [])

-- A leader that has been silent for longer than the random timeout is given up.
unfoldable pub expire_leader : State → Me → ℕ → ℕ → State
unfolding get_manager
expire_leader state me now random = elim state.elected_leader_id [
  | none ↦ state
  | some leader_id ↦
      if leader_id == me.id then state else elim (get_manager state.nodes leader_id) [
        | none ↦ state
        | some node ↦
            if ltb (add64 node.last_heartbeat random) now
            then record state { elected_leader_id = none }
            else state
      ]
]

unfoldable pub heartbeats : State → Me → ℕ → ℕ → State × List ManagerProtocol
unfolding own_heartbeat expire_leader get_manager
heartbeats state me now random = elim (get_manager state.nodes me.id) [
  | none ↦ (state, [])
  | some node ↦
      let (state', output) = own_heartbeat state node me now in
      (expire_leader state' me now random, output)
]

unfoldable pub handle_heartbeat : State → NodeId → ℕ → Me → State × List ManagerProtocol
unfolding ask_managers other_nodes Map.get Map.insert Map.keys Map.remove
handle_heartbeat state id ts me = elim (Map.get state.nodes id) [
  | none ↦ (state, ask_managers state.nodes me)
  | some node ↦
      let nodes =
        Map.insert state.nodes id (record node { last_heartbeat = max node.last_heartbeat ts }) in
      (
        record state { nodes = nodes },
        if option_eq state.elected_leader_id (some me.id)
            then map (λ key. heartbeat key (record { id = id; ts = ts }))
                (Map.keys (Map.remove (Map.remove nodes me.id) id))
            else [],
      )
]
