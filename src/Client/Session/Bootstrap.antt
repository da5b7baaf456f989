-- ===== src/Client/Session/Bootstrap.antt =====
-- The first manager that gives a state.
use rust_accelerator_no_sql.Map
use rust_accelerator_no_sql.Map.Set.{contains_key-add}
use rust_accelerator_no_sql.Prelude.{
  false, ==_refl, ◌∙◌, sym, ap, inr, inl, arith, Option-cases, true, some, none, ◌++◌, All, ◌≡◌,
  List, refl, ◌∷◌, [],
}
use rust_accelerator_no_sql.Wire.{WireNode, Text, WireClusterState}
use rust_accelerator_no_sql.Client.{
  no_manager_address, manager_unavailable, Result, ok, err, Topology, default_topology, apply_state,
  apply_nodes, is_stale,
}
use rust_accelerator_no_sql.Client.Session.Links.{ensure_connections-spawned}
use rust_accelerator_no_sql.Map.Set.{add}
use rust_accelerator_no_sql.Client.Session.{
  Network, Inner, initial_state, bootstrap, on_event, connect_with_config,
}

-- The addresses before the one that answers.
pub record IsFirst (net : Network) (addresses : List Text) (address : Text)
    (state : WireClusterState) : Type 0 where
  pub before : List Text
  pub rest : List Text
  pub split : addresses ≡ before ++ address ∷ rest
  pub silent : All (λ other. initial_state (net.subscribe other) ≡ none) before
  pub answer : initial_state (net.subscribe address) ≡ some state

-- What a client may get that connects to these addresses.
pub data IsConnection (net : Network) : List Text → Result (Inner × List Text) → Type 0 where
  no_address : IsConnection net [] (err no_manager_address)
  none_answers :
      {addresses : List Text}
      → All (λ address. initial_state (net.subscribe address) ≡ none) addresses
      → IsConnection net addresses (err manager_unavailable)
  first_answers :
      {addresses : List Text} {inner : Inner} {tasks : List Text}
      → (address : Text) (state : WireClusterState) → IsFirst net addresses address state
      → inner.state ≡ apply_state default_topology state
      → inner.state.epoch ≡ state.epoch
      → Map.contains_key inner.managers address ≡ true
      → IsConnection net addresses (ok (inner, tasks))

bootstrap-none :
    (net : Network) (addresses : List Text)
    → bootstrap net.subscribe addresses ≡ none
    → All (λ address. initial_state (net.subscribe address) ≡ none) addresses
unfolding bootstrap
bootstrap-none net [] e = tt
bootstrap-none net (address ∷ rest) e =
    elim (Option-cases (initial_state (net.subscribe address))) [
      | inl q ↦ (q, bootstrap-none net rest (ground (arith, q)))
      | inr (state, q) ↦ absurd (ground (arith, q))
    ]

bootstrap-IsFirst :
    (net : Network) (addresses : List Text) (address : Text) (state : WireClusterState)
    → bootstrap net.subscribe addresses ≡ some (address, state)
    → IsFirst net addresses address state
unfolding bootstrap
bootstrap-IsFirst net [] address state e = absurd (ground arith)
bootstrap-IsFirst net (first ∷ rest) address state e =
    elim (Option-cases (initial_state (net.subscribe first))) [
      | inl q ↦
          let later = bootstrap-IsFirst net rest address state (ground (arith, q)) in
          record {
            before = first ∷ later.before;
            rest = later.rest;
            split = ap (λ l. first ∷ l) later.split;
            silent = (q, later.silent);
            answer = later.answer;
          }
      | inr (found, q) ↦
          let same : address ≡ first = ground (arith, q) in
          let answered : found ≡ state = ground (arith, q) in
          record {
            before = [];
            rest = rest;
            split = ap (λ a. a ∷ rest) (sym same);
            silent = tt;
            answer = rw (same, sym answered) q;
          }
    ]

apply_nodes-epoch :
    (topology : Topology) (nodes : List WireNode)
    → (apply_nodes topology nodes).epoch ≡ topology.epoch
unfolding apply_nodes
apply_nodes-epoch topology [] = refl
apply_nodes-epoch topology (node ∷ rest) = refl

default-is_stale : (state : WireClusterState) → is_stale default_topology state ≡ false
unfolding default_topology is_stale
default-is_stale state = ground arith

apply_state-epoch :
    (state : WireClusterState) → (apply_state default_topology state).epoch ≡ state.epoch
unfolding apply_state
apply_state-epoch state =
    let base = record default_topology { epoch = state.epoch; leader_id = state.leader_id } in
    rw (default-is_stale state) (elim (Option-cases state.partitions) [
      | inl e ↦ rw e (apply_nodes-epoch base state.nodes)
      | inr (partitions, e) ↦ rw e (apply_nodes-epoch base state.nodes)
    ])

-- The client that has been given a state.
abbrev fresh : Text → Inner
fresh address = record {
  state = default_topology;
  workers = Map.empty;
  managers = add Map.empty address;
}

started :
    (net : Network) (addresses : List Text) (address : Text) (state : WireClusterState)
    → IsFirst net addresses address state
    → IsConnection net addresses (ok (on_event net (fresh address) (some state)))
unfolding on_event
started net addresses address state first =
    let inner : Inner = record (fresh address) { state = apply_state default_topology state } in
    let kept = ensure_connections-spawned net inner 0 address in
    first_answers address state first kept.0 (ap (λ t. t.epoch) kept.0 ∙ apply_state-epoch state)
      (kept.2 ∙ ground (arith, contains_key-add Map.empty address address, ==_refl address))

-- A client that connects gets an error if it is given no address, or if no manager gives a state.
-- Otherwise the first of the managers, in the order given, that gives one is the one that it uses:
-- it starts with this manager's state, at its epoch, and notes that it has a stream there.
pub connect_with_config-IsConnection :
    (net : Network) (addresses : List Text)
    → IsConnection net addresses (connect_with_config net addresses)
unfolding connect_with_config
connect_with_config-IsConnection net [] = no_address
connect_with_config-IsConnection net (first ∷ rest) =
    elim (Option-cases (bootstrap net.subscribe (first ∷ rest))) [
      | inl e ↦ rw (connect_with_config, e) (none_answers (bootstrap-none net (first ∷ rest) e))
      | inr ((address, state), e) ↦
          rw (connect_with_config, e)
            (started net (first ∷ rest) address state
              (bootstrap-IsFirst net (first ∷ rest) address state e))
    ]
