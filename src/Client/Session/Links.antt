-- ===== src/Client/Session/Links.antt =====
-- The connections to workers and the streams of managers that a topology calls for.
use rust_accelerator_no_sql.Map
use rust_accelerator_no_sql.Map.Entries
use rust_accelerator_no_sql.Map.{Map}
use rust_accelerator_no_sql.Map.Set.{contains_key-add}
use rust_accelerator_no_sql.Prelude.{
  sym, inr, ==_refl, Bool-cases, ap, inl, ◌++◌, ◌∙◌, Option-cases, ◌&&◌, none, ◌==◌, arith,
  if◌then◌else◌, ◌||◌, not, some, ◌+◌, ◌≡◌, List, Bool, Option, ℕ, refl, ◌∷◌, [], false,
}
use rust_accelerator_no_sql.Wire.{Text, node_type_worker, node_type_manager}
use rust_accelerator_no_sql.Client.{ok, ClientNode}
use rust_accelerator_no_sql.Client.Session.{
  worker, Network, Inner, ensure_manager, ensure_worker, ensure_node, ensure_nodes,
  ensure_connections,
}

-- The connection that dialling a worker gives.
unfoldable pub dialled : Network → Option ClientNode → Option ℕ
dialled net none = none
dialled net (some node) =
    if node.node_type == node_type_worker then net.dial (net.endpoint node.endpoint) else none

unfoldable pub first_of : Option ℕ → Option ℕ → Option ℕ
first_of none other = other
first_of (some a) other = some a

-- Whether the node is a manager with this endpoint.
unfoldable pub is_manager_at : Network → Text → ClientNode → Bool
is_manager_at net t node =
    not (node.node_type == node_type_worker)
    && (node.node_type == node_type_manager && net.endpoint node.endpoint == t)

unfoldable pub any_manager_at : Network → Text → List (ℕ × ClientNode) → Bool
any_manager_at net t [] = false
any_manager_at net t ((id, node) ∷ rest) = is_manager_at net t node || any_manager_at net t rest

-- How many streams are opened at an endpoint.
unfoldable pub opened : Text → List Text → ℕ
opened t [] = 0
opened t (endpoint ∷ rest) = (if endpoint == t then 1 else 0) + opened t rest

abbrev pub one_if : Bool → ℕ
one_if b = if b then 1 else 0

state-ensure_node :
    (net : Network) (inner : Inner) (id : ℕ) (node : ClientNode)
    → (ensure_node net inner id node).0.state ≡ inner.state
unfolding ensure_node ensure_worker ensure_manager
state-ensure_node net inner id node = ground arith

get-ensure_node :
    (net : Network) (inner : Inner) (id j : ℕ) (node : ClientNode)
    → Map.get (ensure_node net inner id node).0.workers j ≡ (
        if id == j
        then first_of (Map.get inner.workers j) (dialled net (some node))
        else Map.get inner.workers j)
unfolding ensure_node ensure_worker ensure_manager dialled first_of Map.contains_key
get-ensure_node net inner id j node = elim (Option-cases (net.dial (net.endpoint node.endpoint))) [
  | inl e ↦ elim (Bool-cases (id == j)) [
    | inl same ↦ let id_eq : id ≡ j = ground arith in rw id_eq (ground (arith, e, ==_refl j))
    | inr differ ↦ ground (arith, e)
  ]
  | inr (connection, e) ↦ elim (Bool-cases (id == j)) [
    | inl same ↦
        let id_eq : id ≡ j = ground arith in
        rw id_eq (ground (arith, e, ==_refl j, Map.get-insert inner.workers j j connection))
    | inr differ ↦ ground (arith, e, Map.get-insert inner.workers id j connection)
  ]
]

contains_key-ensure_node :
    (net : Network) (inner : Inner) (id : ℕ) (node : ClientNode) (t : Text)
    → Map.contains_key (ensure_node net inner id node).0.managers t
      ≡ (Map.contains_key inner.managers t || is_manager_at net t node)
unfolding ensure_node ensure_worker ensure_manager is_manager_at
contains_key-ensure_node net inner id node t =
    ground (arith, contains_key-add inner.managers (net.endpoint node.endpoint) t)

opened-ensure_node :
    (net : Network) (inner : Inner) (id : ℕ) (node : ClientNode) (t : Text)
    → opened t (ensure_node net inner id node).1 + one_if (Map.contains_key inner.managers t)
      ≡ one_if (Map.contains_key (ensure_node net inner id node).0.managers t)
unfolding ensure_node ensure_worker ensure_manager opened
opened-ensure_node net inner id node t =
    ground (arith, contains_key-add inner.managers (net.endpoint node.endpoint) t)

state-ensure_nodes :
    (net : Network) (inner : Inner) (nodes : List (ℕ × ClientNode))
    → (ensure_nodes net inner nodes).0.state ≡ inner.state
unfolding ensure_nodes
state-ensure_nodes net inner [] = refl
state-ensure_nodes net inner ((id, node) ∷ rest) =
    state-ensure_nodes net (ensure_node net inner id node).0 rest
    ∙ state-ensure_node net inner id node

first_of-none : (o : Option ℕ) → first_of o none ≡ o
unfolding first_of
first_of-none none = refl
first_of-none (some a) = refl

get_cons :
    (net : Network) (o : Option ℕ) (id j : ℕ) (node : ClientNode) (rest : List (ℕ × ClientNode))
    → Entries.IsSorted ((id, node) ∷ rest)
    → first_of
        (if id == j then first_of o (dialled net (some node)) else o)
        (dialled net (Entries.lookup j rest))
      ≡ first_of o (dialled net (Entries.lookup j ((id, node) ∷ rest)))
unfolding Entries.lookup
get_cons net o id j node rest s = elim (Bool-cases (id == j)) [
  | inl same ↦
      let id_eq : id ≡ j = ground arith in
      let gone : Entries.lookup j rest ≡ none = rw (sym id_eq) (Entries.lookup_above id rest s.0) in
      rw (same, gone) (unfold dialled in first_of-none (first_of o (dialled net (some node))))
  | inr differ ↦ rw differ refl
]

get-ensure_nodes :
    (net : Network) (inner : Inner) (nodes : List (ℕ × ClientNode)) (j : ℕ)
    → Entries.IsSorted nodes
    → Map.get (ensure_nodes net inner nodes).0.workers j
      ≡ first_of (Map.get inner.workers j) (dialled net (Entries.lookup j nodes))
unfolding ensure_nodes first_of dialled Entries.lookup
get-ensure_nodes net inner [] j s = sym (first_of-none (Map.get inner.workers j))
get-ensure_nodes net inner ((id, node) ∷ rest) j s =
    get-ensure_nodes net (ensure_node net inner id node).0 rest j s.1
    ∙ (ap (λ o. first_of o (dialled net (Entries.lookup j rest)))
          (get-ensure_node net inner id j node)
        ∙ get_cons net (Map.get inner.workers j) id j node rest s)

contains_key-ensure_nodes :
    (net : Network) (inner : Inner) (nodes : List (ℕ × ClientNode)) (t : Text)
    → Map.contains_key (ensure_nodes net inner nodes).0.managers t
      ≡ (Map.contains_key inner.managers t || any_manager_at net t nodes)
unfolding ensure_nodes any_manager_at
contains_key-ensure_nodes net inner [] t = ground arith
contains_key-ensure_nodes net inner ((id, node) ∷ rest) t = ground (
  arith,
  contains_key-ensure_nodes net (ensure_node net inner id node).0 rest t,
  contains_key-ensure_node net inner id node t,
)

opened-append : (t : Text) (a b : List Text) → opened t (a ++ b) ≡ opened t a + opened t b
unfolding opened
opened-append t [] b = omega arith
opened-append t (endpoint ∷ a) b = omega (arith, opened-append t a b)

opened-ensure_nodes :
    (net : Network) (inner : Inner) (nodes : List (ℕ × ClientNode)) (t : Text)
    → opened t (ensure_nodes net inner nodes).1 + one_if (Map.contains_key inner.managers t)
      ≡ one_if (Map.contains_key (ensure_nodes net inner nodes).0.managers t)
unfolding ensure_nodes
opened-ensure_nodes net inner [] t = unfold opened in omega arith
opened-ensure_nodes net inner ((id, node) ∷ rest) t =
    let ensured = ensure_node net inner id node in
    omega (
      arith,
      opened-append t ensured.1 (ensure_nodes net ensured.0 rest).1,
      opened-ensure_nodes net ensured.0 rest t,
      opened-ensure_node net inner id node t,
    )

-- What `ensure_connections` leaves before the tasks that it spawns have run.
pub ensure_connections-spawned :
    (net : Network) (inner : Inner) (node_id : ℕ) (endpoint : Text)
    → ((ensure_connections net inner).0.state ≡ inner.state)
      × (Map.get (ensure_connections net inner).0.workers node_id
          ≡ first_of
              (Map.get inner.workers node_id)
              (dialled net (Map.get inner.state.nodes node_id)))
      × (Map.contains_key (ensure_connections net inner).0.managers endpoint ≡ (
          Map.contains_key inner.managers endpoint
          || any_manager_at net endpoint inner.state.nodes.entries))
      × (opened endpoint (ensure_connections net inner).1
            + one_if (Map.contains_key inner.managers endpoint)
          ≡ one_if (Map.contains_key (ensure_connections net inner).0.managers endpoint))
unfolding ensure_connections Map.get
ensure_connections-spawned net inner node_id endpoint =
    let nodes = inner.state.nodes in
    (
      state-ensure_nodes net inner nodes.entries,
      get-ensure_nodes net inner nodes.entries node_id nodes.sorted,
      contains_key-ensure_nodes net inner nodes.entries endpoint,
      opened-ensure_nodes net inner nodes.entries endpoint,
    )

get-worker :
    (net : Network) (inner : Inner) (node_id connection : ℕ)
    → (worker net inner node_id).1 ≡ ok connection
    → Map.get (worker net inner node_id).0.workers node_id ≡ some connection
unfolding worker
get-worker net inner node_id connection h = elim (Option-cases (Map.get inner.workers node_id)) [
  | inl e ↦ elim (Option-cases (Map.get inner.state.nodes node_id)) [
    | inl f ↦ absurd (ground (arith, e, f))
    | inr (node, f) ↦ elim (Option-cases (net.dial (net.endpoint node.endpoint))) [
      | inl g ↦ absurd (ground (arith, e, f, g))
      | inr (c, g) ↦
          ground (arith, e, f, g, Map.get-insert inner.workers node_id node_id c, ==_refl node_id)
    ]
  ]
  | inr (c, e) ↦ ground (arith, e)
]

worker_kept :
    (net : Network) (inner : Inner) (node_id connection : ℕ)
    → Map.get inner.workers node_id ≡ some connection
    → worker net inner node_id ≡ (inner, ok connection)
unfolding worker
worker_kept net inner node_id connection e = rw (worker, e) refl

-- A connection that a request has got is kept: the next request to the node gets the same one, and
-- dials nobody, whatever the network has become.
pub worker-worker :
    (net net' : Network) (inner : Inner) (node_id connection : ℕ)
    → (worker net inner node_id).1 ≡ ok connection
    → worker net' (worker net inner node_id).0 node_id
      ≡ ((worker net inner node_id).0, ok connection)
worker-worker net net' inner node_id connection h =
    worker_kept net' (worker net inner node_id).0 node_id connection
      (get-worker net inner node_id connection h)
