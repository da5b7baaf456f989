-- ===== src/Client/States.antt =====
-- The topology of a client as the states of the cluster arrive, from the managers that it listens to.
use rust_accelerator_no_sql.Prelude.{
  refl, Option-cases, Bool-cases, sym, false, ◌∙◌, true, arith, inl, ◌≡◌, ◌⊎◌, inr, ◌<◌, List, ◌∷◌,
  [],
}
use rust_accelerator_no_sql.Client.{is_stale, apply_state, apply_nodes, Topology}
use rust_accelerator_no_sql.Wire.{WireClusterState, WireNode}

-- A later topology: of a later epoch, or of the same epoch with the same leader, if it was known.
abbrev pub IsLater : Topology → Topology → Type 0
IsLater t t' =
    (t.epoch < t'.epoch)
    ⊎ ((t.epoch ≡ t'.epoch) × ((t.leader_id ≡ 0) ⊎ (t'.leader_id ≡ t.leader_id)))

IsLater-refl : (t : Topology) → IsLater t t
IsLater-refl t = inr (refl, inr refl)

IsLater-trans : (t t' t'' : Topology) → IsLater t t' → IsLater t' t'' → IsLater t t''
IsLater-trans t t' t'' (inl a) (inl b) = inl (omega arith)
IsLater-trans t t' t'' (inl a) (inr b) = inl (let e = b.0 in omega arith)
IsLater-trans t t' t'' (inr a) (inl b) = inl (let e = a.0 in omega arith)
IsLater-trans t t' t'' (inr (e, inl a)) (inr (f, b)) = inr (e ∙ f, inl a)
IsLater-trans t t' t'' (inr (e, inr a)) (inr (f, inl b)) = inr (e ∙ f, inl (sym a ∙ b))
IsLater-trans t t' t'' (inr (e, inr a)) (inr (f, inr b)) = inr (e ∙ f, inr (b ∙ a))

-- What the rest of `apply_state` leaves of the epoch and the leader that it has set.
apply_nodes_keeps :
    (t : Topology) (nodes : List WireNode)
    → ((apply_nodes t nodes).epoch ≡ t.epoch) × ((apply_nodes t nodes).leader_id ≡ t.leader_id)
unfolding apply_nodes
apply_nodes_keeps t [] = (refl, refl)
apply_nodes_keeps t (node ∷ rest) = (refl, refl)

apply_state_cases :
    (t : Topology) (s : WireClusterState)
    → ((is_stale t s ≡ true) × (apply_state t s ≡ t))
      ⊎ ((is_stale t s ≡ false)
          × (((apply_state t s).epoch ≡ s.epoch) × ((apply_state t s).leader_id ≡ s.leader_id)))
unfolding apply_state
apply_state_cases t s = elim (Bool-cases (is_stale t s)) [
  | inl stale ↦ inl (stale, rw stale refl)
  | inr fresh ↦ elim (Option-cases s.partitions) [
    | inl e ↦ inr (fresh, rw (fresh, e, apply_state) (apply_nodes_keeps _ s.nodes))
    | inr (p, e) ↦ inr (fresh, rw (fresh, e, apply_state) (apply_nodes_keeps _ s.nodes))
  ]
]

fresh_state :
    (t : Topology) (s : WireClusterState)
    → is_stale t s ≡ false
    → (t.epoch < s.epoch)
      ⊎ ((t.epoch ≡ s.epoch) × ((t.leader_id ≡ 0) ⊎ (s.leader_id ≡ t.leader_id)))
unfolding is_stale
fresh_state t s h = ground (arith, h)

apply_state-IsLater : (t : Topology) (s : WireClusterState) → IsLater t (apply_state t s)
apply_state-IsLater t s = elim (apply_state_cases t s) [
  | inl (stale, e) ↦ rw e (IsLater-refl t)
  | inr (fresh, (e, l)) ↦ rw (e, l) (fresh_state t s fresh)
]

-- The topology after a sequence of states.
abbrev pub apply_states : Topology → List WireClusterState → Topology
apply_states t [] = t
apply_states t (s ∷ rest) = apply_states (apply_state t s) rest

-- Whatever states arrive, the topology's epoch never decreases, and within an epoch a known leader is
-- never replaced by another.
pub apply_states-IsLater :
    (t : Topology) (states : List WireClusterState) → IsLater t (apply_states t states)
apply_states-IsLater t [] = IsLater-refl t
apply_states-IsLater t (s ∷ rest) =
    IsLater-trans t (apply_state t s) (apply_states (apply_state t s) rest)
      (apply_state-IsLater t s) (apply_states-IsLater (apply_state t s) rest)
