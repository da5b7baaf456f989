-- ===== src/Client/Requests/Agreement.antt =====
-- What the owners of a key hold after a write to all of them.
use rust_accelerator_no_sql.Prelude.{
  subst, ℕ, ◌≡◌, inl, inr, refl, sym, ap, ◌∙◌, arith, max, Option, some, true, Bool-cases, ◌==◌,
  List, [], ◌∷◌, contains,
}
use rust_accelerator_no_sql.Store.{RuntimeStore, Mutation}
use rust_accelerator_no_sql.Store.Lww.{stored, newer}
use rust_accelerator_no_sql.Wire.{Text, ClientRequest}
use rust_accelerator_no_sql.Client.{ok}
use rust_accelerator_no_sql.Client.Requests.{
  Env, Reply, Stores, with_store, request_each, request_with_retry, first_error,
}
use rust_accelerator_no_sql.Client.Requests.Retries.{
  Writes, IsWritten, Outcome, written, uncertain, newer_idem, request_attempts_outcome,
}

module _ (retry_attempts : ℕ) (envs : Text → Env) (req : ClientRequest) (m : Mutation)
    (w : Writes req m) where
  pub request_with_retry_outcome :
      (node_id : Text) (store : RuntimeStore) (old : Option Mutation)
      → IsWritten old m (stored store req.key)
      → Outcome old m
          (stored (request_with_retry retry_attempts (envs node_id) node_id store req).0 req.key)
          (request_with_retry retry_attempts (envs node_id) node_id store req).1
  unfolding request_with_retry
  request_with_retry_outcome node_id store old h =
      request_attempts_outcome (max retry_attempts 1) 0 (envs node_id) node_id store req m old w h

  Outcome-IsWritten :
      {old now : Option Mutation} {reply : Reply} → Outcome old m now reply → IsWritten old m now
  Outcome-IsWritten (written e) = inr e
  Outcome-IsWritten (uncertain node_id h) = h

  Outcome-ok :
      {old now : Option Mutation} {reply : Reply} (replies : List Reply)
      → Outcome old m now reply
      → first_error (reply ∷ replies) ≡ ok tt
      → (now ≡ some (newer old m)) × (first_error replies ≡ ok tt)
  unfolding first_error
  Outcome-ok replies (written e) h = (e, h)
  Outcome-ok replies (uncertain node_id e) h = absurd (ground arith)

  stored-with_store :
      (stores : Stores) (node_id j : Text) (store : RuntimeStore) (old : Option Mutation)
      → IsWritten old m (stored (stores j) req.key)
      → (node_id ≡ j → IsWritten old m (stored store req.key))
      → IsWritten old m (stored (with_store stores node_id store j) req.key)
  unfolding with_store
  stored-with_store stores node_id j store old h k = elim (Bool-cases (node_id == j)) [
    | inl same ↦ rw same (k (ground (arith, same)))
    | inr differ ↦ rw differ h
  ]

  -- Whether or not the requests are answered, every node has its old record of the key or the newer of
  -- it and the request's.
  pub request_each-IsWritten :
      (ids : List Text) (stores : Stores) (j : Text) (old : Option Mutation)
      → IsWritten old m (stored (stores j) req.key)
      → IsWritten old m (stored ((request_each ids retry_attempts envs stores req).0 j) req.key)
  unfolding request_each
  request_each-IsWritten [] stores j old h = h
  request_each-IsWritten (node_id ∷ ids) stores j old h =
      let store =
        (request_with_retry retry_attempts (envs node_id) node_id (stores node_id) req).0 in
      request_each-IsWritten ids (with_store stores node_id store) j old (
        stored-with_store stores node_id j store old h (λ e. Outcome-IsWritten (
          request_with_retry_outcome node_id (stores node_id) old
            (subst (λ i. IsWritten old m (stored (stores i) req.key)) (sym e) h))))

  stays_written :
      (ids : List Text) (stores : Stores) (j : Text) (old : Option Mutation)
      → stored (stores j) req.key ≡ some (newer old m)
      → stored ((request_each ids retry_attempts envs stores req).0 j) req.key ≡ some (newer old m)
  stays_written ids stores j old h =
      elim (request_each-IsWritten ids stores j (some (newer old m)) (inl h)) [
        | inl same ↦ same
        | inr again ↦ again ∙ ap some (newer_idem old m)
      ]

  at_node :
      (stores : Stores) (node_id j : Text) (store : RuntimeStore)
      → (node_id == j) ≡ true
      → stored (with_store stores node_id store j) req.key ≡ stored store req.key
  unfolding with_store
  at_node stores node_id j store same = rw same refl

  -- If every node of the list replies, each of them holds the newer of its old record and the
  -- request's.
  pub request_each-written :
      (ids : List Text) (stores : Stores) (j : Text) (old : Option Mutation)
      → contains ids j ≡ true
      → first_error (request_each ids retry_attempts envs stores req).1 ≡ ok tt
      → IsWritten old m (stored (stores j) req.key)
      → stored ((request_each ids retry_attempts envs stores req).0 j) req.key ≡ some (newer old m)
  unfolding request_each
  request_each-written [] stores j old c done h = absurd (ground arith)
  request_each-written (node_id ∷ ids) stores j old c done h =
      let asked = request_with_retry retry_attempts (envs node_id) node_id (stores node_id) req in
      let stores' = with_store stores node_id asked.0 in
      let first =
        request_with_retry_outcome node_id (stores node_id) (stored (stores node_id) req.key)
          (inl refl) in
      let later = (request_each ids retry_attempts envs stores' req).1 in
      elim (Bool-cases (node_id == j)) [
        | inl same ↦
            let e : node_id ≡ j = ground (arith, same) in
            let here =
              request_with_retry_outcome node_id (stores node_id) old
                (subst (λ i. IsWritten old m (stored (stores i) req.key)) (sym e) h) in
            stays_written ids stores' j old
              (at_node stores node_id j asked.0 same ∙ (Outcome-ok later here done).0)
        | inr differ ↦
            request_each-written ids stores' j old (ground (arith, differ, c))
              (Outcome-ok later first done).1
              (stored-with_store stores node_id j asked.0 old h
                (λ e. absurd (ground (arith, differ, e))))
      ]
