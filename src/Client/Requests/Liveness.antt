-- ===== src/Client/Requests/Liveness.antt =====
-- The requests that succeed.
use rust_accelerator_no_sql.Map
use rust_accelerator_no_sql.Client.{expiration_time, partition, decode, ok, request, Topology}
use rust_accelerator_no_sql.Prelude.{
  sym, ◌∙◌, ap, ◌||◌, ◌==◌, some, ==_refl, ◌∷◌, [], refl, zero, inr, inl, suc, arith, true, ◌+◌,
  Option, contains, ◌≡◌, ◌≤◌, max, ◌<◌, ℕ, List,
}
use rust_accelerator_no_sql.Client.Requests.{
  answered, Stores, first_error, put, request_with_retry, Env, request_each, request_attempts,
}
use rust_accelerator_no_sql.Wire.{request_type_put, WireRecord, ClientRequest, WirePartition, Text}
use rust_accelerator_no_sql.Store.{RuntimeStore}
use rust_accelerator_no_sql.Worker.Requests.{handle_request}
use rust_accelerator_no_sql.Client.Requests.Reads.{later_attempt, Attempt-cases}
use rust_accelerator_no_sql.Map.Set.{from_list, add}
use rust_accelerator_no_sql.Client.Requests.ReadYourWrites.{contains_owners, write_all_lem}

-- The request gets a reply, if one of its attempts is answered.
pub request_attempts_answered :
    (count i k : ℕ) (env : Env) (node_id : Text) (store : RuntimeStore) (req : ClientRequest)
    → i ≤ k
    → k < i + count
    → env.attempt k ≡ answered
    → (r : Option WireRecord) × ((request_attempts count i env node_id store req).1 ≡ ok r)
unfolding request_attempts
request_attempts_answered zero i k env node_id store req lo hi a = absurd (omega arith)
request_attempts_answered (suc count) i k env node_id store req lo hi a =
    let handled = handle_request store (record req { id = env.request_id i }) (env.now i) in
    elim (Attempt-cases (env.attempt i)) [
      | inl e ↦
          rw (e, request_attempts)
            (request_attempts_answered count (suc i) k env node_id store req
              (later_attempt env i k lo a (λ b. absurd (ground (arith, e, b)))) (omega arith) a)
      | inr (inl e) ↦
          rw (e, request_attempts)
            (request_attempts_answered count (suc i) k env node_id handled.0 req
              (later_attempt env i k lo a (λ b. absurd (ground (arith, e, b)))) (omega arith) a)
      | inr (inr e) ↦ rw (e, request_attempts) (decode handled.1, refl)
    ]

-- One of the attempts at the node is answered.
abbrev pub Answers : ℕ → (Text → Env) → Text → Type 0
Answers retry_attempts envs j =
    (k : ℕ) × (k < max retry_attempts 1) × ((envs j).attempt k ≡ answered)

request_each-answered :
    (ids : List Text) (retry_attempts : ℕ) (envs : Text → Env) (stores : Stores)
    (req : ClientRequest)
    → ((j : Text) → contains ids j ≡ true → Answers retry_attempts envs j)
    → first_error (request_each ids retry_attempts envs stores req).1 ≡ ok tt
unfolding request_each request_with_retry first_error
request_each-answered [] retry_attempts envs stores req h = refl
request_each-answered (node_id ∷ ids) retry_attempts envs stores req h =
    let (k, below, a) = h node_id (ground (arith, ==_refl node_id)) in
    let (r, e) =
      request_attempts_answered (max retry_attempts 1) 0 k (envs node_id) node_id (stores node_id)
        req (omega arith) (omega arith) a in
    rw (e, first_error)
      (request_each-answered ids retry_attempts envs _ req (λ j c. h j (ground (arith, c))))

-- A put succeeds if its TTL fits, its partition is mapped, and one of the attempts at each of the
-- partition's owners, its master and its replicas, is answered.
pub put_succeeds :
    (topology : Topology) (current : WirePartition) (retry_attempts : ℕ) (envs : Text → Env)
    (stores : Stores) (key : ℕ) (value : List ℕ) (creation_time : ℕ) (ttl expiration : Option ℕ)
    → Map.get topology.mapping (partition key) ≡ some current
    → expiration_time creation_time ttl ≡ ok expiration
    → ((j : Text)
        → (current.master == j || contains current.replicas j) ≡ true
        → Answers retry_attempts envs j)
    → (put topology retry_attempts envs stores key value creation_time ttl).1 ≡ ok tt
unfolding request put
put_succeeds topology current retry_attempts envs stores key value creation_time ttl expiration
      mapped fits h =
    let req = request request_type_put key (some value) (some creation_time) expiration in
    let targets = add (from_list current.replicas) current.master in
    rw (fits, put)
      (ap (λ r. r.1) (write_all_lem topology req current mapped retry_attempts envs stores)
        ∙ request_each-answered (Map.keys targets) retry_attempts envs stores req
            (λ j c. h j (sym (contains_owners current j) ∙ c)))
