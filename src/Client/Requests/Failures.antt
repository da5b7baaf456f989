-- ===== src/Client/Requests/Failures.antt =====
-- What a put that fails may have done, and the expiration that a put asks for.
use rust_accelerator_no_sql.Map
use rust_accelerator_no_sql.Prelude.{
  zero, ==_refl, suc, ◌||◌, true, ◌==◌, contains, max, ◌&&◌, u64_mod, ltb, Bool-cases, unwrap_or,
  ◌≤◌, none, ◌+◌, ◌^◌, leb, ◌<◌, false, Bool, ap, sym, ◌∙◌, refl, arith, inl, Option-cases, inr,
  some, Option, ◌⊎◌, ◌≡◌, ℕ, List, ◌∷◌, [],
}
use rust_accelerator_no_sql.Wire.{request_type_put, WirePartition, ClientRequest, Text}
use rust_accelerator_no_sql.Client.{
  ttl_overflow, expiration_time, partition, request, write_targets, worker_request, ok,
  partition_unavailable, err, Error, Topology, Result, mapping_of,
}
use rust_accelerator_no_sql.Client.Requests.{
  with_store, answered, request_with_retry, request_attempts, put, write_all, Stores, request_each,
  first_error, Env,
}
use rust_accelerator_no_sql.Store.{RuntimeStore, is_expired, Mutation}
use rust_accelerator_no_sql.Client.Requests.Retries.{IsWritten}
use rust_accelerator_no_sql.Store.Lww.{stored}
use rust_accelerator_no_sql.Client.Requests.Reads.{Attempt-cases, put-Writes, put_of}
use rust_accelerator_no_sql.Client.Requests.ReadYourWrites.{
  contains_owners, write_all-IsWritten, write_all_lem,
}
use rust_accelerator_no_sql.Client.Requests.Liveness.{request_attempts_answered}
use rust_accelerator_no_sql.Worker.Requests.{handle_request}

pub Result-cases :
    {A : Type 0} (r : Result A) → ((e : Error) × (r ≡ err e)) ⊎ ((a : A) × (r ≡ ok a))
Result-cases (ok a) = inr (a, refl)
Result-cases (err e) = inl (e, refl)

err-injective {ℓ} : {A : Type ℓ} {e e' : Error} → ◌≡◌ {A = Result A} (err e) (err e') → e ≡ e'
err-injective h = ground (arith, h)

-- None of the attempts at the node is answered.
abbrev pub Silent : ℕ → (Text → Env) → Text → Type 0
Silent retry_attempts envs node_id =
    (k : ℕ) → k < max retry_attempts 1 → ¬ ((envs node_id).attempt k ≡ answered)

request_attempts-err :
    (count i : ℕ) (env : Env) (node_id : Text) (store : RuntimeStore) (req : ClientRequest)
    (e : Error)
    → (request_attempts count i env node_id store req).1 ≡ err e
    → e ≡ worker_request node_id
unfolding request_attempts
request_attempts-err zero i env node_id store req e h = ground (arith, h)
request_attempts-err (suc count) i env node_id store req e h =
    let handled = handle_request store (record req { id = env.request_id i }) (env.now i) in
    elim (Attempt-cases (env.attempt i)) [
      | inl a ↦
          let step : request_attempts (suc count) i env node_id store req
              ≡ request_attempts count (suc i) env node_id store req =
            rw (a, request_attempts) refl in
          request_attempts-err count (suc i) env node_id store req e (sym (ap (λ r. r.1) step) ∙ h)
      | inr (inl a) ↦
          let step : request_attempts (suc count) i env node_id store req
              ≡ request_attempts count (suc i) env node_id handled.0 req =
            rw (a, request_attempts) refl in
          request_attempts-err count (suc i) env node_id handled.0 req e
            (sym (ap (λ r. r.1) step) ∙ h)
      | inr (inr a) ↦
          let (r, f) =
            request_attempts_answered (suc count) i i env node_id store req (omega arith)
              (omega arith) a in
          absurd (ground (arith, f, h))
    ]

-- A worker that gives no reply has answered no attempt.
request_with_retry-err :
    (retry_attempts : ℕ) (envs : Text → Env) (node_id : Text) (store : RuntimeStore)
    (req : ClientRequest) (e : Error)
    → (request_with_retry retry_attempts (envs node_id) node_id store req).1 ≡ err e
    → (e ≡ worker_request node_id) × Silent retry_attempts envs node_id
unfolding request_with_retry
request_with_retry-err retry_attempts envs node_id store req e h = (
  request_attempts-err (max retry_attempts 1) 0 (envs node_id) node_id store req e h,
  λ k below a.
      let (r, f) =
        request_attempts_answered (max retry_attempts 1) 0 k (envs node_id) node_id store req
          (omega arith) (omega arith) a in
      absurd (ground (arith, f, h)),
)

-- The error of a write to several nodes is that of one of them, which has answered no attempt.
request_each-err :
    (ids : List Text) (retry_attempts : ℕ) (envs : Text → Env) (stores : Stores)
    (req : ClientRequest) (e : Error)
    → first_error (request_each ids retry_attempts envs stores req).1 ≡ err e
    → (node_id : Text) × (contains ids node_id ≡ true)
      × (e ≡ worker_request node_id)
      × Silent retry_attempts envs node_id
unfolding request_each first_error
request_each-err [] retry_attempts envs stores req e h = absurd (ground (arith, h))
request_each-err (node_id ∷ ids) retry_attempts envs stores req e h =
    let asked = request_with_retry retry_attempts (envs node_id) node_id (stores node_id) req in
    let stores' = with_store stores node_id asked.0 in
    let others = (request_each ids retry_attempts envs stores' req).1 in
    elim (Result-cases asked.1) [
      | inl (e', f) ↦
          let g : first_error (asked.1 ∷ others) ≡ err e' = rw (f, first_error) refl in
          let (named, silent) =
            request_with_retry-err retry_attempts envs node_id (stores node_id) req e' f in
          (node_id, ground (arith, ==_refl node_id), err-injective (sym h ∙ g) ∙ named, silent)
      | inr (r, f) ↦
          let g : first_error (asked.1 ∷ others) ≡ first_error others = rw (f, first_error) refl in
          let (other, listed, named, silent) =
            request_each-err ids retry_attempts envs stores' req e (sym g ∙ h) in
          (other, ground (arith, listed), named, silent)
    ]

mapping_of-cases :
    (topology : Topology) (partition_id : ℕ)
    → ((Map.get topology.mapping partition_id ≡ none)
        × (mapping_of topology partition_id ≡ err (partition_unavailable partition_id)))
      ⊎ ((current : WirePartition) × (Map.get topology.mapping partition_id ≡ some current))
unfolding mapping_of
mapping_of-cases topology partition_id =
    elim (Option-cases (Map.get topology.mapping partition_id)) [
      | inl e ↦ inl (e, rw (e, mapping_of) refl)
      | inr (current, e) ↦ inr (current, e)
    ]

-- A write to an unmapped partition changes nothing.
write_all-unmapped :
    (topology : Topology) (retry_attempts : ℕ) (envs : Text → Env) (stores : Stores)
    (req : ClientRequest)
    → mapping_of topology (partition req.key) ≡ err (partition_unavailable (partition req.key))
    → write_all topology retry_attempts envs stores req
      ≡ (stores, err (partition_unavailable (partition req.key)))
unfolding write_all write_targets
write_all-unmapped topology retry_attempts envs stores req h = rw (h, write_all) refl

-- What a failed put leaves: nothing changed, or each node has its old record of the key or the newer
-- of it and the put's.
abbrev pub IsPartial : Stores → ℕ → Mutation → Stores → Type 0
IsPartial stores key m stores' =
    (j : Text) → IsWritten (stored (stores j) key) m (stored (stores' j) key)

-- The node is the master of the key's partition, or one of its replicas.
abbrev pub Owner : Topology → ℕ → Text → Type 0
Owner topology key node_id =
    (current : WirePartition) × (Map.get topology.mapping (partition key) ≡ some current)
    × ((current.master == node_id || contains current.replicas node_id) ≡ true)

-- The cases of a failed put: its TTL or its partition, or a worker that answers nothing.
abbrev pub FailedPut :
    Topology → ℕ → (Text → Env) → Stores → ℕ → List ℕ → ℕ → Option ℕ → Error → Type 0
FailedPut topology retry_attempts envs stores key value creation_time ttl e =
    (((put topology retry_attempts envs stores key value creation_time ttl).0 ≡ stores)
      × ((expiration_time creation_time ttl ≡ err e)
          ⊎ ((Map.get topology.mapping (partition key) ≡ none)
              × (e ≡ partition_unavailable (partition key)))))
    ⊎ ((node_id : Text) × (e ≡ worker_request node_id)
        × Owner topology key node_id
        × Silent retry_attempts envs node_id
        × ((expiration : Option ℕ) × (expiration_time creation_time ttl ≡ ok expiration)
            × IsPartial stores key (put_of value creation_time expiration)
                (put topology retry_attempts envs stores key value creation_time ttl).0))

write_all-mapped :
    (topology : Topology) (retry_attempts : ℕ) (envs : Text → Env) (stores : Stores)
    (req : ClientRequest) (current : WirePartition) (e : Error)
    → Map.get topology.mapping (partition req.key) ≡ some current
    → (write_all topology retry_attempts envs stores req).1 ≡ err e
    → (node_id : Text) × (e ≡ worker_request node_id)
      × Owner topology req.key node_id
      × Silent retry_attempts envs node_id
write_all-mapped topology retry_attempts envs stores req current e mapped h =
    let u = write_all_lem topology req current mapped retry_attempts envs stores in
    let (node_id, listed, named, silent) =
      request_each-err _ retry_attempts envs stores req e (sym (ap (λ r. r.1) u) ∙ h) in
    (node_id, named, (current, mapped, sym (contains_owners current node_id) ∙ listed), silent)

-- A put that fails either changed no store, and then its TTL was too large or its partition has no
-- mapping, or names an owner of the partition that answered none of the attempts that the client
-- makes; then every node, whether it replied or not, has its old record of the key or the newer of it
-- and the put's, never anything else.
pub put_fails :
    (topology : Topology) (retry_attempts : ℕ) (envs : Text → Env) (stores : Stores) (key : ℕ)
    (value : List ℕ) (creation_time : ℕ) (ttl : Option ℕ) (e : Error)
    → (put topology retry_attempts envs stores key value creation_time ttl).1 ≡ err e
    → FailedPut topology retry_attempts envs stores key value creation_time ttl e
unfolding put request
put_fails topology retry_attempts envs stores key value creation_time ttl e h =
    elim (Result-cases (expiration_time creation_time ttl)) [
      | inl (e', f) ↦
          let g : put topology retry_attempts envs stores key value creation_time ttl
              ≡ (stores, err e') =
            rw (f, put) refl in
          inl (ap (λ r. r.0) g, inl (f ∙ ap err (err-injective (sym (ap (λ r. r.1) g) ∙ h))))
      | inr (expiration, f) ↦
          let req = request request_type_put key (some value) (some creation_time) expiration in
          let m = put_of value creation_time expiration in
          let w = put-Writes key value creation_time expiration in
          let g : put topology retry_attempts envs stores key value creation_time ttl
              ≡ write_all topology retry_attempts envs stores req =
            rw (f, put) refl in
          let h' = sym (ap (λ r. r.1) g) ∙ h in
          elim (mapping_of-cases topology (partition key)) [
            | inl (unmapped, refusal) ↦
                let u = write_all-unmapped topology retry_attempts envs stores req refusal in
                let named = sym (err-injective (sym (ap (λ r. r.1) u) ∙ h')) in
                inl (ap (λ r. r.0) (g ∙ u), inr (unmapped, named))
            | inr (current, mapped) ↦
                let (node_id, named, owner, silent) =
                  write_all-mapped topology retry_attempts envs stores req current e mapped h' in
                let partial : IsPartial stores key m
                    (put topology retry_attempts envs stores key value creation_time ttl).0 =
                  λ j. rw g (
                    write_all-IsWritten topology req current mapped retry_attempts envs stores m w
                      j) in
                inr (node_id, named, owner, silent, (expiration, f, partial))
          ]
    ]

-- Whether a put with this TTL has expired.
abbrev pub expired_by : ℕ → Option ℕ → ℕ → Bool
expired_by creation_time none now = false
expired_by creation_time (some ttl) now = leb (creation_time + ttl) now

-- For a creation time that is not 0 and below 2 ^ 64: a TTL is refused if and only if the sum of the
-- two is 2 ^ 64 or more; otherwise the expiration time that the put asks for is below 2 ^ 64, and
-- the stored record expires when its TTL has passed, and never if it has none.
pub expiration_time_lem :
    (creation_time : ℕ) (ttl : Option ℕ) (value : List ℕ)
    → 0 < creation_time
    → creation_time < 2 ^ 64
    → ((expiration_time creation_time ttl ≡ err ttl_overflow)
        × (2 ^ 64 ≤ creation_time + unwrap_or ttl 0))
      ⊎ ((expiration : Option ℕ) × (expiration_time creation_time ttl ≡ ok expiration)
          × (unwrap_or expiration 0 < 2 ^ 64)
          × ((now : ℕ)
              → is_expired (put_of value creation_time expiration) now
                ≡ expired_by creation_time ttl now))
unfolding expiration_time is_expired
expiration_time_lem c none value pos below = inr (none, refl, omega arith, λ now. refl)
expiration_time_lem c (some t) value pos below =
    elim (Bool-cases (ltb t u64_mod && ltb (c + t) u64_mod)) [
      | inl fits ↦ inr (
        some (c + t),
        rw (fits, expiration_time) refl,
        ground (arith, fits),
        λ now. ground (arith, pos),
      )
      | inr over ↦ inl (rw (over, expiration_time) refl, ground (arith, over))
    ]
