-- ===== src/Client/Requests/Reads.antt =====
-- What a get returns.
use rust_accelerator_no_sql.Map
use rust_accelerator_no_sql.Map.{Map, contains-keys}
use rust_accelerator_no_sql.Prelude.{
  ==_refl, unwrap_or, ℕ, zero, suc, ◌+◌, ◌≡◌, ◌⊎◌, inl, inr, refl, ap, ◌∙◌, arith, max, Option,
  none, some, true, false, Bool-cases, ◌<◌, ◌==◌, ◌≤◌, List, [],
}
use rust_accelerator_no_sql.Store.{
  RuntimeStore, Mutation, Key, put_mutation, delete_mutation, is_expired, write,
}
use rust_accelerator_no_sql.Store
use rust_accelerator_no_sql.Store.Lww.{stored}
use rust_accelerator_no_sql.Store.Expiry.{live, get_versioned_lem}
use rust_accelerator_no_sql.Worker.Requests.{handle_request, put_parts, respond}
use rust_accelerator_no_sql.Wire.{
  Text, ClientRequest, WireRecord, WirePartition, request_type_put, request_type_delete,
}
use rust_accelerator_no_sql.Client.{
  visible, decode, ok, request, Topology, read_targets, mapping_of, partition,
}
use rust_accelerator_no_sql.Client.Requests.{
  Attempt, get, get_from, get_request, Env, answered, refused, unanswered, Stores,
  request_with_retry, request_attempts,
}
use rust_accelerator_no_sql.Client.Requests.Retries.{Writes}

-- The mutation that a put of a client stores.
abbrev pub put_of : List ℕ → ℕ → Option ℕ → Mutation
put_of value creation_time expiration = put_mutation (record {
  value = value;
  expiration_time_ms = unwrap_or expiration 0;
  creation_time_ms = creation_time;
})

pub put-Writes :
    (key : ℕ) (value : List ℕ) (creation_time : ℕ) (expiration : Option ℕ)
    → Writes
        (request request_type_put key (some value) (some creation_time) expiration)
        (put_of value creation_time expiration)
unfolding handle_request put_parts request Store.put
put-Writes key value creation_time expiration store id now = refl

pub delete-Writes :
    (key deletion_time : ℕ)
    → Writes
        (request request_type_delete key none (some deletion_time) none)
        (delete_mutation deletion_time)
unfolding handle_request put_parts request Store.delete_at
delete-Writes key deletion_time store id now = refl

-- The value of a mutation, as a client sees it.
abbrev pub value_of : Mutation → Option (List ℕ)
value_of (put_mutation r) = some r.value
value_of (delete_mutation t) = none

abbrev record_of : ℕ → Mutation → WireRecord
record_of key (put_mutation r) = record {
  key = key;
  value = r.value;
  ttl = r.expiration_time_ms;
  creation_time = r.creation_time_ms;
  deleted = false;
}
record_of key (delete_mutation t) = record {
  key = 0;
  value = [];
  ttl = 0;
  creation_time = t;
  deleted = true;
}

decode-respond :
    (req : ClientRequest) (m : Mutation)
    → decode (respond req (some m)) ≡ some (record_of req.key m)
unfolding decode respond
decode-respond req (put_mutation r) = refl
decode-respond req (delete_mutation t) = refl

visible-record_of : (key : ℕ) (m : Mutation) → visible (record_of key m) ≡ value_of m
unfolding visible
visible-record_of key (put_mutation r) = refl
visible-record_of key (delete_mutation t) = refl

handle_get :
    (store : RuntimeStore) (key id now : ℕ) (m : Mutation)
    → stored store key ≡ some m
    → is_expired m now ≡ false
    → (stored (handle_request store (record (get_request key) { id = id }) now).0 key ≡ some m)
      × (decode (handle_request store (record (get_request key) { id = id }) now).1
          ≡ some (record_of key m))
unfolding handle_request put_parts request live
handle_get store key id now m h fresh =
    let seen : live now (stored store key) ≡ some m = rw (h, live) (rw fresh refl) in
    (
      (get_versioned_lem store key key now).1 ∙ rw (==_refl key) seen,
      ap (λ o. decode (respond (record (get_request key) { id = id }) o))
            ((get_versioned_lem store key key now).0 ∙ seen)
          ∙ decode-respond (record (get_request key) { id = id }) m,
    )

pub Attempt-cases : (a : Attempt) → (a ≡ refused) ⊎ ((a ≡ unanswered) ⊎ (a ≡ answered))
Attempt-cases refused = inl refl
Attempt-cases unanswered = inr (inl refl)
Attempt-cases answered = inr (inr refl)

-- An attempt that is not answered is not the one that is.
pub later_attempt :
    (env : Env) (i k : ℕ)
    → i ≤ k
    → env.attempt k ≡ answered
    → ¬ (env.attempt i ≡ answered)
    → suc i ≤ k
later_attempt env i k lo a other = elim (Bool-cases (i == k)) [
  | inl same ↦ let e : i ≡ k = ground (arith, same) in absurd (other (ap env.attempt e ∙ a))
  | inr differ ↦ ground (arith, differ)
]

-- A read of a record that has not expired at any attempt gets it, if one of the attempts is answered.
get_attempts :
    (count i k : ℕ) (env : Env) (node_id : Text) (store : RuntimeStore) (key : ℕ) (m : Mutation)
    → stored store key ≡ some m
    → ((j : ℕ) → j ≤ k → is_expired m (env.now j) ≡ false)
    → i ≤ k
    → k < i + count
    → env.attempt k ≡ answered
    → (request_attempts count i env node_id store (get_request key)).1 ≡ ok (some (record_of key m))
unfolding request_attempts
get_attempts zero i k env node_id store key m h fresh lo hi a = absurd (omega arith)
get_attempts (suc count) i k env node_id store key m h fresh lo hi a =
    let handled =
      handle_request store (record (get_request key) { id = env.request_id i }) (env.now i) in
    let seen = handle_get store key (env.request_id i) (env.now i) m h (fresh i lo) in
    elim (Attempt-cases (env.attempt i)) [
      | inl e ↦
          rw (e, request_attempts)
            (get_attempts count (suc i) k env node_id store key m h fresh
              (later_attempt env i k lo a (λ b. absurd (ground (arith, e, b)))) (omega arith) a)
      | inr (inl e) ↦
          rw (e, request_attempts)
            (get_attempts count (suc i) k env node_id handled.0 key m seen.0 fresh
              (later_attempt env i k lo a (λ b. absurd (ground (arith, e, b)))) (omega arith) a)
      | inr (inr e) ↦ rw (e, request_attempts) (ap ok seen.1)
    ]

get_from_primary :
    (primary : Text) (fallback : List Text) (retry_attempts k : ℕ) (envs : Text → Env)
    (stores : Stores) (key : ℕ) (m : Mutation)
    → stored (stores primary) key ≡ some m
    → ((j : ℕ) → j ≤ k → is_expired m ((envs primary).now j) ≡ false)
    → k < max retry_attempts 1
    → (envs primary).attempt k ≡ answered
    → (get_from primary fallback retry_attempts envs stores key).1 ≡ ok (value_of m)
unfolding get_from request_with_retry
get_from_primary primary fallback retry_attempts k envs stores key m h fresh below a =
    let asked =
      get_attempts (max retry_attempts 1) 0 k (envs primary) primary (stores primary) key m h fresh
        (omega arith) (omega arith) a in
    rw (asked, get_from) (ap ok (visible-record_of key m))

module _ (topology : Topology) (key : ℕ) (current : WirePartition)
    (mapped : Map.get topology.mapping (partition key) ≡ some current) where
  pub mapping_lem : mapping_of topology (partition key) ≡ ok current
  unfolding mapping_of
  mapping_lem = rw (mapped, mapping_of) refl

  pub read_primary :
      (retry_attempts k : ℕ) (envs : Text → Env) (stores : Stores) (m : Mutation)
      → stored (stores current.master) key ≡ some m
      → ((j : ℕ) → j ≤ k → is_expired m ((envs current.master).now j) ≡ false)
      → k < max retry_attempts 1
      → (envs current.master).attempt k ≡ answered
      → (get topology retry_attempts envs stores key).1 ≡ ok (value_of m)
  unfolding get read_targets
  read_primary retry_attempts k envs stores m h fresh below a =
      rw (mapping_lem, get)
        (get_from_primary current.master _ retry_attempts k envs stores key m h fresh below a)
