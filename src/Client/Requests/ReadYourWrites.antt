-- ===== src/Client/Requests/ReadYourWrites.antt =====
-- What a client reads after it has written: the write of `put` and `delete` at the master, and the
-- get that follows.
use rust_accelerator_no_sql.Map
use rust_accelerator_no_sql.Map.{Map, contains-keys}
use rust_accelerator_no_sql.Map.Set.{add, from_list, contains_key-add, contains_key-from_list}
use rust_accelerator_no_sql.Prelude.{
  ◌≤◌, ==_refl, ◌||◌, ℕ, ◌≡◌, inl, refl, sym, ap, ◌∙◌, max, Option, none, some, true, false, ◌<◌,
  ◌==◌, List, contains,
}
use rust_accelerator_no_sql.Store.{Mutation, delete_mutation, is_expired}
use rust_accelerator_no_sql.Store.Lww.{stored, newer}
use rust_accelerator_no_sql.Wire.{
  Text, ClientRequest, WirePartition, request_type_put, request_type_delete,
}
use rust_accelerator_no_sql.Client.{
  ok, request, Topology, write_targets, partition, expiration_time,
}
use rust_accelerator_no_sql.Client.Requests.{
  put, delete, get, Env, answered, Stores, request_each, first_error, write_all,
}
use rust_accelerator_no_sql.Client.Requests.Retries.{Writes, IsWritten}
use rust_accelerator_no_sql.Client.Requests.Agreement.{request_each-written, request_each-IsWritten}
use rust_accelerator_no_sql.Client.Requests.Reads.{
  put_of, put-Writes, delete-Writes, value_of, mapping_lem, read_primary,
}

module _ (topology : Topology) (key : ℕ) (current : WirePartition)
    (mapped : Map.get topology.mapping (partition key) ≡ some current) where
  targets_lem : write_targets topology key ≡ ok (add (from_list current.replicas) current.master)
  unfolding write_targets
  targets_lem = rw (mapping_lem topology key current mapped) refl

-- A request is sent to the master and the replicas.
pub contains_owners :
    (current : WirePartition) (j : Text)
    → contains (Map.keys (add (from_list current.replicas) current.master)) j
      ≡ (current.master == j || contains current.replicas j)
contains_owners current j =
    contains-keys (add (from_list current.replicas) current.master) j
    ∙ contains_key-add (from_list current.replicas) current.master j
    ∙ ap (λ b. current.master == j || b) (contains_key-from_list current.replicas j)

module _ (topology : Topology) (req : ClientRequest) (current : WirePartition)
    (mapped : Map.get topology.mapping (partition req.key) ≡ some current) where
  pub write_all_lem :
      (retry_attempts : ℕ) (envs : Text → Env) (stores : Stores)
      → write_all topology retry_attempts envs stores req ≡ (
        (request_each
            (Map.keys (add (from_list current.replicas) current.master))
            retry_attempts
            envs
            stores
            req).0,
        first_error
            (request_each
              (Map.keys (add (from_list current.replicas) current.master))
              retry_attempts
              envs
              stores
              req).1,
      )
  unfolding write_all
  write_all_lem retry_attempts envs stores =
      rw (targets_lem topology req.key current mapped, write_all) refl

  -- The master of the key's partition holds the write that every owner has confirmed.
  write_all-master :
      (retry_attempts : ℕ) (envs : Text → Env) (stores : Stores) (m : Mutation)
      → Writes req m
      → (write_all topology retry_attempts envs stores req).1 ≡ ok tt
      → stored ((write_all topology retry_attempts envs stores req).0 current.master) req.key
        ≡ some (newer (stored (stores current.master) req.key) m)
  write_all-master retry_attempts envs stores m w done =
      let targets = add (from_list current.replicas) current.master in
      let e = write_all_lem retry_attempts envs stores in
      let is_target : contains (Map.keys targets) current.master ≡ true =
        contains_owners current current.master
        ∙ ap (λ b. b || contains current.replicas current.master) (==_refl current.master) in
      rw e (
        request_each-written retry_attempts envs req m w (Map.keys targets) stores current.master
          (stored (stores current.master) req.key) is_target (sym (ap (λ r. r.1) e) ∙ done)
          (inl refl))

  -- Whether or not it succeeds, a write leaves every node its old record of the key or the newer of it
  -- and the request's.
  pub write_all-IsWritten :
      (retry_attempts : ℕ) (envs : Text → Env) (stores : Stores) (m : Mutation)
      → Writes req m
      → (j : Text)
      → IsWritten
          (stored (stores j) req.key)
          m
          (stored ((write_all topology retry_attempts envs stores req).0 j) req.key)
  write_all-IsWritten retry_attempts envs stores m w j =
      rw (write_all_lem retry_attempts envs stores) (
        request_each-IsWritten retry_attempts envs req m w _ stores j (stored (stores j) req.key)
          (inl refl))

-- A put that succeeds is read: a get of the same topology afterwards, if its attempt `k` at the master
-- is answered and what the master has then, the newer of the put and the record that it had before, has
-- not expired at the clock readings of the attempts up to `k`, returns the value of that newer record.
pub put_then_get :
    (topology : Topology) (current : WirePartition) (retry_attempts k : ℕ) (envs envs' : Text → Env)
    (stores : Stores) (key : ℕ) (value : List ℕ) (creation_time : ℕ) (ttl expiration : Option ℕ)
    → Map.get topology.mapping (partition key) ≡ some current
    → expiration_time creation_time ttl ≡ ok expiration
    → (put topology retry_attempts envs stores key value creation_time ttl).1 ≡ ok tt
    → ((i : ℕ)
        → i ≤ k
        → is_expired
            (newer (stored (stores current.master) key) (put_of value creation_time expiration))
            ((envs' current.master).now i)
          ≡ false)
    → k < max retry_attempts 1
    → (envs' current.master).attempt k ≡ answered
    → (get topology retry_attempts envs'
        (put topology retry_attempts envs stores key value creation_time ttl).0
        key).1
      ≡ ok (
          value_of
            (newer (stored (stores current.master) key) (put_of value creation_time expiration)))
unfolding request put write_all
put_then_get topology current retry_attempts k envs envs' stores key value creation_time ttl
      expiration mapped fits done fresh below a =
    let req = request request_type_put key (some value) (some creation_time) expiration in
    let m = put_of value creation_time expiration in
    let e : put topology retry_attempts envs stores key value creation_time ttl
        ≡ write_all topology retry_attempts envs stores req =
      rw (fits, put) refl in
    read_primary topology key current mapped retry_attempts k envs' _
      (newer (stored (stores current.master) key) m)
      (ap (λ r. stored (r.0 current.master) key) e
        ∙ write_all-master topology req current mapped retry_attempts envs stores m
            (put-Writes key value creation_time expiration) (sym (ap (λ r. r.1) e) ∙ done))
      fresh below a

-- A delete that succeeds is read: a get of the same topology afterwards, if its attempt `k` at the
-- master is answered and what the master has then, the newer of the deletion and the record that it had
-- before, has not expired at the clock readings of the attempts up to `k`, returns the value of that
-- newer one: none if it is the deletion.
pub delete_then_get :
    (topology : Topology) (current : WirePartition) (retry_attempts k : ℕ) (envs envs' : Text → Env)
    (stores : Stores) (key deletion_time : ℕ)
    → Map.get topology.mapping (partition key) ≡ some current
    → (delete topology retry_attempts envs stores key deletion_time).1 ≡ ok tt
    → ((i : ℕ)
        → i ≤ k
        → is_expired
            (newer (stored (stores current.master) key) (delete_mutation deletion_time))
            ((envs' current.master).now i)
          ≡ false)
    → k < max retry_attempts 1
    → (envs' current.master).attempt k ≡ answered
    → (get topology retry_attempts envs'
        (delete topology retry_attempts envs stores key deletion_time).0
        key).1
      ≡ ok (value_of (newer (stored (stores current.master) key) (delete_mutation deletion_time)))
unfolding delete request
delete_then_get topology current retry_attempts k envs envs' stores key deletion_time mapped done
      fresh below a =
    let req = request request_type_delete key none (some deletion_time) none in
    let m = delete_mutation deletion_time in
    read_primary topology key current mapped retry_attempts k envs' _
      (newer (stored (stores current.master) key) m)
      (write_all-master topology req current mapped retry_attempts envs stores m
        (delete-Writes key deletion_time) done)
      fresh below a
