-- ===== src/Client/Examples.antt =====
-- Runs of the client's theorems on a cluster of two workers, the master of a partition and its replica.
use rust_accelerator_no_sql.Map
use rust_accelerator_no_sql.Map.Entries
use rust_accelerator_no_sql.Map.{Map}
use rust_accelerator_no_sql.Prelude.{
  ◌<◌, ◌⊎◌, unwrap_or, ◌≤◌, ◌^◌, false, ◌+◌, ◌==◌, arith, if◌then◌else◌, ◌≡◌, refl, ℕ, [], ◌∷◌,
  Option, none, some,
}
use rust_accelerator_no_sql.Client.{
  ttl_overflow, request, mapping_of, write_targets, worker_request, err, ok, expiration_time,
  Topology, default_topology,
}
use rust_accelerator_no_sql.Client
use rust_accelerator_no_sql.Store
use rust_accelerator_no_sql.Store.{RuntimeStore, delete_mutation, is_expired}
use rust_accelerator_no_sql.Wire.{WireClusterState, Text, WirePartition}
use rust_accelerator_no_sql.Client.Requests.{
  first_error, request_attempts, request_with_retry, request_each, write_all, put, delete, get,
  answered, unanswered, refused, Env, Stores,
}
use rust_accelerator_no_sql.Store.Lww.{newer, stored}
use rust_accelerator_no_sql.Client.Requests.Liveness.{put_succeeds}
use rust_accelerator_no_sql.Client.Requests.Reads.{put_of, value_of}
use rust_accelerator_no_sql.Client.Requests.Failures.{
  expiration_time_lem, expired_by, FailedPut, put_fails,
}
use rust_accelerator_no_sql.Client.Requests.ReadYourWrites.{put_then_get, delete_then_get}
use rust_accelerator_no_sql.Map.Set.{extend, from_list, add}
use rust_accelerator_no_sql.Client.States.{apply_states-IsLater, apply_states, IsLater}

abbrev owners : WirePartition
owners = record { master = 1; replicas = 2 ∷ [] }

abbrev topology : Topology
topology = record {
  epoch = 3;
  leader_id = 9;
  nodes = Map.empty;
  mapping = Map.insert Map.empty 7 owners;
  old_replicas = Map.empty;
  new_replicas = Map.empty;
}

owners_mapped : Map.get topology.mapping (Client.partition 7) ≡ some owners
unfolding Map.get Map.insert Map.empty Entries.lookup Entries.insert Client.partition
owners_mapped = refl

-- The first attempt at every node is carried out, but its response is lost.
abbrev flaky : Text → Env
flaky j = record {
  attempt = λ i. if i == 0 then unanswered else answered;
  now = λ i. 100 + i;
  request_id = λ i. i;
}

abbrev dead : Text → Env
dead j = record { attempt = λ i. refused; now = λ i. 100; request_id = λ i. i }

abbrev empty_stores : Stores
empty_stores j = Store.new

nothing_stored : stored Store.new 7 ≡ none
unfolding Store.new stored
nothing_stored = ground (arith, Map.get-empty {V = Store.PartitionStore} (Store.partition 7))

no_ttl : expiration_time 100 none ≡ ok none
unfolding expiration_time
no_ttl = refl

-- A put at 100 with a TTL of 50, read at 100 and 101.
short_ttl : expiration_time 100 (some 50) ≡ ok (some 150)
unfolding expiration_time
short_ttl = refl

put_succeeds_example : (put topology 3 flaky empty_stores 7 (5 ∷ []) 100 none).1 ≡ ok tt
put_succeeds_example =
    put_succeeds topology owners 3 flaky empty_stores 7 (5 ∷ []) 100 none none owners_mapped no_ttl
      (λ j c. (1, omega arith, refl))

short_put_succeeds : (put topology 3 flaky empty_stores 7 (5 ∷ []) 100 (some 50)).1 ≡ ok tt
short_put_succeeds =
    put_succeeds topology owners 3 flaky empty_stores 7 (5 ∷ []) 100 (some 50) (some 150)
      owners_mapped short_ttl (λ j c. (1, omega arith, refl))

still_live :
    (i : ℕ)
    → i ≤ 1
    → is_expired (newer (stored Store.new 7) (put_of (5 ∷ []) 100 (some 150))) (100 + i) ≡ false
unfolding is_expired newer
still_live i h = rw nothing_stored (ground (arith, h))

put_then_get_example :
    (get topology 3 flaky (put topology 3 flaky empty_stores 7 (5 ∷ []) 100 (some 50)).0 7).1
    ≡ ok (value_of (newer (stored Store.new 7) (put_of (5 ∷ []) 100 (some 150))))
put_then_get_example =
    put_then_get topology owners 3 1 flaky flaky empty_stores 7 (5 ∷ []) 100 (some 50) (some 150)
      owners_mapped short_ttl short_put_succeeds still_live (omega arith) refl

a_deletion_stays :
    (now : ℕ) → is_expired (newer (stored Store.new 7) (delete_mutation 100)) now ≡ false
unfolding is_expired newer
a_deletion_stays now = rw nothing_stored refl

deleted : (delete topology 3 flaky empty_stores 7 100).1 ≡ ok tt
unfolding delete write_all write_targets mapping_of request request_each request_with_retry
    request_attempts first_error Client.partition expiration_time Map.get Map.insert Map.empty
    Map.keys Entries.lookup Entries.insert add from_list extend
deleted = refl

delete_then_get_example :
    (get topology 3 flaky (delete topology 3 flaky empty_stores 7 100).0 7).1
    ≡ ok (value_of (newer (stored Store.new 7) (delete_mutation 100)))
delete_then_get_example =
    delete_then_get topology owners 3 1 flaky flaky empty_stores 7 100 owners_mapped deleted
      (λ i h. a_deletion_stays (100 + i)) (omega arith) refl

put_to_dead_nodes :
    (put topology 1 dead empty_stores 7 (5 ∷ []) 100 none).1 ≡ err (worker_request 1)
unfolding put write_all write_targets mapping_of request request_each request_with_retry
    request_attempts first_error Client.partition expiration_time Map.get Map.insert Map.empty
    Map.keys Entries.lookup Entries.insert add from_list extend
put_to_dead_nodes = refl

put_fails_example : FailedPut topology 1 dead empty_stores 7 (5 ∷ []) 100 none (worker_request 1)
put_fails_example =
    put_fails topology 1 dead empty_stores 7 (5 ∷ []) 100 none (worker_request 1) put_to_dead_nodes

expiration_time_lem_example :
    ((expiration_time 100 (some 50) ≡ err ttl_overflow) × (2 ^ 64 ≤ 100 + unwrap_or (some 50) 0))
    ⊎ ((expiration : Option ℕ) × (expiration_time 100 (some 50) ≡ ok expiration)
        × (unwrap_or expiration 0 < 2 ^ 64)
        × ((now : ℕ)
            → is_expired (put_of (5 ∷ []) 100 expiration) now ≡ expired_by 100 (some 50) now))
expiration_time_lem_example = expiration_time_lem 100 (some 50) (5 ∷ []) (omega arith) (omega arith)

abbrev state_of : ℕ → Text → WireClusterState
state_of epoch leader_id = record {
  epoch = epoch;
  leader_id = leader_id;
  nodes = [];
  partitions = none;
}

apply_states-IsLater_example :
    IsLater topology (apply_states topology (state_of 3 8 ∷ state_of 4 8 ∷ state_of 3 9 ∷ []))
apply_states-IsLater_example =
    apply_states-IsLater topology (state_of 3 8 ∷ state_of 4 8 ∷ state_of 3 9 ∷ [])
