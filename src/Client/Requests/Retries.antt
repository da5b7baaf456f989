-- ===== src/Client/Requests/Retries.antt =====
-- What the attempts of one request leave in a worker's store.
use rust_accelerator_no_sql.Prelude.{
  ==_refl, ℕ, zero, suc, ◌≡◌, ◌⊎◌, inl, inr, refl, ap, ◌∙◌, arith, Option, none, some,
}
use rust_accelerator_no_sql.Store.{RuntimeStore, Mutation, Key, write}
use rust_accelerator_no_sql.Store.Lww.{stored, newer, stored-write}
use rust_accelerator_no_sql.Worker.Requests.{handle_request}
use rust_accelerator_no_sql.Wire.{Text, ClientRequest, WireRecord}
use rust_accelerator_no_sql.Client.{decode, ok, err, worker_request}
use rust_accelerator_no_sql.Client.Requests.{
  Env, refused, unanswered, answered, Reply, request_attempts,
}

-- The request writes the mutation, whatever its id and the time.
abbrev pub Writes : ClientRequest → Mutation → Type 0
Writes req m =
    (store : RuntimeStore) (id now : ℕ)
    → (handle_request store (record req { id = id }) now).0 ≡ write store req.key m

pub newer_idem : (o : Option Mutation) (m : Mutation) → newer (some (newer o m)) m ≡ newer o m
unfolding newer
newer_idem none m = ground arith
newer_idem (some old) m = ground arith

-- The store has its old record of the key, or the request's write is in it.
abbrev pub IsWritten : Option Mutation → Mutation → Option Mutation → Type 0
IsWritten old m now = (now ≡ old) ⊎ (now ≡ some (newer old m))

write-IsWritten :
    (store : RuntimeStore) (key : Key) (m : Mutation) (old : Option Mutation)
    → IsWritten old m (stored store key)
    → stored (write store key m) key ≡ some (newer old m)
write-IsWritten store key m old (inl same) =
    stored-write store key key m ∙ rw (same, ==_refl key) refl
write-IsWritten store key m old (inr done) =
    stored-write store key key m ∙ rw (done, ==_refl key) (ap some (newer_idem old m))

pub data Outcome (old : Option Mutation) (m : Mutation) (now : Option Mutation)
    : Reply → Type 0 where
  written : {r : Option WireRecord} → now ≡ some (newer old m) → Outcome old m now (ok r)
  uncertain :
      (node_id : Text) → IsWritten old m now → Outcome old m now (err (worker_request node_id))

-- Whatever happens to the attempts, the store has the key's old record or the newer of that and the
-- request's; if the client gets a reply, it has the newer.
pub request_attempts_outcome :
    (count i : ℕ) (env : Env) (node_id : Text) (store : RuntimeStore) (req : ClientRequest)
    (m : Mutation) (old : Option Mutation)
    → Writes req m
    → IsWritten old m (stored store req.key)
    → Outcome old m
        (stored (request_attempts count i env node_id store req).0 req.key)
        (request_attempts count i env node_id store req).1
unfolding request_attempts
request_attempts_outcome zero i env node_id store req m old w h = uncertain node_id h
request_attempts_outcome (suc count) i env node_id store req m old w h =
    let handled = handle_request store (record req { id = env.request_id i }) (env.now i) in
    let done : stored handled.0 req.key ≡ some (newer old m) =
      ap (λ st. stored st req.key) (w store (env.request_id i) (env.now i))
      ∙ write-IsWritten store req.key m old h in
    elim (env.attempt i)
      as (λ a.
        Outcome old m
          (stored
            (elim a as (λ _. RuntimeStore × Reply) [
              | refused ↦ request_attempts count (suc i) env node_id store req
              | unanswered ↦ request_attempts count (suc i) env node_id handled.0 req
              | answered ↦ (handled.0, ok (decode handled.1))
            ]).0
            req.key)
          (elim a as (λ _. RuntimeStore × Reply) [
            | refused ↦ request_attempts count (suc i) env node_id store req
            | unanswered ↦ request_attempts count (suc i) env node_id handled.0 req
            | answered ↦ (handled.0, ok (decode handled.1))
          ]).1) [
            | refused ↦ request_attempts_outcome count (suc i) env node_id store req m old w h
            | unanswered ↦
                request_attempts_outcome count (suc i) env node_id handled.0 req m old w (inr done)
            | answered ↦ written done
          ]
