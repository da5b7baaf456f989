-- ===== src/Worker/Requests/Refinement.antt =====
-- A worker's requests against the abstract store: one function from keys to mutations, with neither
-- partitions nor journals nor revisions.
use rust_accelerator_no_sql.Prelude.{
  ◌∙◌, ap, inr, Bool-cases, inl, unwrap_or, Option-cases, ◌==◌, ◌≡◌, if◌then◌else◌, refl, ℕ, List,
  [], ◌∷◌, Option, none, some, fun_ext,
}
use rust_accelerator_no_sql.Store
use rust_accelerator_no_sql.Store.{RuntimeStore, Mutation, Key}
use rust_accelerator_no_sql.Store.Lww.{stored, newer, stored-write}
use rust_accelerator_no_sql.Store.Expiry.{live, get_versioned_lem}
use rust_accelerator_no_sql.Worker.Requests.{handle_request, put_parts, respond}
use rust_accelerator_no_sql.Wire.{request_type_delete, WorkerResponse, ClientRequest}

abbrev pub Abstract : Type 0
Abstract = Key → Option Mutation

abbrev pub set : Abstract → Key → Option Mutation → Abstract
set s key m = λ j. if key == j then m else s j

-- What a request does: a put or a delete that is newer than what is there takes its place, and any
-- other request reads what has not expired.
unfoldable pub abstract_request : Abstract → ClientRequest → ℕ → Abstract × WorkerResponse
abstract_request s req now = elim (put_parts req) [
  | some (bytes, creation_time_ms) ↦ (
    set s req.key (
        some (
          newer (s req.key) (
            Store.put_mutation (record {
              value = bytes;
              expiration_time_ms = unwrap_or req.ttl 0;
              creation_time_ms = creation_time_ms;
            })))),
    respond req none,
  )
  | none ↦
      if req.request_type == request_type_delete
      then (
        set s req.key
            (some (newer (s req.key) (Store.delete_mutation (unwrap_or req.creation_time now)))),
        respond req none,
      )
      else (set s req.key (live now (s req.key)), respond req (live now (s req.key)))
]

abbrev pub handle_requests :
    RuntimeStore → List (ClientRequest × ℕ) → RuntimeStore × List WorkerResponse
handle_requests store [] = (store, [])
handle_requests store ((req, now) ∷ rest) =
    let handled = handle_request store req now in
    let later = handle_requests handled.0 rest in (later.0, handled.1 ∷ later.1)

abbrev pub abstract_requests : Abstract → List (ClientRequest × ℕ) → Abstract × List WorkerResponse
abstract_requests s [] = (s, [])
abstract_requests s ((req, now) ∷ rest) =
    let handled = abstract_request s req now in
    let later = abstract_requests handled.0 rest in (later.0, handled.1 ∷ later.1)

write_refines :
    (store : RuntimeStore) (key : Key) (m : Mutation)
    → stored (Store.write store key m) ≡ set (stored store) key (some (newer (stored store key) m))
write_refines store key m = fun_ext (λ j. stored-write store key j m)

read_refines :
    (store : RuntimeStore) (key : Key) (now : ℕ)
    → stored (Store.get_versioned store key now).0
      ≡ set (stored store) key (live now (stored store key))
read_refines store key now = fun_ext (λ j. (get_versioned_lem store key j now).1)

handle_request_refines :
    (store : RuntimeStore) (req : ClientRequest) (now : ℕ)
    → (stored (handle_request store req now).0 ≡ (abstract_request (stored store) req now).0)
      × ((handle_request store req now).1 ≡ (abstract_request (stored store) req now).1)
unfolding handle_request abstract_request Store.put Store.delete_at
handle_request_refines store req now = elim (Option-cases (put_parts req)) [
  | inl e ↦ elim (Bool-cases (req.request_type == request_type_delete)) [
    | inl d ↦
        rw (e, handle_request, abstract_request)
          (rw d (
            write_refines store req.key (Store.delete_mutation (unwrap_or req.creation_time now)),
            refl,
          ))
    | inr g ↦
        rw (e, handle_request, abstract_request)
          (rw g (
            read_refines store req.key now,
            ap (respond req) (get_versioned_lem store req.key req.key now).0,
          ))
  ]
  | inr (parts, e) ↦ rw (e, handle_request, abstract_request) (write_refines store req.key _, refl)
]

-- Whatever requests a worker gets, at whatever times, it answers each as the abstract store does, and
-- the store that is left represents the abstract store that is left.
pub handle_requests_refines :
    (reqs : List (ClientRequest × ℕ)) (store : RuntimeStore)
    → (stored (handle_requests store reqs).0 ≡ (abstract_requests (stored store) reqs).0)
      × ((handle_requests store reqs).1 ≡ (abstract_requests (stored store) reqs).1)
handle_requests_refines [] store = (refl, refl)
handle_requests_refines ((req, now) ∷ rest) store =
    let step = handle_request_refines store req now in
    let later = handle_requests_refines rest (handle_request store req now).0 in
    (
      later.0 ∙ ap (λ s. (abstract_requests s rest).0) step.0,
      ap (λ l. (handle_request store req now).1 ∷ l) later.1
          ∙ ap (λ s. (handle_request store req now).1 ∷ (abstract_requests s rest).1) step.0
          ∙ ap (λ r. r ∷ (abstract_requests (abstract_request (stored store) req now).0 rest).1)
              step.1,
    )
