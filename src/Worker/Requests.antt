-- ===== src/Worker/Requests.antt =====
-- crates/no-sql-store/src/worker/grpc.rs: what a worker answers to a request of a client.
pub mod Refinement
pub mod Examples
use rust_accelerator_no_sql.Prelude.{
  ℕ, List, Option, none, some, ◌==◌, if◌then◌else◌, unwrap_or, false,
}
use rust_accelerator_no_sql.Store.{
  RuntimeStore, Record, Mutation, put_mutation, delete_mutation, put, delete_at, get_versioned,
}
use rust_accelerator_no_sql.Wire.{
  ClientRequest, WorkerResponse, WireRecord, request_type_put, request_type_delete,
}

-- The pattern of a put: its type, with a value and a creation time.
unfoldable pub put_parts : ClientRequest → Option (List ℕ × ℕ)
put_parts request =
    if request.request_type == request_type_put
    then elim request.value [
      | none ↦ none
      | some bytes ↦ elim request.creation_time [
        | none ↦ none
        | some creation_time_ms ↦ some (bytes, creation_time_ms)
      ]
    ]
    else none

unfoldable pub respond : ClientRequest → Option Mutation → WorkerResponse
respond request none = record { request_id = request.id; record_ = none; deletion_time = none }
respond request (some (put_mutation r)) = record {
  request_id = request.id;
  record_ = some (record {
    key = request.key;
    value = r.value;
    ttl = r.expiration_time_ms;
    creation_time = r.creation_time_ms;
    deleted = false;
  });
  deletion_time = none;
}
respond request (some (delete_mutation deletion_time_ms)) = record {
  request_id = request.id;
  record_ = none;
  deletion_time = some deletion_time_ms;
}

-- Any other request than a put or a delete is taken for a get, a put without a value too.
unfoldable pub handle_request : RuntimeStore → ClientRequest → ℕ → RuntimeStore × WorkerResponse
handle_request store request now = elim (put_parts request) [
  | some (bytes, creation_time_ms) ↦ (
    put store request.key (record {
      value = bytes;
      expiration_time_ms = unwrap_or request.ttl 0;
      creation_time_ms = creation_time_ms;
    }),
    respond request none,
  )
  | none ↦
      if request.request_type == request_type_delete
      then (delete_at store request.key (unwrap_or request.creation_time now), respond request none)
      else (
        (get_versioned store request.key now).0,
        respond request (get_versioned store request.key now).1,
      )
]
