-- ===== src/Worker/Requests/Examples.antt =====
-- A run of the refinement of a worker's requests: a put, an older delete and a get.
use rust_accelerator_no_sql.Prelude.{◌≡◌, ℕ, List, [], ◌∷◌, none, some}
use rust_accelerator_no_sql.Store
use rust_accelerator_no_sql.Wire.{
  request_type_get, request_type_delete, request_type_put, ClientRequest,
}
use rust_accelerator_no_sql.Store.Lww.{stored}
use rust_accelerator_no_sql.Client.{request}
use rust_accelerator_no_sql.Worker.Requests.Refinement.{
  handle_requests_refines, abstract_requests, handle_requests,
}

abbrev requests : List (ClientRequest × ℕ)
requests =
    (request request_type_put 7 (some (5 ∷ [])) (some 20) none, 21)
    ∷ (request request_type_delete 7 none (some 10) none, 22)
    ∷ (request request_type_get 7 none none none, 23)
    ∷ []

handle_requests_refines_example :
    (stored (handle_requests Store.new requests).0
      ≡ (abstract_requests (stored Store.new) requests).0)
    × ((handle_requests Store.new requests).1 ≡ (abstract_requests (stored Store.new) requests).1)
handle_requests_refines_example = handle_requests_refines requests Store.new
