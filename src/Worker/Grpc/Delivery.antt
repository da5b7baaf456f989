-- ===== src/Worker/Grpc/Delivery.antt =====
-- What arrives at a worker, over an open connection, of another worker's messages.
use rust_accelerator_no_sql.Map
use rust_accelerator_no_sql.Prelude.{
  arith, ◌%◌, false, ◌^◌, ap, some, ◌<◌, ◌≡◌, All, map, refl, ℕ, List, [], ◌∷◌,
}
use rust_accelerator_no_sql.Worker.{
  WorkerProtocol, SyncBatchRequest, BatchRecord, sync_batch, sync_batch_response,
}
use rust_accelerator_no_sql.Worker.Grpc
use rust_accelerator_no_sql.Worker.Grpc.{
  receive_from_worker, receive_from_manager, record_to_domain, record_to_grpc,
}
use rust_accelerator_no_sql.Wire.{SyncEvent}
use rust_accelerator_no_sql.Conversions.RoundTrip.{HasIds}
use rust_accelerator_no_sql.Channels.{message}
use rust_accelerator_no_sql.Map.Extensionality.{collect-entries}
use rust_accelerator_no_sql.Common.{NodeId, Me}
use rust_accelerator_no_sql.Conversions.{Uuid}
use rust_accelerator_no_sql.Map.{Map}

-- What a worker's message for another worker becomes there.
pub data SyncArrives (sender receiver : Me) : WorkerProtocol → WorkerProtocol → Type 0 where
  batch_arrives :
      (request : SyncBatchRequest)
      → SyncArrives sender receiver
          (sync_batch receiver.id request)
          (sync_batch receiver.id (record { sender_id = sender.id; records = request.records }))
  response_arrives :
      (max_applied : Map ℕ)
      → HasIds max_applied
      → SyncArrives sender receiver
          (sync_batch_response receiver.id max_applied)
          (sync_batch_response sender.id max_applied)

abbrev pub DeliversSync : Uuid → Me → Me → Grpc.Sessions → WorkerProtocol → WorkerProtocol → Type 0
DeliversSync uuid sender receiver sessions msg msg' =
    (event : SyncEvent) × (Grpc.output uuid sessions msg
      ≡ some (sessions, Grpc.to_worker receiver.id event ∷ []))
    × (receive_from_worker receiver sender.id event ≡ message msg')

send_worker_open :
    (sessions : Grpc.Sessions) (id : NodeId) (event : SyncEvent)
    → Map.get sessions.workers id ≡ some false
    → Grpc.send_worker sessions id event ≡ (sessions, Grpc.to_worker id event ∷ [])
unfolding Grpc.send_worker Grpc.handle_common
send_worker_open sessions id event is_open = rw (is_open, Grpc.handle_common) refl

records_lem :
    (records : List BatchRecord) → map record_to_domain (map record_to_grpc records) ≡ records
records_lem [] = refl
records_lem (r ∷ records) = ap (λ (l : List BatchRecord). r ∷ l) (records_lem records)

same_ids : (es : List (ℕ × ℕ)) → All (λ e. e.0 < 2 ^ 16) es → map (λ e. (e.0 % 2 ^ 16, e.1)) es ≡ es
same_ids [] a = refl
same_ids (e ∷ es) a =
    let same : e.0 % 2 ^ 16 ≡ e.0 = (let below = a.0 in ground (arith, below)) in
    rw (same, same_ids es a.1) refl

-- A batch of records from one worker to another arrives over an open connection with all its records
-- and the sender's id, and the answer to a batch with all its keys, if its partition ids are `u16`s.
pub worker_to_worker :
    (uuid : Uuid) (sender receiver : Me) (sessions : Grpc.Sessions) {msg msg' : WorkerProtocol}
    → Map.get sessions.workers receiver.id ≡ some false
    → SyncArrives sender receiver msg msg'
    → DeliversSync uuid sender receiver sessions msg msg'
unfolding Grpc.output receive_from_worker
worker_to_worker uuid sender receiver sessions o (batch_arrives request) =
    (_, ap some (send_worker_open sessions receiver.id _ o), rw (records_lem request.records) refl)
worker_to_worker uuid sender receiver sessions o (response_arrives max_applied ids) = (
  _,
  ap some (send_worker_open sessions receiver.id _ o),
  rw (same_ids max_applied.entries ids)
      (ap (λ m. message (sync_batch_response sender.id m)) (collect-entries max_applied)),
)
