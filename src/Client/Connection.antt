-- ===== src/Client/Connection.antt =====
-- crates/no-sql-store-client/src/connection.rs: the connection to a worker, over which the requests
-- of several callers go out and the responses come back in any order. A caller waits on a channel
-- of its own, which is its number here; a channel whose sender is dropped reads as a closed stream.
pub mod Delivery
pub mod Replies
use rust_accelerator_no_sql.Map
use rust_accelerator_no_sql.Map.{Map}
use rust_accelerator_no_sql.Prelude.{
  none, ◌++◌, false, if◌then◌else◌, some, List, true, Bool, Option, ℕ, refl, zero, suc, ◌∷◌, [],
}
use rust_accelerator_no_sql.Wire.{WireRecord, WorkerResponse}
use rust_accelerator_no_sql.Client.{decode}

pub data Reason : Type 0 where
  worker_stream_closed : Reason
  stream_error : (status : ℕ) → Reason

pub data Response : Type 0 where
  replied : Option WireRecord → Response
  failed : Reason → Response

abbrev pub Waiter : Type 0
Waiter = ℕ

abbrev pub Delivered : Type 0
Delivered = Waiter × Response

-- The requests that wait for a response, and whether the task still reads the stream.
pub record WorkerConnection : Type 0 where
  pub pending : Map Waiter
  pub reading : Bool

unfoldable pub connected : WorkerConnection
connected = record { pending = Map.empty; reading = true }

-- The sender that an insertion replaces is dropped.
unfoldable pub drop_sender : Option Waiter → List Delivered
drop_sender none = []
drop_sender (some waiter) = (waiter, failed worker_stream_closed) ∷ []

-- `request`, up to the wait for the response; `is_open` is whether the event can be sent.
unfoldable pub request : WorkerConnection → ℕ → Waiter → Bool → WorkerConnection × List Delivered
unfolding drop_sender
request conn id waiter is_open =
    let dropped = drop_sender (Map.get conn.pending id) in
    let pending = Map.insert conn.pending id waiter in
    if is_open then (record conn { pending = pending }, dropped) else (
      record conn { pending = Map.remove pending id },
      (waiter, failed worker_stream_closed) ∷ dropped,
    )

-- What `inbound.message()` yields.
pub data Inbound : Type 0 where
  response : WorkerResponse → Inbound
  other : Inbound
  end_of_stream : Inbound
  broken : (status : ℕ) → Inbound

unfoldable pub fail_all : List (ℕ × Waiter) → Reason → List Delivered
fail_all [] reason = []
fail_all ((id, waiter) ∷ pending) reason = (waiter, failed reason) ∷ fail_all pending reason

-- The task ends after it.
unfoldable pub drain : WorkerConnection → Reason → WorkerConnection × List Delivered
unfolding fail_all
drain conn reason =
    (record { pending = Map.empty; reading = false }, fail_all conn.pending.entries reason)

unfoldable pub complete : WorkerConnection → WorkerResponse → WorkerConnection × List Delivered
complete conn r = elim (Map.get conn.pending r.request_id) [
  | none ↦ (conn, [])
  | some waiter ↦ (
    record conn { pending = Map.remove conn.pending r.request_id },
    (waiter, replied (decode r)) ∷ [],
  )
]

-- A turn of the task's loop.
unfoldable pub on_inbound : WorkerConnection → Inbound → WorkerConnection × List Delivered
unfolding complete drain
on_inbound conn (response r) = complete conn r
on_inbound conn other = (conn, [])
on_inbound conn end_of_stream = drain conn worker_stream_closed
on_inbound conn (broken status) = drain conn (stream_error status)

pub data Event : Type 0 where
  call : (id : ℕ) → Waiter → (is_open : Bool) → Event
  inbound : Inbound → Event

unfoldable pub step : WorkerConnection → Event → WorkerConnection × List Delivered
unfolding request on_inbound
step conn (call id waiter is_open) = request conn id waiter is_open
step conn (inbound i) = if conn.reading then on_inbound conn i else (conn, [])

unfoldable pub run : WorkerConnection → List Event → WorkerConnection × List Delivered
unfolding step
run conn [] = (conn, [])
run conn (event ∷ events) =
    let stepped = step conn event in
    let rest = run stepped.0 events in (rest.0, stepped.1 ++ rest.1)
