-- ===== src/Client/Connection/Replies.antt =====
-- The replies that the callers of a connection get, and the requests that they belong to.
use rust_accelerator_no_sql.Map
use rust_accelerator_no_sql.Prelude.{
  sym, inr, false, ◌==◌, none, if◌then◌else◌, inl, true, Bool-cases, some, All-append, Option-cases,
  arith, Option, All, ◌≡◌, Bool, List, ℕ, refl, ◌∷◌, [],
}
use mathlib.Core.List.{Memᴰ}
use rust_accelerator_no_sql.Wire.{WorkerResponse}
use rust_accelerator_no_sql.Client.{decode}
use rust_accelerator_no_sql.Client.Connection.{
  Reason, worker_stream_closed, stream_error, replied, failed, Waiter, Delivered, WorkerConnection,
  connected, drop_sender, request, Inbound, response, other, end_of_stream, broken, fail_all, drain,
  complete, on_inbound, Event, call, inbound, step, run,
}

-- What a caller may be delivered, if these are all the events.
pub data IsOwn (events : List Event) : Delivered → Type 0 where
  own_reply :
      {waiter : Waiter} {is_open : Bool} {r : WorkerResponse}
      → Memᴰ (call r.request_id waiter is_open) events
      → Memᴰ (inbound (response r)) events
      → IsOwn events (waiter, replied (decode r))
  failure : {waiter : Waiter} {reason : Reason} → IsOwn events (waiter, failed reason)

-- Who waits has called with the id under which it waits.
HasCalled : List Event → WorkerConnection → Type 0
HasCalled events conn =
    (id : ℕ) (waiter : Waiter)
    → Map.get conn.pending id ≡ some waiter
    → (is_open : Bool) × Memᴰ (call id waiter is_open) events

IsOk : List Event → WorkerConnection × List Delivered → Type 0
IsOk events stepped = HasCalled events stepped.0 × All (IsOwn events) stepped.1

fail_all-IsOwn :
    (events : List Event) (es : List (ℕ × Waiter)) (reason : Reason)
    → All (IsOwn events) (fail_all es reason)
unfolding fail_all
fail_all-IsOwn events [] reason = tt
fail_all-IsOwn events ((id, waiter) ∷ es) reason = (failure, fail_all-IsOwn events es reason)

drop_sender-IsOwn : (events : List Event) (o : Option Waiter) → All (IsOwn events) (drop_sender o)
unfolding drop_sender
drop_sender-IsOwn events none = tt
drop_sender-IsOwn events (some waiter) = (failure, tt)

insert-HasCalled :
    (events : List Event) (conn : WorkerConnection) (id waiter : ℕ) (is_open : Bool)
    → Memᴰ (call id waiter is_open) events
    → HasCalled events conn
    → HasCalled events (record conn { pending = Map.insert conn.pending id waiter })
unfolding HasCalled
insert-HasCalled events conn id waiter is_open m h j w e = elim (Bool-cases (id == j)) [
  | inl same ↦
      let id_eq : id ≡ j = ground arith in
      let waiter_eq : waiter ≡ w = ground (arith, e, Map.get-insert conn.pending id j waiter) in
      (is_open, rw (sym id_eq, sym waiter_eq) m)
  | inr differ ↦ h j w (ground (arith, Map.get-insert conn.pending id j waiter))
]

remove-HasCalled :
    (events : List Event) (conn : WorkerConnection) (id : ℕ)
    → HasCalled events conn
    → HasCalled events (record conn { pending = Map.remove conn.pending id })
unfolding HasCalled
remove-HasCalled events conn id h j w e = h j w (ground (arith, Map.get-remove conn.pending id j))

request-IsOk :
    (events : List Event) (conn : WorkerConnection) (id waiter : ℕ) (is_open : Bool)
    → Memᴰ (call id waiter is_open) events
    → HasCalled events conn
    → IsOk events (request conn id waiter is_open)
unfolding IsOk request
request-IsOk events conn id waiter true m h = (
  insert-HasCalled events conn id waiter true m h,
  drop_sender-IsOwn events (Map.get conn.pending id),
)
request-IsOk events conn id waiter false m h = (
  remove-HasCalled events (record conn { pending = Map.insert conn.pending id waiter }) id
      (insert-HasCalled events conn id waiter false m h),
  (failure, drop_sender-IsOwn events (Map.get conn.pending id)),
)

drain-IsOk :
    (events : List Event) (conn : WorkerConnection) (reason : Reason)
    → IsOk events (drain conn reason)
unfolding IsOk drain HasCalled
drain-IsOk events conn reason = (
  λ id w e. absurd (ground (arith, Map.get-empty {0} {V = Waiter} id)),
  fail_all-IsOwn events conn.pending.entries reason,
)

complete-IsOk :
    (events : List Event) (conn : WorkerConnection) (r : WorkerResponse)
    → Memᴰ (inbound (response r)) events
    → HasCalled events conn
    → IsOk events (complete conn r)
unfolding complete IsOk
complete-IsOk events conn r m h = elim (Option-cases (Map.get conn.pending r.request_id)) [
  | inl e ↦ rw (complete, e) (h, tt)
  | inr (waiter, e) ↦
      rw (complete, e)
        (remove-HasCalled events conn r.request_id h, (own_reply (reply_call waiter e).1 m, tt))
]
  where
    reply_call :
        (waiter : Waiter)
        → Map.get conn.pending r.request_id ≡ some waiter
        → (is_open : Bool) × Memᴰ (call r.request_id waiter is_open) events
    reply_call waiter e = unfold HasCalled in h r.request_id waiter e

on_inbound-IsOk :
    (events : List Event) (conn : WorkerConnection) (i : Inbound)
    → Memᴰ (inbound i) events
    → HasCalled events conn
    → IsOk events (on_inbound conn i)
unfolding on_inbound
on_inbound-IsOk events conn (response r) m h = complete-IsOk events conn r m h
on_inbound-IsOk events conn other m h = unfold IsOk in (h, tt)
on_inbound-IsOk events conn end_of_stream m h = drain-IsOk events conn worker_stream_closed
on_inbound-IsOk events conn (broken status) m h = drain-IsOk events conn (stream_error status)

IsOk-if :
    (events : List Event) (conn : WorkerConnection) (b : Bool)
    (stepped : WorkerConnection × List Delivered)
    → HasCalled events conn
    → IsOk events stepped
    → IsOk events (if b then stepped else (conn, []))
unfolding IsOk
IsOk-if events conn true stepped h k = k
IsOk-if events conn false stepped h k = (h, tt)

step-IsOk :
    (events : List Event) (conn : WorkerConnection) (event : Event)
    → Memᴰ event events
    → HasCalled events conn
    → IsOk events (step conn event)
unfolding step
step-IsOk events conn (call id waiter is_open) m h = request-IsOk events conn id waiter is_open m h
step-IsOk events conn (inbound i) m h =
    IsOk-if events conn conn.reading (on_inbound conn i) h (on_inbound-IsOk events conn i m h)

run-IsOk :
    (events : List Event) (conn : WorkerConnection) (rest : List Event)
    → ((event : Event) → Memᴰ event rest → Memᴰ event events)
    → HasCalled events conn
    → IsOk events (run conn rest)
unfolding run IsOk
run-IsOk events conn [] m h = (h, tt)
run-IsOk events conn (event ∷ rest) m h =
    let first = step-IsOk events conn event (m event (Memᴰ.head refl)) h in
    let later = run-IsOk events (step conn event).0 rest (λ e k. m e (Memᴰ.tail k)) first.0 in
    (
      later.0,
      All-append (IsOwn events) (step conn event).1 (run (step conn event).0 rest).1 first.1
          later.1,
    )

-- In whatever order responses arrive, each caller that gets a reply has called with the id of a
-- response that has arrived, and the reply is what that response says; everything else that a caller
-- gets is a failure.
pub run-IsOwn : (events : List Event) → All (IsOwn events) (run connected events).1
unfolding IsOk connected HasCalled
run-IsOwn events =
    (run-IsOk events connected events (λ e m. m)
      (λ id w e. absurd (ground (arith, Map.get-empty {0} {V = Waiter} id)))).1
