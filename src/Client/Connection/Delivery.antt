-- ===== src/Client/Connection/Delivery.antt =====
-- The callers of a connection: which are answered, which wait and which have called.
use rust_accelerator_no_sql.Map
use rust_accelerator_no_sql.Map.{Map}
use rust_accelerator_no_sql.Map.Entries
use rust_accelerator_no_sql.Prelude.{
  if◌then◌else◌, inr, inl, subst, Option-cases, ==_refl, arith, none, false, ◌≡◌, ◌++◌, not, ◌+◌,
  some, ◌==◌, true, Option, List, Bool, ℕ, refl, ◌∷◌, [],
}
use rust_accelerator_no_sql.Client.Connection.{
  Reason, worker_stream_closed, stream_error, Waiter, Delivered, WorkerConnection, connected,
  drop_sender, request, Inbound, response, other, end_of_stream, broken, fail_all, drain, complete,
  on_inbound, Event, call, inbound, step, run,
}

abbrev pub one_if : Bool → ℕ
one_if true = 1
one_if false = 0

-- How often a caller is answered, waits, and has called.
unfoldable pub answers : Waiter → List Delivered → ℕ
answers w [] = 0
answers w ((waiter, r) ∷ rest) = one_if (waiter == w) + answers w rest

unfoldable pub waits : Waiter → List (ℕ × Waiter) → ℕ
waits w [] = 0
waits w ((id, waiter) ∷ rest) = one_if (waiter == w) + waits w rest

unfoldable pub calls : Waiter → List Event → ℕ
calls w [] = 0
calls w (call id waiter is_open ∷ rest) = one_if (waiter == w) + calls w rest
calls w (inbound i ∷ rest) = calls w rest

abbrev holds : Waiter → Option Waiter → ℕ
holds w none = 0
holds w (some waiter) = one_if (waiter == w)

waits-insert :
    (w id waiter : ℕ) (es : List (ℕ × Waiter))
    → Entries.IsSorted es
    → waits w (Entries.insert id waiter es) + holds w (Entries.lookup id es)
      ≡ waits w es + one_if (waiter == w)
unfolding waits Entries.insert Entries.lookup
waits-insert w id waiter [] s = omega arith
waits-insert w id waiter ((k, v) ∷ es) s = ground (
  arith,
  waits-insert w id waiter es s.1,
  Entries.lookup_above id es,
  Entries.AllAbove-weaken id k es,
)

waits-remove :
    (w id : ℕ) (es : List (ℕ × Waiter))
    → Entries.IsSorted es
    → waits w (Entries.retain (λ j _. not (id == j)) es) + holds w (Entries.lookup id es)
      ≡ waits w es
unfolding waits Entries.retain Entries.lookup
waits-remove w id [] s = refl
waits-remove w id ((k, v) ∷ es) s =
    ground (arith, waits-remove w id es s.1, Entries.lookup_above id es)

answers-append : (w : ℕ) (a b : List Delivered) → answers w (a ++ b) ≡ answers w a + answers w b
unfolding answers
answers-append w [] b = omega arith
answers-append w ((waiter, r) ∷ a) b = omega (arith, answers-append w a b)

answers-fail_all :
    (w : ℕ) (es : List (ℕ × Waiter)) (reason : Reason) → answers w (fail_all es reason) ≡ waits w es
unfolding answers fail_all waits
answers-fail_all w [] reason = refl
answers-fail_all w ((id, waiter) ∷ es) reason = omega (arith, answers-fail_all w es reason)

answers-drop_sender : (w : ℕ) (o : Option Waiter) → answers w (drop_sender o) ≡ holds w o
unfolding answers drop_sender
answers-drop_sender w none = refl
answers-drop_sender w (some waiter) = omega arith

-- What a step answers and leaves waiting is what waited and has called.
IsBalanced : Waiter → WorkerConnection → ℕ → WorkerConnection × List Delivered → Type 0
IsBalanced w conn called stepped =
    answers w stepped.1 + waits w stepped.0.pending.entries ≡ waits w conn.pending.entries + called

request-IsBalanced :
    (w : ℕ) (conn : WorkerConnection) (id waiter : ℕ) (is_open : Bool)
    → IsBalanced w conn (one_if (waiter == w)) (request conn id waiter is_open)
unfolding IsBalanced request Map.insert Map.remove Map.get answers
request-IsBalanced w conn id waiter true = omega (
  arith,
  waits-insert w id waiter conn.pending.entries conn.pending.sorted,
  answers-drop_sender w (Map.get conn.pending id),
)
request-IsBalanced w conn id waiter false =
    let inserted = Map.insert conn.pending id waiter in
    let found : holds w (Entries.lookup id inserted.entries) ≡ one_if (waiter == w) =
      rw (Entries.lookup-insert id id waiter conn.pending.entries, ==_refl id) refl in
    omega (
      arith,
      found,
      waits-insert w id waiter conn.pending.entries conn.pending.sorted,
      waits-remove w id inserted.entries inserted.sorted,
      answers-drop_sender w (Map.get conn.pending id),
    )

on_inbound-IsBalanced :
    (w : ℕ) (conn : WorkerConnection) (i : Inbound) → IsBalanced w conn 0 (on_inbound conn i)
unfolding IsBalanced on_inbound drain complete answers Map.remove Map.get Map.empty waits
on_inbound-IsBalanced w conn (response r) =
    elim (Option-cases (Map.get conn.pending r.request_id)) [
      | inl e ↦ ground (arith, e)
      | inr (waiter, e) ↦
          ground (arith, e, waits-remove w r.request_id conn.pending.entries conn.pending.sorted)
    ]
on_inbound-IsBalanced w conn other = omega arith
on_inbound-IsBalanced w conn end_of_stream =
    omega (arith, answers-fail_all w conn.pending.entries worker_stream_closed)
on_inbound-IsBalanced w conn (broken status) =
    omega (arith, answers-fail_all w conn.pending.entries (stream_error status))

IsBalanced-if :
    (w : ℕ) (conn : WorkerConnection) (b : Bool) (stepped : WorkerConnection × List Delivered)
    → IsBalanced w conn 0 stepped
    → IsBalanced w conn 0 (if b then stepped else (conn, []))
unfolding IsBalanced answers
IsBalanced-if w conn true stepped h = h
IsBalanced-if w conn false stepped h = omega arith

step-IsBalanced :
    (w : ℕ) (conn : WorkerConnection) (event : Event)
    → IsBalanced w conn (calls w (event ∷ [])) (step conn event)
unfolding step calls
step-IsBalanced w conn (call id waiter is_open) =
    subst (λ n. IsBalanced w conn n (request conn id waiter is_open)) (omega arith)
      (request-IsBalanced w conn id waiter is_open)
step-IsBalanced w conn (inbound i) =
    IsBalanced-if w conn conn.reading (on_inbound conn i) (on_inbound-IsBalanced w conn i)

calls_cons :
    (w : ℕ) (event : Event) (events : List Event)
    → calls w (event ∷ events) ≡ calls w (event ∷ []) + calls w events
unfolding calls
calls_cons w (call id waiter is_open) events = omega arith
calls_cons w (inbound i) events = omega arith

run-IsBalanced :
    (w : ℕ) (conn : WorkerConnection) (events : List Event)
    → IsBalanced w conn (calls w events) (run conn events)
unfolding IsBalanced run answers calls
run-IsBalanced w conn [] = omega arith
run-IsBalanced w conn (event ∷ events) =
    let stepped = step conn event in
    omega (
      arith,
      calls_cons w event events,
      step-IsBalanced w conn event,
      run-IsBalanced w stepped.0 events,
      answers-append w stepped.1 (run stepped.0 events).1,
    )

-- Whatever the callers request and the stream yields, in any order, with ids used twice, streams
-- that end and events that cannot be sent: each caller has been answered or waits, as often as it
-- has called; so no request is answered twice and none is forgotten. Once a stream that is still
-- read has ended or broken, nobody waits: each caller has been answered as often as it has called.
pub answers-run :
    (events : List Event) (w : Waiter) (status : ℕ)
    → (answers w (run connected events).1 + waits w (run connected events).0.pending.entries
        ≡ calls w events)
      × (answers w (run connected events).1
            + answers w (on_inbound (run connected events).0 end_of_stream).1
          ≡ calls w events)
      × (answers w (run connected events).1
            + answers w (on_inbound (run connected events).0 (broken status)).1
          ≡ calls w events)
unfolding connected Map.empty waits on_inbound drain IsBalanced
answers-run events w status =
    let balanced = run-IsBalanced w connected events in
    let conn = (run connected events).0 in
    (
      omega (arith, balanced),
      omega (arith, balanced, answers-fail_all w conn.pending.entries worker_stream_closed),
      omega (arith, balanced, answers-fail_all w conn.pending.entries (stream_error status)),
    )
