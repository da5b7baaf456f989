-- ===== src/Channels/Streams.antt =====
-- crates/no-sql-store/src/manager/grpc/session.rs and worker/grpc/session.rs: the two kinds of stream on
-- which a node sends to another, and a send while the channel is being closed. The channels are the
-- crate tokio's: whether one rejects a value is an argument, and then it gives the value back.
use rust_accelerator_no_sql.Prelude.{
  Bool-cases, inl, inr, ◌⊎◌, not, ℕ, Bool, true, false, Option, none, some, if◌then◌else◌, ◌≡◌,
  refl, arith,
}

-- `CommunicationStreamEither`: an input stream carries results, an output stream events.
pub data IoStream : Type 0 where
  input output : IoStream

pub data Item {ℓ} (E : Type ℓ) : Type ℓ where
  event : E → Item E
  status : ℕ → Item E

pub data SendError {ℓ} (E : Type ℓ) : Type ℓ where
  input_error : (status : ℕ) → SendError E
  output_error : E → SendError E

-- What an input stream makes of the item that it gets back.
unfoldable pub input_failure {ℓ} : {E : Type ℓ} → Item E → Option (SendError E)
input_failure (event e) = none
input_failure (status s) = some (input_error s)

-- `none` is `Ok(())`.
unfoldable pub send {ℓ} : {E : Type ℓ} → IoStream → (is_rejected : Bool) → E → Option (SendError E)
unfolding input_failure
send input is_rejected e = if is_rejected then input_failure (event e) else none
send output is_rejected e = if is_rejected then some (output_error e) else none

-- A session when `handle_common` looks at it, and when it sends.
pub record Session : Type 0 where
  pub stream : IoStream
  pub is_closed : Bool
  pub is_rejected : Bool

-- What the recipient and the service get, and what is logged.
pub data Handled {ℓ} (E : Type ℓ) : Type ℓ where
  no_session disconnected : Handled E
  sent : (arrives : Bool) → Option (SendError E) → Handled E

unfoldable pub handle_common {ℓ} : {E : Type ℓ} → Option Session → E → Handled E
unfolding send
handle_common none e = no_session
handle_common (some session) e =
    if session.is_closed
    then disconnected
    else sent (not session.is_rejected) (send session.stream session.is_rejected e)

-- An event for an open session arrives, or its channel has been closed since the session was looked
-- at. Then the session is kept, the service is not told, and only an output stream reports the loss;
-- an input stream reports none, so nothing is logged.
pub handle_common_lem {ℓ} :
    {E : Type ℓ} (session : Session) (e : E)
    → session.is_closed ≡ false
    → ((session.is_rejected ≡ false) × (handle_common (some session) e ≡ sent true none))
      ⊎ ((session.is_rejected ≡ true)
          × (((session.stream ≡ output)
                × (handle_common (some session) e ≡ sent false (some (output_error e))))
              ⊎ ((session.stream ≡ input) × (handle_common (some session) e ≡ sent false none))))
unfolding handle_common send input_failure
handle_common_lem session e is_open = elim (Bool-cases session.is_rejected) [
  | inl lost ↦ elim (stream_cases session.stream) [
    | inl out ↦ inr (lost, inl (out, ground (arith, is_open, lost, out)))
    | inr in_ ↦ inr (lost, inr (in_, ground (arith, is_open, lost, in_)))
  ]
  | inr taken ↦ elim (stream_cases session.stream) [
    | inl out ↦ inl (taken, ground (arith, is_open, taken, out))
    | inr in_ ↦ inl (taken, ground (arith, is_open, taken, in_))
  ]
]
  where
    stream_cases : (s : IoStream) → (s ≡ output) ⊎ (s ≡ input)
    stream_cases input = inr refl
    stream_cases output = inl refl
