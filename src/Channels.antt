-- ===== src/Channels.antt =====
-- What the two programs' connections have in common: an event that is received becomes a message for
-- the service, ends its connection, or panics in the conversion of a UUID.
pub mod Streams
pub mod Examples
use rust_accelerator_no_sql.Prelude.{
  refl, ◌≡◌, ◌⊎◌, inl, inr, Bool, true, false, List, [], ◌∷◌, Option, none, some,
}

pub data Received {ℓ} (P : Type ℓ) : Type ℓ where
  message : P → Received P
  stop panics : Received P

unfoldable pub or_panic {ℓ} : {P : Type ℓ} → Option P → Received P
or_panic none = panics
or_panic (some p) = message p

-- The loop over a connection's events, with the messages that the service gets and whether it panics.
unfoldable pub receive_all {ℓ κ} :
    {E : Type ℓ} {P : Type κ} → (E → Received P) → List E → List P × Bool
receive_all receive [] = ([], false)
receive_all receive (event ∷ events) =
    let later = receive_all receive events in
    elim (receive event) [
      | message p ↦ (p ∷ later.0, later.1)
      | stop ↦ ([], false)
      | panics ↦ ([], true)
    ]

pub Received-cases {ℓ} :
    {P : Type ℓ} (r : Received P) → ((p : P) × (r ≡ message p)) ⊎ ((r ≡ stop) ⊎ (r ≡ panics))
Received-cases (message p) = inl (p, refl)
Received-cases stop = inr (inl refl)
Received-cases panics = inr (inr refl)
