-- ===== src/Client/Keys.antt =====
-- crates/no-sql-store-client/src/lib.rs: the number of 64 bits that a key is for the workers. The hash
-- of the crate blake3 is an argument; a byte is a number below 256.
mod Examples
use rust_accelerator_no_sql.Prelude.{
  ap, arith, length, ◌≡◌, List, ℕ, refl, zero, suc, ◌∷◌, [], ◌++◌, ◌^◌, ◌%◌, ◌-◌, ◌*◌, ◌+◌, ◌<◌,
  u64_mod, take, All,
}
use rust_accelerator_no_sql.Client
use rust_accelerator_no_sql.Store

-- An integer of any of the types; a negative one is `-1 - n`.
pub data StoreKey : Type 0 where
  pos : (n : ℕ) → StoreKey
  negsuc : (n : ℕ) → StoreKey
  bytes : List ℕ → StoreKey

-- The text "no-sql-store:key:v1\0".
abbrev pub key_hash_domain : List ℕ
key_hash_domain =
    110 ∷ 111 ∷ 45 ∷ 115 ∷ 113 ∷ 108 ∷ 45 ∷ 115 ∷ 116 ∷ 111 ∷ 114 ∷ 101 ∷ 58 ∷ 107 ∷ 101 ∷ 121 ∷ 58
    ∷ 118 ∷ 49 ∷ 0 ∷ []

unfoldable pub from_le_bytes : List ℕ → ℕ
from_le_bytes [] = 0
from_le_bytes (byte ∷ rest) = byte + 256 * from_le_bytes rest

unfoldable pub hash_key : (List ℕ → List ℕ) → List ℕ → ℕ
unfolding from_le_bytes
hash_key blake3 key = from_le_bytes (take 8 (blake3 (key_hash_domain ++ key)))

-- `as u64` wraps a negative integer round.
unfoldable pub to_store_key : (List ℕ → List ℕ) → StoreKey → ℕ
unfolding hash_key
to_store_key blake3 (pos n) = n % 2 ^ 64
to_store_key blake3 (negsuc n) = 2 ^ 64 - 1 - n % 2 ^ 64
to_store_key blake3 (bytes key) = hash_key blake3 key

-- An integer of a signed type, of 64 bits at most.
abbrev pub IsSigned : StoreKey → Type 0
IsSigned (pos n) = n < 2 ^ 63
IsSigned (negsuc n) = n < 2 ^ 63
IsSigned (bytes key) = ⊥

abbrev power_256 : ℕ → ℕ
power_256 zero = 1
power_256 (suc n) = 256 * power_256 n

from_le_bytes_lt :
    (n : ℕ) (bs : List ℕ) → All (λ b. b < 256) bs → from_le_bytes (take n bs) < power_256 n
unfolding from_le_bytes
from_le_bytes_lt zero bs a = omega arith
from_le_bytes_lt (suc n) [] a = omega (arith, from_le_bytes_lt n [] tt)
from_le_bytes_lt (suc n) (b ∷ bs) a = let small = a.0 in omega (arith, from_le_bytes_lt n bs a.1)

in_bounds :
    (blake3 : List ℕ → List ℕ)
    → ((message : List ℕ) → All (λ b. b < 256) (blake3 message))
    → (key : StoreKey) → to_store_key blake3 key < u64_mod
unfolding to_store_key hash_key
in_bounds blake3 law (pos n) = omega arith
in_bounds blake3 law (negsuc n) = omega arith
in_bounds blake3 law (bytes key) =
    from_le_bytes_lt 8 (blake3 (key_hash_domain ++ key)) (law (key_hash_domain ++ key))

-- The key of any value is a `u64`, if the hash gives bytes. The client looks it up in the partition
-- in which the workers keep it, and this is one of the 4096.
pub to_store_key_lem :
    (blake3 : List ℕ → List ℕ)
    → ((message : List ℕ) → All (λ b. b < 256) (blake3 message))
    → (key : StoreKey)
    → (to_store_key blake3 key < u64_mod)
      × (Client.partition (to_store_key blake3 key) ≡ Store.partition (to_store_key blake3 key))
      × (Client.partition (to_store_key blake3 key) < 4096)
unfolding Client.partition Store.partition
to_store_key_lem blake3 law key = (in_bounds blake3 law key, omega arith, omega arith)

-- Integers of signed types keep apart: two with one key are the same.
pub to_store_key-injective :
    (blake3 : List ℕ → List ℕ) (key key' : StoreKey)
    → IsSigned key
    → IsSigned key'
    → to_store_key blake3 key ≡ to_store_key blake3 key'
    → key ≡ key'
unfolding to_store_key
to_store_key-injective blake3 (pos n) (pos m) h k e = ap pos (omega arith)
to_store_key-injective blake3 (pos n) (negsuc m) h k e = absurd (omega arith)
to_store_key-injective blake3 (negsuc n) (pos m) h k e = absurd (omega arith)
to_store_key-injective blake3 (negsuc n) (negsuc m) h k e = ap negsuc (omega arith)
to_store_key-injective blake3 (bytes b) key' h k e = absurd h
to_store_key-injective blake3 (pos n) (bytes b) h k e = absurd k
to_store_key-injective blake3 (negsuc n) (bytes b) h k e = absurd k
