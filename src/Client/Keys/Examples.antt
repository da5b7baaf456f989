-- ===== src/Client/Keys/Examples.antt =====
-- A key that is a text, with a hash that gives zeros, and a negative one.
use rust_accelerator_no_sql.Prelude.{arith, ◌<◌, ◌≡◌, List, ℕ, refl, ◌∷◌, [], u64_mod}
use rust_accelerator_no_sql.Client
use rust_accelerator_no_sql.Store
use rust_accelerator_no_sql.Client.Keys.{bytes, negsuc, to_store_key, to_store_key_lem}

abbrev zeros : List ℕ → List ℕ
zeros message = 0 ∷ 1 ∷ 0 ∷ 0 ∷ 0 ∷ 0 ∷ 0 ∷ 0 ∷ []

minus_one : to_store_key zeros (negsuc 0) ≡ 18446744073709551615
unfolding to_store_key
minus_one = refl

to_store_key_lem_example :
    (to_store_key zeros (bytes (107 ∷ [])) < u64_mod)
    × (Client.partition (to_store_key zeros (bytes (107 ∷ [])))
        ≡ Store.partition (to_store_key zeros (bytes (107 ∷ []))))
    × (Client.partition (to_store_key zeros (bytes (107 ∷ []))) < 4096)
to_store_key_lem_example =
    to_store_key_lem zeros
      (λ message. (
        omega arith,
        (
          omega arith,
          (
            omega arith,
            (omega arith, (omega arith, (omega arith, (omega arith, (omega arith, tt))))),
          ),
        ),
      ))
      (bytes (107 ∷ []))
