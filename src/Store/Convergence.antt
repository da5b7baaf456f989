-- ===== src/Store/Convergence.antt =====
-- Stores that receive the same mutations of a key, in different orders and numbers.
use rust_accelerator_no_sql.Prelude.{
  ap, leb, Option-cases, ◌==◌, ==_refl, Bool-cases, OptionLe-trans, OptionLe-refl, map_option,
  OptionLe, inr, inl, ◌⊎◌, arith, refl, ◌∷◌, [], List, some, none, Option, ◌≡◌,
}
use rust_accelerator_no_sql.Store.{version, write, Mutation, Key, RuntimeStore}
use rust_accelerator_no_sql.Store.Lww.{newer-le, stored-write, newer, version-write, stored}

unfoldable pub write_all : RuntimeStore → List (Key × Mutation) → RuntimeStore
write_all store [] = store
write_all store ((key, mutation) ∷ rest) = write_all (write store key mutation) rest

abbrev pub IsIn : Key → Mutation → List (Key × Mutation) → Type 0
IsIn key mutation [] = ⊥
IsIn key mutation ((k, m) ∷ rest) = ((key ≡ k) × (mutation ≡ m)) ⊎ IsIn key mutation rest

write_source :
    (store : RuntimeStore) (key j : Key) (mutation m : Mutation)
    → stored (write store key mutation) j ≡ some m
    → (stored store j ≡ some m) ⊎ ((j ≡ key) × (m ≡ mutation))
unfolding newer
write_source store key j mutation m h = elim (Bool-cases (key == j)) [
  | inl same ↦
      let e : j ≡ key = ground arith in
      elim (Option-cases (stored store key)) [
        | inl absent ↦ inr (e, ground (arith, stored-write store key j mutation))
        | inr (old, found) ↦ elim (Bool-cases (leb (version old) (version mutation))) [
          | inl wins ↦ inr (e, ground (arith, stored-write store key j mutation))
          | inr loses ↦ inl (ground (arith, stored-write store key j mutation))
        ]
      ]
  | inr differ ↦ inl (ground (arith, stored-write store key j mutation))
]

version-written :
    (store : RuntimeStore) (key : Key) (mutation : Mutation)
    → OptionLe
        (some (version mutation))
        (map_option version (stored (write store key mutation) key))
version-written store key mutation =
    rw (stored-write store key key mutation, ==_refl key) (newer-le (stored store key) mutation)

-- What is stored after the writes was stored before, or is one of them.
write_all_source :
    (ops : List (Key × Mutation)) (store : RuntimeStore) (j : Key) {m : Mutation}
    → stored (write_all store ops) j ≡ some m
    → (stored store j ≡ some m) ⊎ IsIn j m ops
unfolding write_all
write_all_source [] store j h = inl h
write_all_source ((key, mutation) ∷ rest) store j {m} h =
    elim (write_all_source rest (write store key mutation) j {m = m} h) [
      | inl before ↦ elim (write_source store key j mutation m before) [
        | inl old ↦ inl old
        | inr now ↦ inr (inl now)
      ]
      | inr later ↦ inr (inr later)
    ]

-- No write, and nothing stored before, is of a later version than what is stored after.
write_all-le :
    (ops : List (Key × Mutation)) (store : RuntimeStore) (j : Key)
    → OptionLe
        (map_option version (stored store j))
        (map_option version (stored (write_all store ops) j))
unfolding write_all
write_all-le [] store j = OptionLe-refl (map_option version (stored store j))
write_all-le ((key, mutation) ∷ rest) store j =
    OptionLe-trans _ _ _ (version-write store key j mutation)
      (write_all-le rest (write store key mutation) j)

write_all_newest :
    (ops : List (Key × Mutation)) (store : RuntimeStore) (j : Key) (m : Mutation)
    → IsIn j m ops
    → OptionLe (some (version m)) (map_option version (stored (write_all store ops) j))
unfolding write_all
write_all_newest [] store j m h = absurd h
write_all_newest ((key, mutation) ∷ rest) store j m (inl (k, e)) =
    rw (k, e)
      (OptionLe-trans (some (version mutation))
        (map_option version (stored (write store key mutation) key))
        (map_option version (stored (write_all (write store key mutation) rest) key))
        (version-written store key mutation) (write_all-le rest (write store key mutation) key))
write_all_newest ((key, mutation) ∷ rest) store j m (inr later) =
    write_all_newest rest (write store key mutation) j m later

written :
    (ops : List (Key × Mutation)) (store : RuntimeStore) (j : Key) (m : Mutation)
    → stored store j ≡ none
    → stored (write_all store ops) j ≡ some m
    → IsIn j m ops
written ops store j m empty h = elim (write_all_source ops store j {m = m} h) [
  | inl before ↦ absurd (ground arith)
  | inr now ↦ now
]

-- Two stores that start empty of a key and receive the same mutations of it, each store in its own
-- order and with any repetitions, hold the same for the key, if no two of those mutations share a
-- version.
pub write_all_converge :
    (ops ops' : List (Key × Mutation)) (store store' : RuntimeStore) (j : Key)
    → stored store j ≡ none
    → stored store' j ≡ none
    → ((m : Mutation) → IsIn j m ops → IsIn j m ops')
    → ((m : Mutation) → IsIn j m ops' → IsIn j m ops)
    → ((m m' : Mutation) → IsIn j m ops → IsIn j m' ops → version m ≡ version m' → m ≡ m')
    → stored (write_all store ops) j ≡ stored (write_all store' ops') j
write_all_converge ops ops' store store' j empty empty' to from distinct =
    compare_stored (stored (write_all store ops) j) (stored (write_all store' ops') j) refl refl
  where
    compare_stored :
        (a b : Option Mutation)
        → stored (write_all store ops) j ≡ a
        → stored (write_all store' ops') j ≡ b
        → a ≡ b
    compare_stored none none p q = refl
    compare_stored none (some m) p q =
        absurd
          (rw p at (write_all_newest ops store j m (from m (written ops' store' j m empty' q))))
    compare_stored (some m) none p q =
        absurd (rw q at (write_all_newest ops' store' j m (to m (written ops store j m empty p))))
    compare_stored (some m) (some m') p q =
        let here = written ops store j m empty p in
        let there = from m' (written ops' store' j m' empty' q) in
        let up : OptionLe (some (version m')) (some (version m)) =
          rw p at (write_all_newest ops store j m' there) in
        let down : OptionLe (some (version m)) (some (version m')) =
          rw q at (write_all_newest ops' store' j m (to m here)) in
        ap some (distinct m m' here there (omega arith))
