-- ===== src/Map/Extensionality.antt =====
-- Equality of maps by their entries, and the copy of a map by insertions.
use rust_accelerator_no_sql.Map.Entries
use native.Mathlib.Bridge.{le_prop}
use rust_accelerator_no_sql.Map.{Map}
use rust_accelerator_no_sql.Map
use rust_accelerator_no_sql.Prelude.{refl, ◌∙◌, ap, arith, ◌≡◌, ℕ, List, ◌∷◌, []}
use mathlib.Core.HLevel.{×_prop, is_prop→PathP}

module _ {ℓ} {V : Type ℓ} where
  AllAbove-IsProp : (k : ℕ) (es : List (ℕ × V)) → IsProp (Entries.AllAbove k es)
  AllAbove-IsProp k [] = hlevel
  AllAbove-IsProp k (e ∷ es) = ×_prop le_prop (AllAbove-IsProp k es)

  IsSorted-IsProp : (es : List (ℕ × V)) → IsProp (Entries.IsSorted es)
  IsSorted-IsProp [] = hlevel
  IsSorted-IsProp ((k, v) ∷ es) = ×_prop (AllAbove-IsProp k es) (IsSorted-IsProp es)

  pub map_ext : (m n : Map V) → m.entries ≡ n.entries → m ≡ n
  map_ext m n p = λ i. record {
    entries = p i;
    sorted =
        is_prop→PathP (λ i. Entries.IsSorted (p i)) (λ i. IsSorted-IsProp (p i)) m.sorted n.sorted
          i;
  }

  -- A `collect` of pairs. Of two pairs with one key the source keeps the one that its iteration meets
  -- last, in no fixed order; here the first of the list stays.
  unfoldable pub collect : List (ℕ × V) → Map V
  collect [] = Map.empty
  collect ((k, v) ∷ es) = Map.insert (collect es) k v

  insert_front :
      (k : ℕ) (v : V) (es : List (ℕ × V))
      → Entries.AllAbove k es
      → Entries.insert k v es ≡ (k, v) ∷ es
  unfolding Entries.insert
  insert_front k v [] a = refl
  insert_front k v (e ∷ es) a = ground (arith, a)

  collect-sorted : (es : List (ℕ × V)) → Entries.IsSorted es → (collect es).entries ≡ es
  unfolding collect Map.insert Map.empty
  collect-sorted [] s = refl
  collect-sorted ((k, v) ∷ es) s =
      ap (Entries.insert k v) (collect-sorted es s.1) ∙ insert_front k v es s.0

  pub collect-entries : (m : Map V) → collect m.entries ≡ m
  collect-entries m = map_ext (collect m.entries) m (collect-sorted m.entries m.sorted)
