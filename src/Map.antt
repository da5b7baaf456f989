-- ===== src/Map.antt =====
-- Finite maps and sets by ascending number keys: `HashMap`, `BTreeMap`, `SkipMap`, `DashMap` and
-- `HashSet`, `BTreeSet` of the program. A map has one representation, so equal maps are equal
-- lists. `HashMap` iterates in no fixed order; here it is the ascending one.
pub mod Entries
pub mod Set
pub mod Extensionality
use rust_accelerator_no_sql.Prelude.{
  ltb, ℕ, ◌≤◌, ◌≡◌, Bool, Option, none, some, List, [], ◌∷◌, map, not, ◌&&◌, false, true, arith,
  ◌==◌, if◌then◌else◌, map_option, is_some, contains, last, length, All, ◌||◌, refl,
}
use Entries

pub record Map {ℓ} (V : Type ℓ) : Type ℓ where
  pub entries : List (ℕ × V)
  pub sorted : Entries.IsSorted entries

module _ {ℓ} {V : Type ℓ} where
  unfoldable pub empty : Map V
  empty = record { entries = []; sorted = tt }

  unfoldable pub get : Map V → ℕ → Option V
  unfolding Entries.lookup
  get m k = Entries.lookup k m.entries

  unfoldable pub insert : Map V → ℕ → V → Map V
  unfolding Entries.insert
  insert m k v = record {
    entries = Entries.insert k v m.entries;
    sorted = Entries.insert-IsSorted k v m.entries m.sorted;
  }

  unfoldable pub retain : (ℕ → V → Bool) → Map V → Map V
  unfolding Entries.retain
  retain f m = record {
    entries = Entries.retain f m.entries;
    sorted = Entries.retain-IsSorted f m.entries m.sorted;
  }

  unfoldable pub remove : Map V → ℕ → Map V
  unfolding retain
  remove m k = retain (λ j _. not (k == j)) m

  -- Without the keys up to `through`, which an iteration from the front removes or skips.
  unfoldable pub drop_through : ℕ → Map V → Map V
  unfolding Entries.drop_through
  drop_through through m = record {
    entries = Entries.drop_through through m.entries;
    sorted = Entries.drop_through-IsSorted through m.entries m.sorted;
  }

  unfoldable pub contains_key : Map V → ℕ → Bool
  unfolding get
  contains_key m k = is_some (get m k)

  unfoldable pub keys : Map V → List ℕ
  keys m = map (λ e. e.0) m.entries

  unfoldable pub values : Map V → List V
  values m = map (λ e. e.1) m.entries

  unfoldable pub is_empty : Map V → Bool
  is_empty m = elim m.entries [ [] ↦ true | _ ∷ _ ↦ false ]

  unfoldable pub len : Map V → ℕ
  len m = length m.entries

  -- `last_key_value` of a `BTreeMap`.
  unfoldable pub last_entry : Map V → Option (ℕ × V)
  last_entry m = last m.entries

  pub get-empty : (k : ℕ) → get empty k ≡ none
  unfolding get empty
  get-empty k = ground arith

  pub get-insert :
      (m : Map V) (k j : ℕ) (v : V) → get (insert m k v) j ≡ (if k == j then some v else get m j)
  unfolding get insert
  get-insert m k j v = Entries.lookup-insert k j v m.entries

  pub get-retain :
      (f : ℕ → V → Bool) (m : Map V) (k : ℕ) → get (retain f m) k ≡ Entries.keep f k (get m k)
  unfolding get retain
  get-retain f m k = Entries.lookup-retain f k m.entries m.sorted

  pub get-drop_through :
      (t : ℕ) (m : Map V) (k : ℕ) → get (drop_through t m) k ≡ (if ltb t k then get m k else none)
  unfolding get drop_through
  get-drop_through t m k = Entries.lookup-drop_through t k m.entries m.sorted

  pub drop_through-entries :
      (t r : ℕ) (m : Map V)
      → t ≤ r
      → (drop_through r (drop_through t m)).entries ≡ (drop_through r m).entries
  unfolding drop_through
  drop_through-entries t r m h = Entries.drop_through-drop_through t r m.entries h

  pub get-remove : (m : Map V) (k j : ℕ) → get (remove m k) j ≡ (if k == j then none else get m j)
  unfolding remove
  get-remove m k j = ground (arith, get-retain (λ i _. not (k == i)) m j)

  pub contains_key-insert :
      (m : Map V) (k j : ℕ) (v : V) → contains_key (insert m k v) j ≡ (k == j || contains_key m j)
  unfolding contains_key
  contains_key-insert m k j v = ground (arith, get-insert m k j v)

  pub contains_key-remove :
      (m : Map V) (k j : ℕ) → contains_key (remove m k) j ≡ (not (k == j) && contains_key m j)
  unfolding contains_key
  contains_key-remove m k j = ground (arith, get-remove m k j)

  pub contains_key-some : (m : Map V) (k : ℕ) {v : V} → get m k ≡ some v → contains_key m k ≡ true
  unfolding contains_key
  contains_key-some m k h = ground arith

  -- What the iterator yields is what a lookup finds.
  pub get_entries : (m : Map V) → All (λ e. get m e.0 ≡ some e.1) m.entries
  unfolding get
  get_entries m = Entries.lookup_entries m.entries m.sorted

  pub get-last_entry : (m : Map V) {k : ℕ} {v : V} → last_entry m ≡ some (k, v) → get m k ≡ some v
  unfolding get last_entry
  get-last_entry m h = Entries.lookup-last m.entries m.sorted h

  -- In a map with one entry at most, what is found is the last entry.
  pub last_entry-get :
      (m : Map V) {k : ℕ} {v : V} → len m ≤ 1 → get m k ≡ some v → last_entry m ≡ some (k, v)
  unfolding get len last_entry
  last_entry-get m l h = Entries.last-lookup m.entries l h

  -- A key that is there already is replaced, so such a map keeps its one entry.
  pub len-insert_single :
      (m : Map V) (k : ℕ) {v : V} (w : V) → len m ≤ 1 → get m k ≡ some v → len (insert m k w) ≤ 1
  unfolding get len insert Entries.insert Entries.lookup
  len-insert_single m k w l h = single m.entries l h
    where
      single :
          (es : List (ℕ × V)) {v : V}
          → length es ≤ 1
          → Entries.lookup k es ≡ some v
          → length (Entries.insert k w es) ≤ 1
      single [] l h = omega arith
      single ((j, u) ∷ []) l h = ground arith
      single ((j, u) ∷ e ∷ es) l h = absurd (omega arith)

  pub get-is_empty : (m : Map V) (k : ℕ) → is_empty m ≡ true → get m k ≡ none
  unfolding get is_empty Entries.lookup
  get-is_empty m k h = empty_list m.entries h
    where
      empty_list :
          (l : List (ℕ × V))
          → elim l [ [] ↦ true | _ ∷ _ ↦ false ] ≡ true
          → Entries.lookup k l ≡ none
      empty_list [] e = refl
      empty_list (x ∷ l) e = ground arith

  pub contains_key-is_empty : (m : Map V) (k : ℕ) → is_empty m ≡ true → contains_key m k ≡ false
  unfolding contains_key
  contains_key-is_empty m k h = ground (arith, get-is_empty m k h)

  pub contains-keys : (m : Map V) (k : ℕ) → contains (keys m) k ≡ contains_key m k
  unfolding keys contains_key get
  contains-keys m k = Entries.contains-keys k m.entries

module _ {ℓ κ} {V : Type ℓ} {W : Type κ} where
  unfoldable pub map_values : (ℕ → V → W) → Map V → Map W
  unfolding Entries.map_values
  map_values f m = record {
    entries = Entries.map_values f m.entries;
    sorted = Entries.map_values-IsSorted f m.entries m.sorted;
  }

  pub get-map_values :
      (f : ℕ → V → W) (m : Map V) (k : ℕ) → get (map_values f m) k ≡ map_option (f k) (get m k)
  unfolding get map_values
  get-map_values f m k = Entries.lookup-map_values f k m.entries

pub ruleset contains_laws = (contains_key-insert, contains_key-remove, contains_key-some)

pub ruleset map_laws = (get-empty, get-insert, get-retain, get-remove, get-map_values)
