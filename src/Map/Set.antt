-- ===== src/Map/Set.antt =====
-- Sets of numbers, `HashSet` and `BTreeSet`: maps to the type with one value.
use rust_accelerator_no_sql.Prelude.{
  suc, refl, map, length, ap, ◌<◌, ◌∙◌, All, ℕ, ◌≡◌, Bool, true, false, List, [], ◌∷◌, ◌&&◌, ◌||◌,
  arith, ◌==◌, contains,
}
use rust_accelerator_no_sql.Map.Entries
use rust_accelerator_no_sql.Map.{
  len, Map, empty, insert, retain, contains_key, keys, contains_key-insert, get-retain, get-empty,
  contains-keys,
}

abbrev pub Set : Type 0
Set = Map (Unit {0})

unfoldable pub add : Set → ℕ → Set
unfolding insert
add s a = insert s a tt

-- `extend`, and `collect` into an empty set.
unfoldable pub extend : Set → List ℕ → Set
unfolding add
extend s [] = s
extend s (a ∷ ids) = add (extend s ids) a

unfoldable pub from_list : List ℕ → Set
unfolding extend empty
from_list ids = extend empty ids

unfoldable pub filter_set : (ℕ → Bool) → Set → Set
unfolding retain
filter_set f s = retain (λ a _. f a) s

pub list_eq : List ℕ → List ℕ → Bool
list_eq [] [] = true
list_eq [] (b ∷ bs) = false
list_eq (a ∷ ids) [] = false
list_eq (a ∷ ids) (b ∷ bs) = a == b && list_eq ids bs

pub list_eq→eq : (ids bs : List ℕ) → list_eq ids bs ≡ true → ids ≡ bs
unfolding list_eq
list_eq→eq [] [] h = ground arith
list_eq→eq [] (b ∷ bs) h = ground arith
list_eq→eq (a ∷ ids) [] h = ground arith
list_eq→eq (a ∷ ids) (b ∷ bs) h = ground (arith, list_eq→eq ids bs)

pub list_eq_refl : (ids : List ℕ) → list_eq ids ids ≡ true
unfolding list_eq
list_eq_refl [] = ground arith
list_eq_refl (a ∷ ids) = ground (arith, list_eq_refl ids)

-- `==` of two sets.
unfoldable pub set_eq : Set → Set → Bool
unfolding keys list_eq
set_eq s t = list_eq (keys s) (keys t)

pub contains_key-add : (s : Set) (a b : ℕ) → contains_key (add s a) b ≡ (a == b || contains_key s b)
unfolding add
contains_key-add s a b = contains_key-insert s a b tt

pub contains_key-empty : (a : ℕ) → contains_key (empty {V = Unit {0}}) a ≡ false
unfolding contains_key
contains_key-empty a = ground (arith, get-empty {0} {V = Unit {0}} a)

pub contains_key-extend :
    (s : Set) (ids : List ℕ) (b : ℕ)
    → contains_key (extend s ids) b ≡ (contains ids b || contains_key s b)
unfolding extend
contains_key-extend s [] b = ground arith
contains_key-extend s (a ∷ ids) b =
    ground (arith, contains_key-extend s ids b, contains_key-add (extend s ids) a b)

pub contains_key-from_list :
    (ids : List ℕ) (b : ℕ) → contains_key (from_list ids) b ≡ contains ids b
unfolding from_list contains_key
contains_key-from_list ids b =
    ground (arith, contains_key-extend empty ids b, get-empty {0} {V = Unit {0}} b)

pub contains_key-filter_set :
    (f : ℕ → Bool) (s : Set) (a : ℕ) → contains_key (filter_set f s) a ≡ (f a && contains_key s a)
unfolding filter_set contains_key
contains_key-filter_set f s a = ground (arith, get-retain (λ b _. f b) s a)

-- Equal sets have the same members.
pub set_eq-contains_key :
    (s t : Set) (a : ℕ) → set_eq s t ≡ true → contains_key s a ≡ contains_key t a
unfolding set_eq
set_eq-contains_key s t a h =
    ground (arith, list_eq→eq (keys s) (keys t), contains-keys s a, contains-keys t a)

-- A list in ascending order, as the keys of a map are.
abbrev pub IsAscending : List ℕ → Type 0
IsAscending [] = Unit
IsAscending (x ∷ xs) = All (λ y. x < y) xs × IsAscending xs

keys-insert_front {ℓ} :
    {V : Type ℓ} (m : Map V) (k : ℕ) (v : V)
    → All (λ j. k < j) (keys m)
    → keys (insert m k v) ≡ k ∷ keys m
unfolding keys insert Entries.insert
keys-insert_front {V} m k v h = front m.entries h
  where
    front :
        (es : List (ℕ × V))
        → All (λ j. k < j) (map (λ e. e.0) es)
        → map (λ e. e.0) (Entries.insert k v es) ≡ k ∷ map (λ e. e.0) es
    front [] a = refl
    front ((j, w) ∷ es) a = ground arith

pub keys-IsAscending {ℓ} : {V : Type ℓ} (m : Map V) → IsAscending (keys m)
unfolding keys
keys-IsAscending {V} m = ascending m.entries m.sorted
  where
    above :
        (k : ℕ) (es : List (ℕ × V)) → Entries.AllAbove k es → All (λ j. k < j) (map (λ e. e.0) es)
    above k [] a = tt
    above k (e ∷ es) a = (a.0, above k es a.1)

    ascending : (es : List (ℕ × V)) → Entries.IsSorted es → IsAscending (map (λ e. e.0) es)
    ascending [] s = tt
    ascending ((k, v) ∷ es) s = (above k es s.0, ascending es s.1)

pub keys-from_list : (ids : List ℕ) → IsAscending ids → keys (from_list ids) ≡ ids
unfolding from_list extend add keys empty
keys-from_list [] a = refl
keys-from_list (id ∷ ids) a =
    let ih : keys (extend empty ids) ≡ ids = keys-from_list ids a.1 in
    keys-insert_front (extend empty ids) id tt (rw ih a.0) ∙ ap (λ (l : List ℕ). id ∷ l) ih

pub len-keys {ℓ} : {V : Type ℓ} (m : Map V) → len m ≡ length (keys m)
unfolding len keys
len-keys {V} m = measure m.entries
  where
    measure : (es : List (ℕ × V)) → length es ≡ length (map (λ e. e.0) es)
    measure [] = refl
    measure (e ∷ es) = ap suc (measure es)

pub ruleset set_laws =
    (contains_key-add, contains_key-extend, contains_key-from_list, contains_key-filter_set)
