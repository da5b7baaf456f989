-- ===== src/Map/Entries.antt =====
-- Association lists with ascending keys: the representation of every map of the program.
use rust_accelerator_no_sql.Prelude.{
  ℕ, ◌<◌, ◌≡◌, refl, Bool, Option, none, some, List, [], ◌∷◌, map, arith, ltb, ◌==◌, if◌then◌else◌,
  map_option, is_some, All, contains, last, length, ◌≤◌,
}

module _ {ℓ} {V : Type ℓ} where
  -- Every key lies above `k`.
  abbrev pub AllAbove : ℕ → List (ℕ × V) → Type 0
  AllAbove k m = All (λ e. k < e.0) m

  abbrev pub IsSorted : List (ℕ × V) → Type 0
  IsSorted [] = Unit
  IsSorted ((k, v) ∷ m) = AllAbove k m × IsSorted m

  unfoldable pub lookup : ℕ → List (ℕ × V) → Option V
  lookup wanted [] = none
  lookup wanted ((key, value) ∷ es) = if key == wanted then some value else lookup wanted es

  unfoldable pub insert : ℕ → V → List (ℕ × V) → List (ℕ × V)
  insert key value [] = (key, value) ∷ []
  insert key value ((first, old) ∷ es) =
      if ltb key first
      then (key, value) ∷ (first, old) ∷ es
      else if key == first
      then (key, value) ∷ es
      else (first, old) ∷ insert key value es

  unfoldable pub retain : (ℕ → V → Bool) → List (ℕ × V) → List (ℕ × V)
  retain f [] = []
  retain f ((k, v) ∷ m) = let rest = retain f m in if f k v then (k, v) ∷ rest else rest

  abbrev pub keep : (ℕ → V → Bool) → ℕ → Option V → Option V
  keep f k none = none
  keep f k (some v) = if f k v then some v else none

  pub AllAbove-weaken : (i k : ℕ) (m : List (ℕ × V)) → i < k → AllAbove k m → AllAbove i m
  AllAbove-weaken i k [] h a = tt
  AllAbove-weaken i k ((j, v) ∷ m) h a = (omega arith, AllAbove-weaken i k m h a.1)

  pub lookup_above : (k : ℕ) (m : List (ℕ × V)) → AllAbove k m → lookup k m ≡ none
  unfolding lookup
  lookup_above k [] a = refl
  lookup_above k ((j, v) ∷ m) a = ground (arith, lookup_above k m)

  pub insert-AllAbove :
      (i k : ℕ) (v : V) (m : List (ℕ × V)) → i < k → AllAbove i m → AllAbove i (insert k v m)
  unfolding insert
  insert-AllAbove i k v [] h a = (h, tt)
  insert-AllAbove i k v ((j, w) ∷ m) h a = ground (arith, insert-AllAbove i k v m)

  pub insert-IsSorted : (k : ℕ) (v : V) (m : List (ℕ × V)) → IsSorted m → IsSorted (insert k v m)
  unfolding insert
  insert-IsSorted k v [] s = (tt, tt)
  insert-IsSorted k v ((j, w) ∷ m) s =
      ground (arith, insert-IsSorted k v m, insert-AllAbove j k v m, AllAbove-weaken k j m)

  pub lookup-insert :
      (key wanted : ℕ) (value : V) (es : List (ℕ × V))
      → lookup wanted (insert key value es)
        ≡ (if key == wanted then some value else lookup wanted es)
  unfolding lookup insert
  lookup-insert key wanted value [] = refl
  lookup-insert key wanted value ((first, old) ∷ es) =
      ground (arith, lookup-insert key wanted value es)

  pub retain-AllAbove :
      (f : ℕ → V → Bool) (i : ℕ) (m : List (ℕ × V)) → AllAbove i m → AllAbove i (retain f m)
  unfolding retain
  retain-AllAbove f i [] a = tt
  retain-AllAbove f i ((j, v) ∷ m) a = ground (arith, retain-AllAbove f i m)

  pub retain-IsSorted : (f : ℕ → V → Bool) (m : List (ℕ × V)) → IsSorted m → IsSorted (retain f m)
  unfolding retain
  retain-IsSorted f [] s = tt
  retain-IsSorted f ((j, v) ∷ m) s = ground (arith, retain-IsSorted f m, retain-AllAbove f j m)

  pub lookup-retain :
      (f : ℕ → V → Bool) (k : ℕ) (m : List (ℕ × V))
      → IsSorted m
      → lookup k (retain f m) ≡ keep f k (lookup k m)
  unfolding lookup retain
  lookup-retain f k [] s = refl
  lookup-retain f k ((j, v) ∷ m) s =
      ground (arith, lookup-retain f k m, lookup_above k m, retain-AllAbove f j m)

  pub contains-keys :
      (k : ℕ) (m : List (ℕ × V)) → contains (map (λ e. e.0) m) k ≡ is_some (lookup k m)
  unfolding lookup
  contains-keys k [] = refl
  contains-keys k ((j, v) ∷ m) = ground (arith, contains-keys k m)

  lookup-tail :
      (j : ℕ) (v : V) (whole m : List (ℕ × V))
      → AllAbove j m
      → All (λ e. lookup e.0 whole ≡ some e.1) m
      → All (λ e. lookup e.0 ((j, v) ∷ whole) ≡ some e.1) m
  unfolding lookup
  lookup-tail j v whole [] a h = tt
  lookup-tail j v whole ((k, w) ∷ m) a h =
      (ground (arith, a.0, h.0), lookup-tail j v whole m a.1 h.1)

  -- What the iterator yields is what a lookup finds.
  pub lookup_entries : (m : List (ℕ × V)) → IsSorted m → All (λ e. lookup e.0 m ≡ some e.1) m
  unfolding lookup
  lookup_entries [] s = tt
  lookup_entries ((j, v) ∷ m) s = (ground arith, lookup-tail j v m m s.0 (lookup_entries m s.1))

  -- `while front <= through { remove front }`.
  unfoldable pub drop_through : ℕ → List (ℕ × V) → List (ℕ × V)
  drop_through t [] = []
  drop_through t ((k, v) ∷ m) = let rest = drop_through t m in if ltb t k then (k, v) ∷ m else rest

  pub drop_through-IsSorted : (t : ℕ) (m : List (ℕ × V)) → IsSorted m → IsSorted (drop_through t m)
  unfolding drop_through
  drop_through-IsSorted t [] s = tt
  drop_through-IsSorted t ((k, v) ∷ m) s = ground (arith, drop_through-IsSorted t m)

  pub lookup-drop_through :
      (t k : ℕ) (m : List (ℕ × V))
      → IsSorted m
      → lookup k (drop_through t m) ≡ (if ltb t k then lookup k m else none)
  unfolding lookup drop_through
  lookup-drop_through t k [] s = ground arith
  lookup-drop_through t k ((j, v) ∷ m) s =
      ground (arith, lookup-drop_through t k m, lookup_above k m, AllAbove-weaken k j m)

  -- The two ways to skip agree on ascending keys, so a second skip further on does all the work.
  pub drop_through-drop_through :
      (t r : ℕ) (m : List (ℕ × V)) → t ≤ r → drop_through r (drop_through t m) ≡ drop_through r m
  unfolding drop_through
  drop_through-drop_through t r [] h = refl
  drop_through-drop_through t r ((j, v) ∷ m) h = ground (arith, drop_through-drop_through t r m)

  pub lookup-last :
      (m : List (ℕ × V)) {k : ℕ} {v : V} → IsSorted m → last m ≡ some (k, v) → lookup k m ≡ some v
  unfolding lookup
  lookup-last [] s h = ground arith
  lookup-last ((j, w) ∷ []) s h = ground arith
  lookup-last ((j, w) ∷ (i, u) ∷ m) {k} {v} s h =
      let above : j < k = last-above ((i, u) ∷ m) s.0 h in
      ground (arith, above, lookup-last ((i, u) ∷ m) {k = k} {v = v} s.1 h)
    where
      last-above : (m : List (ℕ × V)) → AllAbove j m → last m ≡ some (k, v) → j < k
      last-above [] a e = ground arith
      last-above ((i, u) ∷ []) a e = ground arith
      last-above ((i, u) ∷ (i', u') ∷ m) a e = last-above ((i', u') ∷ m) a.1 e

  pub last-lookup :
      (m : List (ℕ × V)) {k : ℕ} {v : V} → length m ≤ 1 → lookup k m ≡ some v → last m ≡ some (k, v)
  unfolding lookup
  last-lookup [] l h = ground arith
  last-lookup ((j, w) ∷ []) l h = ground arith
  last-lookup ((j, w) ∷ e ∷ m) l h = absurd (omega arith)

module _ {ℓ κ} {V : Type ℓ} {W : Type κ} where
  unfoldable pub map_values : (ℕ → V → W) → List (ℕ × V) → List (ℕ × W)
  map_values f [] = []
  map_values f ((k, v) ∷ m) = (k, f k v) ∷ map_values f m

  pub map_values-AllAbove :
      (f : ℕ → V → W) (i : ℕ) (m : List (ℕ × V)) → AllAbove i m → AllAbove i (map_values f m)
  unfolding map_values
  map_values-AllAbove f i [] a = tt
  map_values-AllAbove f i ((j, v) ∷ m) a = (a.0, map_values-AllAbove f i m a.1)

  pub map_values-IsSorted :
      (f : ℕ → V → W) (m : List (ℕ × V)) → IsSorted m → IsSorted (map_values f m)
  unfolding map_values
  map_values-IsSorted f [] s = tt
  map_values-IsSorted f ((j, v) ∷ m) s =
      (map_values-AllAbove f j m s.0, map_values-IsSorted f m s.1)

  pub lookup-map_values :
      (f : ℕ → V → W) (k : ℕ) (m : List (ℕ × V))
      → lookup k (map_values f m) ≡ map_option (f k) (lookup k m)
  unfolding lookup map_values
  lookup-map_values f k [] = refl
  lookup-map_values f k ((j, v) ∷ m) = ground (arith, lookup-map_values f k m)
