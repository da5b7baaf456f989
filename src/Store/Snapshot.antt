-- ===== src/Store/Snapshot.antt =====
-- The snapshot of a partition: the batches of `get_partition_mutations`, each after the last key of
-- the one before, as `start_sync` and `continue_confirmed_sync` ask for them.
use rust_accelerator_no_sql.Map
use rust_accelerator_no_sql.Map.Entries
use rust_accelerator_no_sql.Map.{Map}
use rust_accelerator_no_sql.Prelude.{
  unwrap_or, ℕ, zero, suc, ◌≡◌, ◌<◌, ◌≤◌, refl, sym, ap, ◌∙◌, arith, List, [], ◌∷◌, ◌++◌, Option,
  none, some, last, take, length, inl, inr, Option-cases, length-append,
}
use rust_accelerator_no_sql.Store.{
  PartitionStore, partition_or_default, default_partition, Key, Mutation, RuntimeStore,
  get_partition_mutations, skip_through,
}
use rust_accelerator_no_sql.Common.{PartitionId}
use rust_accelerator_no_sql.Store.Lww.{records_of}

module _ {ℓ} {V : Type ℓ} where
  last_above :
      (n t : ℕ) (es : List (ℕ × V)) {k : ℕ} {v : V}
      → Entries.AllAbove t es
      → last (take n es) ≡ some (k, v)
      → t < k
  last_above zero t es a h = ground arith
  last_above (suc n) t [] a h = ground arith
  last_above (suc zero) t (e ∷ es) a h = ground (arith, a.0)
  last_above (suc (suc n)) t (e ∷ []) a h = ground (arith, a.0)
  last_above (suc (suc n)) t (e ∷ e' ∷ es) a h = last_above (suc n) t (e' ∷ es) a.1 h

  drop_through-AllAbove :
      (t : ℕ) (es : List (ℕ × V))
      → Entries.IsSorted es
      → Entries.AllAbove t (Entries.drop_through t es)
  unfolding Entries.drop_through
  drop_through-AllAbove t [] s = tt
  drop_through-AllAbove t ((j, v) ∷ es) s =
      ground (arith, drop_through-AllAbove t es, Entries.AllAbove-weaken t j es, s)

  drop_through_above :
      (t : ℕ) (es : List (ℕ × V)) → Entries.AllAbove t es → Entries.drop_through t es ≡ es
  unfolding Entries.drop_through
  drop_through_above t [] a = refl
  drop_through_above t ((j, v) ∷ es) a = ground (arith, a.0)

  drop_through_first :
      (t j : ℕ) (v : V) (es : List (ℕ × V))
      → j ≤ t
      → Entries.drop_through t ((j, v) ∷ es) ≡ Entries.drop_through t es
  unfolding Entries.drop_through
  drop_through_first t j v es h = ground (arith, h)

  -- A page and what is left behind its last key are the whole list.
  page_and_rest :
      (n : ℕ) (es : List (ℕ × V)) {k : ℕ} {v : V}
      → Entries.IsSorted es
      → last (take (suc n) es) ≡ some (k, v)
      → take (suc n) es ++ Entries.drop_through k es ≡ es
  page_and_rest n [] s h = ground arith
  page_and_rest zero ((j, u) ∷ es) {k} {v} s h =
      let e : j ≡ k = ground arith in
      let above : Entries.AllAbove k es = rw (← e) s.0 in
      ap (λ r. (j, u) ∷ r)
        (drop_through_first k j u es (omega arith) ∙ drop_through_above k es above)
  page_and_rest (suc n) ((j, u) ∷ []) {k} {v} s h =
      let e : j ≡ k = ground arith in
      ap (λ r. (j, u) ∷ r) (drop_through_first k j u [] (omega arith) ∙ drop_through_above k [] tt)
  page_and_rest (suc n) ((j, u) ∷ e ∷ es) {k} {v} s h =
      let above : j < k = last_above (suc n) j (e ∷ es) {k = k} {v = v} s.0 h in
      let ih = page_and_rest n (e ∷ es) {k = k} {v = v} s.1 h in
      ap (λ r. (j, u) ∷ r)
        (ap (λ r. take (suc n) (e ∷ es) ++ r) (drop_through_first k j u (e ∷ es) (omega arith))
          ∙ ih)

  no_page : (n : ℕ) (es : List (ℕ × V)) → last (take (suc n) es) ≡ none → es ≡ []
  no_page n [] h = refl
  no_page zero (e ∷ es) h = ground arith
  no_page (suc n) (e ∷ []) h = ground arith
  no_page (suc n) (e ∷ e' ∷ es) h = absurd (ground (arith, no_page n (e' ∷ es) h))

  page_length : (es : List (ℕ × V)) {e : ℕ × V} → last es ≡ some e → 0 < length es
  page_length [] h = ground arith
  page_length (x ∷ es) h = omega arith

  nothing_left : (es : List (ℕ × V)) → length es ≤ 0 → es ≡ []
  nothing_left [] h = refl
  nothing_left (x ∷ es) h = absurd (omega (arith, h))

page_of :
    (o : Option PartitionStore) (n : ℕ) (after : Option Key)
    → elim o [ none ↦ [] | some p ↦ take (suc n) (skip_through after p.records) ]
      ≡ take (suc n) (skip_through after (unwrap_or o default_partition).records)
unfolding default_partition skip_through Map.empty Map.drop_through Entries.drop_through
page_of none n none = refl
page_of none n (some t) = refl
page_of (some p) n after = refl

page-records :
    (store : RuntimeStore) (id : PartitionId) (n : ℕ) (after : Option Key)
    → get_partition_mutations store id (suc n) after
      ≡ take (suc n) (skip_through after (records_of store id))
unfolding get_partition_mutations partition_or_default
page-records store id n after = page_of (Map.get store.cache id) n after

-- The batches of a snapshot of `amount` mutations each, one after the other, for `fuel` batches.
unfoldable pub copied : ℕ → RuntimeStore → PartitionId → ℕ → Option Key → List (Key × Mutation)
copied zero store id amount after = []
copied (suc fuel) store id amount after =
    elim (last (get_partition_mutations store id amount after)) [
      | none ↦ []
      | some (key, _) ↦
          get_partition_mutations store id amount after ++ copied fuel store id amount (some key)
    ]

rest_after :
    (records : Map Mutation) (after : Option Key) (n : ℕ) {k : Key} {m : Mutation}
    → last (take (suc n) (skip_through after records)) ≡ some (k, m)
    → (take (suc n) (skip_through after records) ++ skip_through (some k) records
        ≡ skip_through after records)
unfolding skip_through Map.drop_through
rest_after records none n {k} {m} h =
    page_and_rest n records.entries {k = k} {v = m} records.sorted h
rest_after records (some t) n {k} {m} h =
    let es = Entries.drop_through t records.entries in
    let above : t < k =
      last_above (suc n) t es {k = k} {v = m}
        (drop_through-AllAbove t records.entries records.sorted) h in
    ap (λ r. take (suc n) es ++ r)
      (sym (Entries.drop_through-drop_through t k records.entries (omega arith)))
    ∙ page_and_rest n es {k = k} {v = m}
        (Entries.drop_through-IsSorted t records.entries records.sorted) h

copied_rest :
    (fuel : ℕ) (store : RuntimeStore) (id : PartitionId) (n : ℕ) (after : Option Key)
    → length (skip_through after (records_of store id)) ≤ fuel
    → copied fuel store id (suc n) after ≡ skip_through after (records_of store id)
unfolding copied
copied_rest zero store id n after h =
    sym (nothing_left (skip_through after (records_of store id)) h)
copied_rest (suc fuel) store id n after h =
    let paged = page-records store id n after in
    let records = records_of store id in
    elim (Option-cases (last (get_partition_mutations store id (suc n) after))) [
      | inl e ↦
          rw (e, copied) (sym (no_page n (skip_through after records) (sym (ap last paged) ∙ e)))
      | inr ((k, m), e) ↦
          let found : last (take (suc n) (skip_through after records)) ≡ some (k, m) =
            sym (ap last paged) ∙ e in
          let whole = rest_after records after n {k = k} {m = m} found in
          let some_page =
            page_length (take (suc n) (skip_through after records)) {e = (k, m)} found in
          let sum =
            length-append (take (suc n) (skip_through after records))
              (skip_through (some k) records) in
          let ih =
            copied_rest fuel store id n (some k)
              (omega (arith, sum, ap length whole, some_page, h)) in
          rw (e, copied)
            (ap (λ page. page ++ copied fuel store id (suc n) (some k)) paged
              ∙ (ap (λ rest. take (suc n) (skip_through after records) ++ rest) ih ∙ whole))
    ]

-- The batches of a snapshot, of at least one mutation each, are together the records of the
-- partition, each once and in the order of their keys; no more batches are needed than there are
-- records.
pub copied_is_complete :
    (fuel : ℕ) (store : RuntimeStore) (id : PartitionId) (n : ℕ)
    → length (records_of store id).entries ≤ fuel
    → copied fuel store id (suc n) none ≡ (records_of store id).entries
unfolding skip_through
copied_is_complete fuel store id n h = copied_rest fuel store id n none h
