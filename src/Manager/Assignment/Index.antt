-- ===== src/Manager/Assignment/Index.antt =====
-- `calc_replica_index` in closed form.
use native.Mathlib.Nat.{mod-lt, mod-eq_of_lt, mod-eq-sub-mod, add-mod_right}
use rust_accelerator_no_sql.Prelude.{
  ap, ltb, sym, zero, inr, ◌∙◌, inl, leb, Bool-cases, suc, ◌-◌, arith, ◌+◌, ◌%◌, ◌≡◌, ◌≤◌, ◌<◌, ℕ,
}
use rust_accelerator_no_sql.Manager.Assignment.{calc_replica_index, reduce_replica}

reduce_replica-mod : (fuel n r : ℕ) → r ≤ fuel → 0 < n → reduce_replica fuel n r ≡ r % n
unfolding reduce_replica
reduce_replica-mod zero n r h p = grind arith
reduce_replica-mod (suc fuel) n r h p = elim (Bool-cases (leb n r)) [
  | inl more ↦
      rw more
        (reduce_replica-mod fuel n (r - n) (ground arith) p ∙ sym (mod-eq-sub-mod (ground arith)))
  | inr less ↦ rw less (sym (mod-eq_of_lt (ground arith)))
]

-- A step of `k` places backwards from `m`, which passes the start of the list or does not.
step_round : (n m k : ℕ) → m < k → k < n → n - (k - m) ≡ (m + n - k) % n
step_round n m k h below = omega arith ∙ sym (mod-eq_of_lt {n = m + n - k} {m = n} (omega arith))

step_back : (n m k : ℕ) → k ≤ m → m < n → m - k ≡ (m + n - k) % n
step_back n m k h below =
    sym (mod-eq_of_lt {n = m - k} {m = n} (omega arith))
    ∙ (sym (add-mod_right (m - k) n) ∙ ap (λ (x : ℕ). x % n) (omega arith))

-- For a master's place `m` among `n` workers, replica `r` has the place `m - r`, counted round: the
-- subtraction loop and the branch compute `(m + n - r % n) % n`.
pub calc_replica_index_lem : (n m r : ℕ) → m < n → calc_replica_index n m r ≡ (m + n - r % n) % n
unfolding calc_replica_index
calc_replica_index_lem n m r h =
    let e : reduce_replica r n r ≡ r % n = reduce_replica-mod r n r (omega arith) (omega arith) in
    let below : r % n < n = mod-lt r (omega arith) in
    elim (Bool-cases (ltb m (r % n))) [
      | inl wraps ↦ rw (e, wraps) (step_round n m (r % n) (ground arith) below)
      | inr direct ↦ rw (e, direct) (step_back n m (r % n) (ground arith) h)
    ]

pub calc_replica_index-lt : (n m r : ℕ) → m < n → calc_replica_index n m r < n
calc_replica_index-lt n m r h =
    rw (calc_replica_index_lem n m r h) (mod-lt (m + n - r % n) (omega arith))

-- For a master's place below `n`, two of the first `n` replicas that have one place are one replica.
pub calc_replica_index_injective :
    (n m r s : ℕ)
    → m < n
    → r < n
    → s < n
    → calc_replica_index n m r ≡ calc_replica_index n m s
    → r ≡ s
unfolding calc_replica_index
calc_replica_index_injective n m r s h p q e =
    let er : reduce_replica r n r ≡ r =
      reduce_replica-mod r n r (omega arith) (omega arith) ∙ mod-eq_of_lt p in
    let es : reduce_replica s n s ≡ s =
      reduce_replica-mod s n s (omega arith) (omega arith) ∙ mod-eq_of_lt q in
    ground arith
