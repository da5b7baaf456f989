-- ===== src/Store/Examples.antt =====
-- Runs of the store's theorems on a store of two keys of one partition.
use rust_accelerator_no_sql.Map.Entries
use rust_accelerator_no_sql.Map
use rust_accelerator_no_sql.Map.{Map}
use rust_accelerator_no_sql.Prelude.{
  ◌≤◌, length, u64_mod, ◌<◌, ◌+◌, ◌==◌, ◌≢◌, inr, inl, arith, if◌then◌else◌, ◌∷◌, [], List, some,
  none, ◌≡◌,
}
use rust_accelerator_no_sql.Store.{
  compare_insert, default_partition, writer, drop_writer, with_partition, partition_or_default,
  partition, remove_expired, prune_partition_changes, PartitionStore, write, delete_mutation,
  put_mutation, Key, get_versioned, get_partition_changes, version, new, RuntimeStore, Mutation,
}
use rust_accelerator_no_sql.Store.Lww.{records_of, write_twice, stored}
use rust_accelerator_no_sql.Store.Journal.{
  write-IsConsistent, get_partition_changes-prune, IsConsistent,
}
use rust_accelerator_no_sql.Store.Expiry.{get_versioned_lem, stored-remove_expired, live}
use rust_accelerator_no_sql.Store.Convergence.{write_all_converge, write_all, IsIn}

abbrev old_put : Mutation
old_put = put_mutation (record { value = 1 ∷ []; expiration_time_ms = 50; creation_time_ms = 10 })

abbrev new_put : Mutation
new_put = put_mutation (record { value = 2 ∷ []; expiration_time_ms = 0; creation_time_ms = 20 })

abbrev deletion : Mutation
deletion = delete_mutation 30

abbrev two_keys : RuntimeStore
two_keys = write (write new 7 old_put) 4103 new_put

empty-IsConsistent : IsConsistent new
unfolding new
empty-IsConsistent id p h = absurd (ground (arith, h, Map.get-empty {0} {V = PartitionStore} id))

new_bounded : new.next_revision + 1 < u64_mod
unfolding new
new_bounded = omega arith

write_twice_example :
    stored (write (write two_keys 7 deletion) 7 deletion) 7 ≡ stored (write two_keys 7 deletion) 7
write_twice_example = write_twice two_keys 7 7 deletion

versions_differ : version old_put ≢ version deletion
unfolding version
versions_differ h = absurd (omega (arith, h))

write-IsConsistent_example :
    IsConsistent (write new 7 old_put)
    × ((p : PartitionStore) × (Map.get (write new 7 old_put).cache (partition 7) ≡ some p)
        × (p.revision ≡ new.next_revision + 1)
        × (Map.get p.changes (new.next_revision + 1) ≡ some 7))
write-IsConsistent_example = write-IsConsistent new 7 old_put new_bounded empty-IsConsistent

get_partition_changes-prune_example :
    (get_partition_changes (prune_partition_changes two_keys 7 1) 7 1 16
      ≡ get_partition_changes two_keys 7 1 16)
    × (stored (prune_partition_changes two_keys 7 1) 7 ≡ stored two_keys 7)
get_partition_changes-prune_example = get_partition_changes-prune two_keys 7 1 1 16 7 (omega arith)

get_versioned_lem_example :
    ((get_versioned two_keys 7 60).1 ≡ live 60 (stored two_keys 7))
    × (stored (get_versioned two_keys 7 60).0 4103
        ≡ (if 7 == 4103 then live 60 (stored two_keys 7) else stored two_keys 4103))
get_versioned_lem_example = get_versioned_lem two_keys 7 4103 60

stored-remove_expired_example :
    stored (remove_expired two_keys 60).0 7 ≡ live 60 (stored two_keys 7)
stored-remove_expired_example = stored-remove_expired two_keys 60 7

abbrev one_order : List (Key × Mutation)
one_order = (7, old_put) ∷ (7, deletion) ∷ []

abbrev other_order : List (Key × Mutation)
other_order = (7, deletion) ∷ (7, old_put) ∷ (7, deletion) ∷ []

nothing_stored : stored new 7 ≡ none
unfolding new stored
nothing_stored = ground (arith, Map.get-empty {0} {V = PartitionStore} (partition 7))

one-IsIn_other : (m : Mutation) → IsIn 7 m one_order → IsIn 7 m other_order
one-IsIn_other m (inl e) = inr (inl e)
one-IsIn_other m (inr (inl e)) = inl e
one-IsIn_other m (inr (inr e)) = absurd e

other-IsIn_one : (m : Mutation) → IsIn 7 m other_order → IsIn 7 m one_order
other-IsIn_one m (inl e) = inr (inl e)
other-IsIn_one m (inr (inl e)) = inl e
other-IsIn_one m (inr (inr (inl e))) = inr (inl e)
other-IsIn_one m (inr (inr (inr e))) = absurd e

distinct_versions :
    (m m' : Mutation) → IsIn 7 m one_order → IsIn 7 m' one_order → version m ≡ version m' → m ≡ m'
unfolding version
distinct_versions m m' h h' e = ground (arith, h, h', e)

write_all_converge_example :
    stored (write_all new one_order) 7 ≡ stored (write_all new other_order) 7
write_all_converge_example =
    write_all_converge one_order other_order new new 7 nothing_stored nothing_stored one-IsIn_other
      other-IsIn_one distinct_versions

two_at_most : length (records_of two_keys 7).entries ≤ 2
unfolding write new partition partition_or_default with_partition drop_writer writer
    default_partition compare_insert version Map.get Map.insert Map.empty Entries.insert
    Entries.lookup
two_at_most = omega arith
