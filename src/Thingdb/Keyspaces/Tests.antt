-- ===== src/Thingdb/Keyspaces/Tests.antt =====
-- Batches in both modes.
use thingd.Base.{
  codes, ◌≡◌, refl, true, false, none, some, List, [], ◌∷◌, ◌++◌, map, arith, nat_ord, list_ord,
  pair_ord, list_beq, list_blt,
}
use thingd.Base.{pair_beq}
use thingd.Base.BTreeMap.{get, insert, remove, weigh}
use thingd.Thingdb.Codec.{ok, err, invalid_memory_keyspace, invalid_memory_key}
use thingd.Thingdb.Wal.{put, delete, Operation, apply_operation, apply_operations}
use thingd.Thingdb.Keys.{physical_key, namespace, physical_key_from_namespace}
use thingd.Thingdb.Keyspaces.{
  Keyspaces, PendingTable, is_keyspace_name, batch_key, batch_put, batch_delete, entries_of,
  write_entry, validate_memory_batch_operation, apply_memory_batch_operation, validate_all,
  apply_all, commit_memory, to_operation, split_nul, operation_key, operation_value, split_key,
  validate_memory_operation, apply_memory_operation, value_bytes, entry_bytes, replaced_bytes,
  apply_operation_with_pending,
}
use thingd.Thingdb.Keyspaces.Pending.{
  apply_all_pending, IsAccounted, total_size, overlay, apply_all_pending-IsAccounted,
}
use thingd.Thingdb.Keyspaces.Modes.{Change, add, batch_of, Agree, commit-Agree}

program : Unit {0}
unfolding is_keyspace_name batch_key batch_put batch_delete entries_of write_entry
    validate_memory_batch_operation apply_memory_batch_operation validate_all apply_all
    commit_memory to_operation split_nul operation_key operation_value split_key
    validate_memory_operation apply_memory_operation value_bytes entry_bytes replaced_bytes
    apply_operation_with_pending apply_all_pending total_size overlay add batch_of physical_key
    namespace physical_key_from_namespace apply_operation apply_operations get insert remove weigh
    list_beq list_blt pair_beq
program = tt

abbrev changes : List Change
changes =
    (codes "u", codes "a", some (codes "1"))
    ∷ (codes "v", codes "a", some (codes "2"))
    ∷ (codes "u", codes "a", none)
    ∷ []

commit-Agree_example :
    (after : Keyspaces) × (commit_memory [] (batch_of true [] changes) ≡ ok after)
    × Agree (apply_operations [] (map to_operation (batch_of false [] changes))) after
unfolding program
commit-Agree_example = commit-Agree [] [] changes (λ n k c. refl) (refl, (refl, (refl, tt)))

-- The same, read off.
both_modes :
    (commit_memory [] (batch_of true [] changes)
      ≡ ok ((codes "u", []) ∷ (codes "v", (codes "a", codes "2") ∷ []) ∷ []))
    × (apply_operations [] (map to_operation (batch_of false [] changes))
        ≡ (physical_key (codes "v") (codes "a"), codes "2") ∷ [])
unfolding program
both_modes = (refl, refl)

-- Operations of the log, applied to the keyspaces in memory.
memory_operations :
    (apply_memory_operation
        (λ name. true)
        []
        (put (physical_key (codes "u") (codes "a")) (codes "1"))
      ≡ ok ((codes "u", (codes "a", codes "1") ∷ []) ∷ []))
    × (validate_memory_operation (λ name. true) (delete (codes "u")) ≡ err invalid_memory_key)
    × (validate_memory_operation (λ name. false) (delete (codes "u" ++ 0 ∷ []))
        ≡ err invalid_memory_keyspace)
unfolding program
memory_operations = (refl, refl, refl)

abbrev table : PendingTable
table = record { state = (codes "k", codes "v") ∷ []; pending = []; pending_bytes = 0 }

abbrev ops : List Operation
ops = put (codes "k") (codes "long") ∷ put (codes "l") (codes "w") ∷ delete (codes "k") ∷ []

apply_all_pending-IsAccounted_example : IsAccounted (apply_all_pending table ops)
unfolding program
apply_all_pending-IsAccounted_example =
    apply_all_pending-IsAccounted table ops (tt, refl) (omega arith)

pending_size : (apply_all_pending table ops).pending_bytes ≡ 5
unfolding program
pending_size = refl
