-- ===== src/Thingdb/Tables/Tests.antt =====
-- Runs of the table layers on a few keys.
use thingd.Base.{
  ◌≡◌, refl, true, false, none, some, List, [], ◌∷◌, arith, nat_ord, list_ord, pair_ord, list_beq,
  list_blt,
}
use thingd.Base.BTreeMap.{get, insert, remove}
use thingd.Thingdb.Wal.{put, delete, absorb, apply_operations, apply_operation}
use thingd.Thingdb.Keyspaces.{
  write_entry, operation_key, operation_value, apply_operation_with_pending, entry_bytes,
  value_bytes, replaced_bytes,
}
use thingd.Thingdb.Keyspaces.Pending.{apply_all_pending}
use thingd.Thingdb.Wal.Recovery.{Log}
use thingd.Thingdb.Tables.{
  written, load, truncate, publish, name_tables, materialize_state, add_entries, add_layers,
  add_values, present, read, guarded, compacted, Layer, Inner, no_fault, unread, unsynced,
  get_durable_value, flat, layer_value, compact_tables, flush_table, commit, open_locked, replayed,
  reopened,
}
use thingd.Thingdb.Codec.{err, file_failure}
use thingd.Thingdb.Tables.Worker.{flush_round, compact_layers, stop_on_error}
use thingd.Thingdb.Tables.Group.{
  Limits, GroupEvents, to_state, process_group, flush_before, admitted, execute_group, stopped,
  flush_after, compact_after, commit_all,
}
use thingd.Thingdb.Tables.{Fault, unpublished, unread, flushed, flush_table}
use thingd.Thingdb.Tables.Session.{step}
use thingd.Thingdb.Tables.Session.{Step, write, flush, compact, work, run}
use thingd.Thingdb.Tables.Compaction.{compact_tables-get}
use thingd.Thingdb.Tables.Reopened.{flush_table_loses}
use thingd.Thingdb.Tables.Deleted.{open_locked_resurrects}

abbrev old_table : Layer
old_table = (1 ∷ [], some (10 ∷ [])) ∷ (2 ∷ [], some (20 ∷ [])) ∷ []

abbrev new_table : Layer
new_table = (2 ∷ [], none) ∷ (3 ∷ [], some (30 ∷ [])) ∷ []

abbrev tables : List Layer
tables = old_table ∷ new_table ∷ []

abbrev two_logged : Log
two_logged = (8, put (4 ∷ []) (40 ∷ []) ∷ []) ∷ (9, put (5 ∷ []) (50 ∷ []) ∷ []) ∷ []

abbrev engine : Inner
engine = commit (delete (1 ∷ []) ∷ put (5 ∷ []) (51 ∷ []) ∷ []) (open_locked tables 7 two_logged)

test_merged : get_durable_value (compact_tables no_fault engine).0 (5 ∷ []) ≡ some (51 ∷ [])
unfolding get_durable_value read compact_tables guarded compacted written load truncate publish
    name_tables materialize_state add_entries add_layers add_values present flat layer_value
    entry_bytes value_bytes replaced_bytes open_locked replayed absorb apply_operations
    apply_operation commit apply_all_pending apply_operation_with_pending write_entry insert remove
    operation_key operation_value get list_beq list_blt
test_merged = refl

compact_tables-get_example :
    get_durable_value (compact_tables no_fault engine).0 (1 ∷ [])
    ≡ get_durable_value engine (1 ∷ [])
unfolding open_locked replayed absorb apply_operations apply_operation commit apply_all_pending
    apply_operation_with_pending write_entry insert remove operation_key operation_value get
    list_beq list_blt
compact_tables-get_example =
    compact_tables-get no_fault engine (1 ∷ []) (ground arith, ground arith, ground arith)

abbrev limits : Limits
limits = record { max_memtable_bytes = 1; max_table_layers = 3 }

-- A group whose flush ends as given.
abbrev flushes : Fault → GroupEvents
flushes fault = record {
  before = no_fault;
  reach = to_state;
  wal_over_budget = false;
  scheduled = true;
  flushing = fault;
  compacting = no_fault;
}

-- The worker fails in the compaction, and the last group is refused.
abbrev mixed_steps : List Step
mixed_steps =
    write limits (flushes no_fault) ((put (6 ∷ []) (60 ∷ []) ∷ []) ∷ (put (7 ∷ []) [] ∷ []) ∷ [])
    ∷ write limits (flushes no_fault) ((delete (6 ∷ []) ∷ delete (1 ∷ []) ∷ []) ∷ [])
    ∷ work 3 no_fault unread
    ∷ compact no_fault
    ∷ write limits (flushes unpublished) ((put (6 ∷ []) (61 ∷ []) ∷ []) ∷ [])
    ∷ write limits (flushes no_fault) ((put (6 ∷ []) (62 ∷ []) ∷ []) ∷ [])
    ∷ flush unsynced
    ∷ []

-- A group whose flush fails is answered with an error, can be read, and is the last one.
test_answered :
    ((process_group limits
        (flushes unpublished)
        ((put (6 ∷ []) (61 ∷ []) ∷ []) ∷ [])
        (open_locked tables 7 [])).1
      ≡ err file_failure)
    × (get_durable_value (run (open_locked tables 7 []) mixed_steps) (6 ∷ []) ≡ some (61 ∷ []))
unfolding get_durable_value read compact_tables guarded compacted written load truncate publish
    name_tables materialize_state add_entries add_layers add_values present flat layer_value
    entry_bytes value_bytes replaced_bytes open_locked replayed absorb apply_operations
    apply_operation commit apply_all_pending apply_operation_with_pending write_entry insert remove
    operation_key operation_value get list_beq list_blt run step process_group flush_before admitted
    execute_group stopped flush_after compact_after commit_all flush_table flushed flush_round
    compact_layers stop_on_error
test_answered = (refl, refl)

flush_table_loses_example :
    (get_durable_value
        (commit (put (6 ∷ []) (60 ∷ []) ∷ []) (open_locked tables 7 two_logged))
        (4 ∷ [])
      ≡ some (40 ∷ []))
    × (get_durable_value
          (flush_table no_fault
            (commit (put (6 ∷ []) (60 ∷ []) ∷ []) (open_locked tables 7 two_logged))).0
          (4 ∷ [])
        ≡ none)
    × (get_durable_value
          (reopened
            (flush_table no_fault
              (commit (put (6 ∷ []) (60 ∷ []) ∷ []) (open_locked tables 7 two_logged))).0)
          (4 ∷ [])
        ≡ none)
unfolding flat layer_value get list_beq replayed absorb apply_operations apply_operation insert
    list_blt operation_key
flush_table_loses_example =
    flush_table_loses tables 7 two_logged (4 ∷ []) (40 ∷ []) (put (6 ∷ []) (60 ∷ [])) [] refl
      (refl, tt)

open_locked_resurrects_example :
    (get_durable_value (commit (delete (1 ∷ []) ∷ []) (open_locked tables 7 [])) (1 ∷ []) ≡ none)
    × (get_durable_value
          (reopened (commit (delete (1 ∷ []) ∷ []) (open_locked tables 7 [])))
          (1 ∷ [])
        ≡ some (10 ∷ []))
unfolding flat layer_value get list_beq
open_locked_resurrects_example = open_locked_resurrects tables 7 [] (1 ∷ [])
