-- ===== src/Thingdb/Tables/Group.antt =====
-- A group of write requests: its way through the log to the state, and the flushes around it
-- (process_group and execute_group). Bytes that a failing write leaves behind the last whole frame are
-- not represented.
use thingd.Base.{
  ℕ, ◌*◌, min, Bool, true, ◌&&◌, ◌||◌, List, [], ◌∷◌, ◌++◌, ltb, leb, if◌then◌else◌, u64_max,
  nat_ord, list_ord, pair_ord, length,
}
use thingd.Thingdb.Codec.{Result, ok, err, requires_recovery, file_failure}
use thingd.Thingdb.Wal.{Operation}
use thingd.Thingdb.Wal.Recovery.{Log}
use thingd.Thingdb.Tables.{Inner, Fault, flush_table, compact_tables, commit}

-- The limits of the builder.
pub record Limits : Type 0 where
  pub max_memtable_bytes : ℕ
  pub max_table_layers : ℕ

-- How far a group comes: to the state; not to the log, since it cannot be encoded or appended, or the
-- state has changed; to a log that cannot be synced, with what stays in it when it cannot be cut back
-- either; or to the synced log only, since the state has changed by then.
pub data Reach : Type 0 where
  to_state not_logged not_applied : Reach
  not_synced : Log → Reach

-- What happens around a group: how the flush before it ends, how far it comes, whether the log is over
-- its budget, whether a background flush can be started, and how a flush and a compaction after it end.
pub record GroupEvents : Type 0 where
  pub before : Fault
  pub reach : Reach
  pub wal_over_budget : Bool
  pub scheduled : Bool
  pub flushing : Fault
  pub compacting : Fault

-- The requests one after the other, each with its frame.
unfoldable pub commit_all : List (List Operation) → Inner → Inner
commit_all [] inner = inner
commit_all (request ∷ requests) inner = commit_all requests (commit request inner)

unfoldable pub compact_after : ℕ → Fault → Inner × Result (Unit {0}) → Inner × Result (Unit {0})
compact_after max_table_layers fault (inner, err e) = (inner, err e)
compact_after max_table_layers fault (inner, ok done) =
    if leb max_table_layers (length inner.layers)
    then compact_tables fault inner
    else (inner, ok tt)

-- After the state: a flush at once for the smallest bound, and in the background otherwise.
unfoldable pub flush_after : Limits → GroupEvents → Inner → Inner × Result (Unit {0})
flush_after limits events inner =
    if leb limits.max_memtable_bytes inner.table.pending_bytes || events.wal_over_budget
    then if leb limits.max_memtable_bytes 1
      then compact_after limits.max_table_layers events.compacting
          (flush_table events.flushing inner)
      else if events.scheduled
      then (inner, ok tt)
      else (inner, err file_failure)
    else (inner, ok tt)

-- An error after the log was synced stops the writes until the database is reopened.
unfoldable pub stopped : Inner × Result (Unit {0}) → Inner × Result (Unit {0})
stopped (inner, ok done) = (inner, ok tt)
stopped (inner, err e) = (record inner { recovery_required = true }, err e)

unfoldable pub execute_group :
    Limits → GroupEvents → List (List Operation) → Reach → Inner → Inner × Result (Unit {0})
execute_group limits events requests to_state inner =
    stopped (flush_after limits events (commit_all requests inner))
execute_group limits events requests not_logged inner = (inner, err file_failure)
execute_group limits events requests (not_synced left) inner =
    (record inner { wal = inner.wal ++ left }, err file_failure)
execute_group limits events requests not_applied inner =
    stopped (record inner { wal = (commit_all requests inner).wal }, err file_failure)

-- A flush before the group, when the background flush has fallen behind by two bounds.
unfoldable pub flush_before : Limits → GroupEvents → Inner → Inner × Result (Unit {0})
flush_before limits events inner =
    if ltb 1 limits.max_memtable_bytes
      && leb (min (limits.max_memtable_bytes * 2) u64_max) inner.table.pending_bytes
    then stopped (flush_table events.before inner)
    else (inner, ok tt)

unfoldable pub admitted :
    Limits
    → GroupEvents
    → List (List Operation)
    → Inner × Result (Unit {0})
    → Inner × Result (Unit {0})
admitted limits events requests (inner, err e) = (inner, err e)
admitted limits events requests (inner, ok done) =
    execute_group limits events requests events.reach inner

unfoldable pub process_group :
    Limits → GroupEvents → List (List Operation) → Inner → Inner × Result (Unit {0})
process_group limits events requests inner =
    if inner.recovery_required
    then (inner, err requires_recovery)
    else admitted limits events requests (flush_before limits events inner)
