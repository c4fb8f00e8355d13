-- ===== src/Thingdb/Tables.antt =====
-- Table layers of ThingDB (crates/thingdb/src/lib.rs): durable reads, flush, compaction and reopening.
-- A layer is the entries that its file was written with, in key order; a file's format is not looked
-- into. A commit is the group that reaches the state, its frame in the log.
use thingd.Base.{
  ℕ, zero, suc, ◌+◌, ◌-◌, ◌*◌, ◌/◌, ◌%◌, ◌^◌, ◌≤◌, ◌<◌, min, max, Bytes, codes, ◌≡◌, refl, sym, ap,
  ◌∙◌, ◌≢◌, ◌↔◌, ◌⊎◌, inl, inr, Bool, true, false, not, ◌&&◌, ◌||◌, Option, none, some, List, [],
  ◌∷◌, ◌++◌, map, arith, ltb, leb, nat_beq, ltb→lt, lt→ltb, leb→le, le→leb, Bool-cases,
  Option-cases, if◌then◌else◌, u32_max, u64_max, i64_max, sat_add, Ord, ◌==◌, ◌<?◌, ==_iff, ==_refl,
  nat_ord, list_ord, pair_ord, list_beq, list_blt, length, take, drop, find, any, all, filter,
  last?, All, In, Empty, update_find, find-test, find-In, find-none-In, length-append, length-take,
  length-drop, take-append, drop-append, length-filter-le, contains, starts_with,
  starts_with-append,
}
use thingd.Base.BTreeMap.{BTreeMap, get, insert}
use thingd.Thingdb.Codec.{Result, ok, err, requires_recovery, file_failure}
use thingd.Thingdb.Wal.{Operation, State, Replay, absorb}
use thingd.Thingdb.Wal.Recovery.{Log, absorb_all}
use thingd.Thingdb.Keyspaces.{PendingTable, write_entry}
use thingd.Thingdb.Keyspaces.Pending.{apply_all_pending}
mod Merge
mod Compaction
mod Worker
mod Group
mod Follows
mod Answers
mod Session
mod Commits
mod Reads
mod Reopened
mod Deleted
mod Tests

abbrev pub Layer : Type 0
Layer = BTreeMap Bytes (Option Bytes)

-- What is in memory: `table` is the state with the entries pending for the next table, `layers` goes
-- from the oldest to the newest, and `table_files` is what the next manifest adds its table to. What
-- is on disk: the tables that the manifest names, its sequence, and the frames of the log.
pub record Inner : Type 0 where
  pub table : PendingTable
  pub layers : List Layer
  pub table_files : List Layer
  pub sequence : ℕ
  pub table_sequence : ℕ
  pub recovery_required : Bool
  pub manifest_tables : List Layer
  pub manifest_sequence : ℕ
  pub wal : Log

-- Where the files of a flush or a compaction fail, if they do: before the manifest is replaced, just
-- after it is, when the new table is read back, when the log is cut, or when the cut log is synced.
pub data Fault : Type 0 where
  no_fault unpublished unrecorded unread untruncated unsynced : Fault

-- The newest layer that has the key decides.
unfoldable pub layer_value : Bytes → List Layer → Option (Option Bytes)
layer_value key [] = none
layer_value key (layer ∷ newer) = elim (layer_value key newer) [
  | none ↦ get key layer
  | some value ↦ some value
]

unfoldable pub flat : Option (Option Bytes) → Option Bytes
flat none = none
flat (some value) = value

-- The pending entries come first, then the state, then the layers.
unfoldable pub read : PendingTable → List Layer → Bytes → Option Bytes
read table layers key = elim (get key table.pending) [
  | some value ↦ value
  | none ↦ elim (get key table.state) [
    | some value ↦ some value
    | none ↦ flat (layer_value key layers)
  ]
]

unfoldable pub get_durable_value : Inner → Bytes → Option Bytes
get_durable_value inner key = read inner.table inner.layers key

-- The loops of `materialize_state`.
unfoldable pub add_entries : Layer → State → State
add_entries [] state = state
add_entries ((key, value) ∷ entries) state = add_entries entries (write_entry state key value)

unfoldable pub add_layers : List Layer → State → State
add_layers [] state = state
add_layers (layer ∷ layers) state = add_layers layers (add_entries layer state)

unfoldable pub add_values : State → State → State
add_values [] state = state
add_values ((key, value) ∷ values) state = add_values values (insert key value state)

unfoldable pub materialize_state : Inner → State
materialize_state inner =
    add_entries inner.table.pending (add_values inner.table.state (add_layers inner.layers []))

unfoldable pub present : State → Layer
present [] = []
present ((key, value) ∷ entries) = (key, some value) ∷ present entries

abbrev pub no_pending : PendingTable
no_pending = record { state = []; pending = []; pending_bytes = 0 }

-- The new tables in the manifest, in the list of files, and in memory; the log cut.
unfoldable pub publish : List Layer → Inner → Inner
publish tables inner = record inner { manifest_tables = tables; manifest_sequence = inner.sequence }

unfoldable pub name_tables : List Layer → Inner → Inner
name_tables tables inner = record inner { table_files = tables }

unfoldable pub load : List Layer → PendingTable → Inner → Inner
load tables table inner = record inner {
  layers = tables;
  table_sequence = inner.sequence;
  table = table;
}

unfoldable pub truncate : Inner → Inner
truncate inner = record inner { wal = [] }

abbrev pub has_pending : Inner → Bool
has_pending inner = elim inner.table.pending [ [] ↦ false | entry ∷ more ↦ true ]

-- A database that has failed half-way is not written before it is reopened.
unfoldable pub guarded : Bool → Inner → Inner × Result (Unit {0}) → Inner × Result (Unit {0})
guarded true inner written = (inner, err requires_recovery)
guarded false inner written = written

abbrev pub fault_result : Fault → Result (Unit {0})
fault_result no_fault = ok tt
fault_result unpublished = err file_failure
fault_result unrecorded = err file_failure
fault_result unread = err file_failure
fault_result untruncated = err file_failure
fault_result unsynced = err file_failure

-- The writes of a table up to where the files fail. The arguments are the tables of the new
-- manifest, the layers then in memory, and what is kept of the table of the state when all goes
-- well and when the log is not cut.
unfoldable pub written :
    Fault → List Layer → List Layer → PendingTable → PendingTable → Inner → Inner
written no_fault files layers done failed inner =
    truncate (load layers done (name_tables files (publish files inner)))
written unpublished files layers done failed inner = inner
written unrecorded files layers done failed inner = publish files inner
written unread files layers done failed inner = name_tables files (publish files inner)
written untruncated files layers done failed inner =
    load layers failed (name_tables files (publish files inner))
written unsynced files layers done failed inner =
    truncate (load layers failed (name_tables files (publish files inner)))

-- The pending entries as a new table; a flush that fails puts them back.
unfoldable pub flushed : Fault → Inner → Inner
flushed fault inner =
    written fault (inner.table_files ++ inner.table.pending ∷ [])
      (inner.layers ++ inner.table.pending ∷ []) no_pending (record inner.table { state = [] })
      inner

abbrev pub flush_if : Bool → Fault → Inner → Inner
flush_if true fault inner = flushed fault inner
flush_if false fault inner = inner

unfoldable pub flush_table : Fault → Inner → Inner × Result (Unit {0})
flush_table fault inner =
    guarded inner.recovery_required inner
      (flush_if (has_pending inner) fault inner, fault_result fault)

-- The merged state as the only table.
unfoldable pub compacted : Fault → Inner → Inner
compacted fault inner =
    let merged = present (materialize_state inner) ∷ [] in
    written fault merged merged no_pending no_pending inner

unfoldable pub compact_tables : Fault → Inner → Inner × Result (Unit {0})
compact_tables fault inner =
    guarded inner.recovery_required inner (compacted fault inner, fault_result fault)

-- A request of a group that is logged and reaches the state.
unfoldable pub commit : List Operation → Inner → Inner
commit operations inner = record inner {
  table = apply_all_pending inner.table operations;
  sequence = sat_add u64_max (sat_add u64_max inner.sequence 1) 1 - 1;
  wal = inner.wal ++ (sat_add u64_max inner.sequence 1, operations) ∷ [];
}

-- `open_locked`: the tables of the manifest, and the frames of the log replayed into the state.
unfoldable pub replayed : ℕ → Log → Replay
replayed table_sequence wal =
    absorb_all (record { last_sequence = table_sequence; frame_count = 0; state = [] }) wal

unfoldable pub open_locked : List Layer → ℕ → Log → Inner
open_locked tables table_sequence wal = record {
  table = record no_pending { state = (replayed table_sequence wal).state };
  layers = tables;
  table_files = tables;
  sequence = max (replayed table_sequence wal).last_sequence table_sequence;
  table_sequence = table_sequence;
  recovery_required = false;
  manifest_tables = tables;
  manifest_sequence = table_sequence;
  wal = wal;
}

-- A new process on the files that an engine leaves.
abbrev pub reopened : Inner → Inner
reopened inner = open_locked inner.manifest_tables inner.manifest_sequence inner.wal
