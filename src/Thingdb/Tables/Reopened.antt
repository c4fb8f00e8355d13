-- ===== src/Thingdb/Tables/Reopened.antt =====
-- What a flush writes of a database that was opened on a log with frames.
use thingd.Base.{
  ℕ, Bytes, ◌≡◌, refl, ap, ◌∙◌, inl, inr, true, false, Option, none, some, List, [], ◌∷◌, arith,
  Bool-cases, ◌==◌, ==_refl, nat_ord, list_ord, pair_ord, All,
}
use thingd.Base.BTreeMap.{get, get-insert}
use thingd.Thingdb.Wal.{Operation}
use thingd.Thingdb.Wal.Recovery.{Log}
use thingd.Thingdb.Keyspaces.{
  PendingTable, operation_key, operation_value, apply_operation_with_pending,
}
use thingd.Thingdb.Keyspaces.Pending.{apply_all_pending}
use thingd.Thingdb.Tables.{
  Layer, Inner, no_fault, written, publish, name_tables, load, truncate, guarded, read, layer_value,
  flat, get_durable_value, flushed, flush_table, commit, open_locked, replayed, reopened,
}
use thingd.Thingdb.Tables.Session.{View, write_view, write_all, layer_value-append}
use thingd.Thingdb.Tables.Commits.{apply_all_pending-read}

-- The operation is on another key.
abbrev pub Misses : Bytes → Operation → Type 0
Misses key op = (operation_key op == key) ≡ false

write_all-Misses :
    (key : Bytes) (ops : List Operation) (view : View)
    → All (Misses key) ops
    → write_all ops view key ≡ view key
unfolding write_all
write_all-Misses key [] view m = refl
write_all-Misses key (op ∷ ops) view m =
    let rest = write_all-Misses key ops (write_view op view) (m.1) in ground (arith, rest, m.0)

pending-Misses :
    (key : Bytes) (ops : List Operation) (table : PendingTable)
    → All (Misses key) ops
    → get key (apply_all_pending table ops).pending ≡ get key table.pending
unfolding apply_all_pending apply_operation_with_pending
pending-Misses key [] table m = refl
pending-Misses key (op ∷ ops) table m =
    let rest = pending-Misses key ops (apply_operation_with_pending table op) (m.1) in
    let here = get-insert (operation_key op) key (operation_value op) table.pending in
    ground (arith, rest, here, m.0)

-- A flush that has something to write, on an engine that is not stopped.
flush_table-written :
    (inner : Inner) (key : Bytes) (value : Option Bytes)
    → inner.recovery_required ≡ false
    → get key inner.table.pending ≡ some value
    → (flush_table no_fault inner).0 ≡ flushed no_fault inner
unfolding flush_table guarded get
flush_table-written inner key value running h =
    ground (arith, running, pending inner.table.pending h)
  where
    pending :
        (p : Layer) → get key p ≡ some value → (elim p [ [] ↦ false | entry ∷ more ↦ true ]) ≡ true
    pending [] h = cc
    pending (entry ∷ more) h = refl

-- A key that is pending stays so, and the first operation's key is.
pending_stays :
    (key : Bytes) (ops : List Operation) (table : PendingTable) (value : Option Bytes)
    → get key table.pending ≡ some value
    → (last : Option Bytes) × (get key (apply_all_pending table ops).pending ≡ some last)
unfolding apply_all_pending apply_operation_with_pending
pending_stays key [] table value h = (value, h)
pending_stays key (op ∷ ops) table value h =
    let next = apply_operation_with_pending table op in
    let here = get-insert (operation_key op) key (operation_value op) table.pending in
    elim (Bool-cases (operation_key op == key)) [
      | inl e ↦ pending_stays key ops next (operation_value op) (ground (arith, here, e))
      | inr e ↦ pending_stays key ops next value (ground (arith, here, e, h))
    ]

pending_first :
    (op : Operation) (ops : List Operation) (table : PendingTable)
    → (last : Option Bytes) × (get (operation_key op) (apply_all_pending table (op ∷ ops)).pending
        ≡ some last)
unfolding apply_all_pending apply_operation_with_pending
pending_first op ops table =
    let key = operation_key op in
    pending_stays key ops (apply_operation_with_pending table op) (operation_value op)
      (ground (arith, get-insert key key (operation_value op) table.pending, ==_refl key))

pub commit_read :
    (ops : List Operation) (inner : Inner) (key : Bytes)
    → get_durable_value (commit ops inner) key ≡ write_all ops (get_durable_value inner) key
unfolding commit get_durable_value
commit_read ops inner key = apply_all_pending-read inner.table inner.layers ops key

-- What a flush and a reopening after it leave of a key that is not pending.
flushed_read :
    (inner : Inner) (key : Bytes)
    → get key inner.table.pending ≡ none
    → get_durable_value (flushed no_fault inner) key ≡ flat (layer_value key inner.layers)
unfolding flushed written load truncate publish name_tables get_durable_value read get
flushed_read inner key h = ap flat (layer_value-append key inner.layers inner.table.pending h)

reopened_read :
    (inner : Inner) (key : Bytes)
    → get key inner.table.pending ≡ none
    → get_durable_value (reopened (flushed no_fault inner)) key
      ≡ flat (layer_value key inner.table_files)
unfolding flushed written load truncate publish name_tables get_durable_value read get open_locked
    replayed
reopened_read inner key h = ap flat (layer_value-append key inner.table_files inner.table.pending h)

-- A key of the replayed state reads as what the state has.
opened_read :
    (tables : List Layer) (table_sequence : ℕ) (wal : Log) (key value : Bytes)
    → get key (replayed table_sequence wal).state ≡ some value
    → get_durable_value (open_locked tables table_sequence wal) key ≡ some value
unfolding open_locked get_durable_value read get
opened_read tables table_sequence wal key value h = ground (arith, h)

-- The engine before the flush.
before_flush :
    (tables : List Layer) (table_sequence : ℕ) (wal : Log) (key : Bytes) (op : Operation)
    (ops : List Operation)
    → All (Misses key) (op ∷ ops)
    → (get key (commit (op ∷ ops) (open_locked tables table_sequence wal)).table.pending ≡ none)
      × ((flush_table no_fault (commit (op ∷ ops) (open_locked tables table_sequence wal))).0
          ≡ flushed no_fault (commit (op ∷ ops) (open_locked tables table_sequence wal)))
unfolding commit open_locked get
before_flush tables table_sequence wal key op ops misses =
    let inner = open_locked tables table_sequence wal in
    let (last, pending) = pending_first op ops inner.table in
    (
      pending-Misses key (op ∷ ops) inner.table misses,
      flush_table-written (commit (op ∷ ops) inner) (operation_key op) last refl pending,
    )

-- Open a database on its tables and on a log that sets a key to a value, commit operations on other
-- keys, at least one, and flush. The key reads as the value before the flush. After it, and after
-- another reopening, it reads as what the tables had: the flush has cut the frame from the log, and
-- has not written the value to a table.
pub flush_table_loses :
    (tables : List Layer) (table_sequence : ℕ) (wal : Log) (key value : Bytes) (op : Operation)
    (ops : List Operation)
    → get key (replayed table_sequence wal).state ≡ some value
    → All (Misses key) (op ∷ ops)
    → (get_durable_value (commit (op ∷ ops) (open_locked tables table_sequence wal)) key
        ≡ some value)
      × (get_durable_value
            (flush_table no_fault (commit (op ∷ ops) (open_locked tables table_sequence wal))).0
            key
          ≡ flat (layer_value key tables))
      × (get_durable_value
            (reopened
              (flush_table no_fault (commit (op ∷ ops) (open_locked tables table_sequence wal))).0)
            key
          ≡ flat (layer_value key tables))
unfolding commit open_locked
flush_table_loses tables table_sequence wal key value op ops stored misses =
    let inner = open_locked tables table_sequence wal in
    let (absent, flush) = before_flush tables table_sequence wal key op ops misses in
    (
      commit_read (op ∷ ops) inner key
          ∙ write_all-Misses key (op ∷ ops) (get_durable_value inner) misses
          ∙ opened_read tables table_sequence wal key value stored,
      ap (λ (x : Inner). get_durable_value x key) flush
          ∙ flushed_read (commit (op ∷ ops) inner) key absent,
      ap (λ (x : Inner). get_durable_value (reopened x) key) flush
          ∙ reopened_read (commit (op ∷ ops) inner) key absent,
    )
